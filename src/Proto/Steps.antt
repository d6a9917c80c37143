-- ===== src/Proto/Steps.antt =====
-- Single commands of a session in miniftpd/ftp_proto.c and miniftpd/command_map.c: DELE, USER and PASS.
use mini_ftp.Base.{
  ◌<◌, ◌≡◌, refl, ap, ◌∙◌, true, some, List, [], ◌∷◌, ◌++◌, arith, Bytes, length, all, take,
  same_bytes,
}
use mini_ftp.Base.Text.{codes}
use mini_ftp.Commands.Codes
use mini_ftp.Commands.Dispatch.{handler_of, answer, upper_comm, do_command_map_lem}
use mini_ftp.Commands.Framing.{Delivers, framed, replied, ftp_reply_lem}
use mini_ftp.Commands.Handlers.{do_user, do_pass, do_dele, call_or_fail}
use mini_ftp.Commands.Login.{Succeeds, logged_in, do_pass_granted}
use mini_ftp.Commands.Reply.{Passwd, Env, ftp_reply, sys}
use mini_ftp.Commands.Table.{Transfers, ctrl_cmds, do_command_map}
use mini_ftp.Proto.Lines.{with_parts}
use mini_ftp.Proto.Script.{plain, is_request, run_command, converse}
use mini_ftp.Proto.{greet_client, clean_command}
use mini_ftp.Session.{
  Event, called, sent, alarm, signal_ctrl_fd, unlink, M, Proc, done, exited, seq-done,
}
use mini_ftp.Strutil.Split.{before_char, after_char}
use mini_ftp.Strutil.{str_upper}
use mini_ftp.Sockets.Calls.{need-Succeeds}
use mini_ftp.TransCtrl.{setup_signal_alarm_ctrl_fd, start_signal_alarm_ctrl_fd}

-- The arrays are clear.
abbrev pub cleared : Proc → Proc
cleared p = record p { sess = record p.sess { command = []; comm = []; args = [] } }

abbrev pub alarmed : Env → Proc → Proc
alarmed env p = record p { trace = called (alarm env.config.idle_session_timeout) ∷ p.trace }

alarm_lem : (env : Env) (p : Proc) → start_signal_alarm_ctrl_fd env p ≡ done tt (alarmed env p)
unfolding start_signal_alarm_ctrl_fd sys
alarm_lem env p = refl

-- A command that returns, in a session.
converse-step :
    (env : Env) (t : Transfers) (text : Bytes) (texts : List Bytes) (p : Proc)
    (handler : M (Unit {0})) (q : Proc)
    → handler_of (ctrl_cmds env t) (str_upper (before_char b' ' text)) ≡ some (some handler)
    → handler (upper_comm (with_parts text (alarmed env p))) ≡ done tt q
    → converse env t (text ∷ texts) p ≡ converse env t texts (cleared q)
unfolding converse run_command clean_command
converse-step env t text texts p handler q found runs =
    let at = with_parts text (alarmed env p) in
    let mapped : do_command_map env t at ≡ done tt q =
      do_command_map_lem env t at ∙ ap (λ o. answer env o (upper_comm at)) found ∙ runs in
    seq-done (start_signal_alarm_ctrl_fd env) _ p (alarm_lem env p)
    ∙ seq-done (run_command env t text) (converse env t texts) (alarmed env p)
        (seq-done (do_command_map env t) clean_command at mapped)

pub converse-end :
    (env : Env) (t : Transfers) (p : Proc) → converse env t [] p ≡ exited 0 (alarmed env p)
unfolding converse
converse-end env t p = seq-done (start_signal_alarm_ctrl_fd env) _ p (alarm_lem env p)

-- An argument that fits its array.
abbrev pub Argument : Bytes → Type 0
Argument arg = (all plain arg ≡ true) × (length arg < 512)

pub dele-is_request : (name : Bytes) → Argument name → is_request (codes "DELE " ++ name) ≡ true
unfolding is_request before_char after_char
dele-is_request name (h, l) = ground arith

pub user-is_request : (name : Bytes) → Argument name → is_request (codes "USER " ++ name) ≡ true
unfolding is_request before_char after_char
user-is_request name (h, l) = ground arith

pub pass-is_request :
    (secret : Bytes) → Argument secret → is_request (codes "PASS " ++ secret) ≡ true
unfolding is_request before_char after_char
pass-is_request secret (h, l) = ground arith

-- The state behind the greeting, with the handler of the alarm set.
abbrev pub greeted : Proc → Proc
greeted p = record p {
  trace =
      called signal_ctrl_fd
      ∷ sent (take 1023 (framed Codes.greet (codes "FTP Server 1.0")))
      ∷ p.trace;
}

pub greet_client_lem :
    (env : Env) (p : Proc) → Delivers env → Succeeds env → greet_client env p ≡ done tt (greeted p)
unfolding greet_client setup_signal_alarm_ctrl_fd
greet_client_lem env p d s =
    seq-done (ftp_reply env Codes.greet (codes "FTP Server 1.0")) _ p
      (ftp_reply_lem env Codes.greet (codes "FTP Server 1.0") p d)
    ∙ need-Succeeds env signal_ctrl_fd (replied Codes.greet (codes "FTP Server 1.0") p) s

-- The events of DELE, the last first.
abbrev pub deleted : Env → Bytes → List Event → List Event
deleted env name trace =
    sent (take 1023 (framed Codes.dele_ok (codes "Delete operation sucessfully.")))
    ∷ called (unlink name)
    ∷ called (alarm env.config.idle_session_timeout)
    ∷ trace

do_dele_lem :
    (env : Env) (p : Proc)
    → Delivers env
    → Succeeds env
    → do_dele env p
      ≡ done tt (
          replied Codes.dele_ok
            (codes "Delete operation sucessfully.")
            (record p { trace = called (unlink p.sess.args) ∷ p.trace }))
unfolding do_dele call_or_fail sys
do_dele_lem env p d s = rw (s p.trace (unlink p.sess.args)) (
    ftp_reply_lem env Codes.dele_ok (codes "Delete operation sucessfully.")
      (record p { trace = called (unlink p.sess.args) ∷ p.trace }) d)

pub converse-dele :
    (env : Env) (t : Transfers) (name : Bytes) (texts : List Bytes) (p : Proc)
    → Delivers env
    → Succeeds env
    → converse env t ((codes "DELE " ++ name) ∷ texts) p
      ≡ converse env t texts (cleared (record p { trace = deleted env name p.trace }))
unfolding before_char after_char ctrl_cmds str_upper same_bytes
converse-dele env t name texts p d s =
    converse-step env t (codes "DELE " ++ name) texts p (do_dele env) _ refl
      (do_dele_lem env (upper_comm (with_parts (codes "DELE " ++ name) (alarmed env p))) d s)

-- The events of USER, the last first.
abbrev pub asked : Env → List Event → List Event
asked env trace =
    sent (take 1023 (framed Codes.give_pword (codes "Please specify the password.")))
    ∷ called (alarm env.config.idle_session_timeout)
    ∷ trace

-- The system knows an account under a name, and its password.
pub record Account (env : Env) (name secret : Bytes) (pw : Passwd) (stored : Bytes) : Type 0 where
  pub named : (trace : List Event) → env.getpwnam trace name ≡ some pw
  pub numbered : (trace : List Event) → env.getpwuid trace pw.pw_uid ≡ some pw
  pub shadowed : (trace : List Event) → env.getspnam trace pw.pw_name ≡ some stored
  pub encrypted : env.crypt secret stored ≡ some stored

do_user_lem :
    (env : Env) (p : Proc) (pw : Passwd)
    → Delivers env
    → env.getpwnam p.trace p.sess.args ≡ some pw
    → do_user env p
      ≡ done tt (
          replied Codes.give_pword
            (codes "Please specify the password.")
            (record p { sess = record p.sess { user_uid = pw.pw_uid } }))
unfolding do_user
do_user_lem env p pw d e =
    rw (e, do_user)
      (ftp_reply_lem env Codes.give_pword (codes "Please specify the password.")
        (record p { sess = record p.sess { user_uid = pw.pw_uid } }) d)

abbrev pub logged : Env → Passwd → Proc → Proc
logged env pw p = record p {
  sess = record p.sess { command = []; comm = []; args = []; user_uid = pw.pw_uid };
  trace = logged_in env pw (called (alarm env.config.idle_session_timeout) ∷ asked env p.trace);
}

module _ (env : Env) (t : Transfers) (name secret : Bytes) (pw : Passwd) (stored : Bytes)
    (d : Delivers env) (s : Succeeds env) (account : Account env name secret pw stored) where
  converse-user :
      (texts : List Bytes) (p : Proc)
      → converse env t ((codes "USER " ++ name) ∷ texts) p
        ≡ converse env t texts (
            cleared (record p {
              sess = record p.sess { user_uid = pw.pw_uid };
              trace = asked env p.trace;
            }))
  unfolding before_char after_char ctrl_cmds str_upper same_bytes
  converse-user texts p = converse-step env t (codes "USER " ++ name) texts p (do_user env) _ refl (
      do_user_lem env (upper_comm (with_parts (codes "USER " ++ name) (alarmed env p))) pw d
        (account.named _))

  converse-pass :
      (texts : List Bytes) (p : Proc)
      → p.sess.user_uid ≡ pw.pw_uid
      → converse env t ((codes "PASS " ++ secret) ∷ texts) p
        ≡ converse env t texts
            (cleared (record p { trace = logged_in env pw (alarmed env p).trace }))
  unfolding before_char after_char ctrl_cmds str_upper same_bytes
  converse-pass texts p same =
      converse-step env t (codes "PASS " ++ secret) texts p (do_pass env) _ refl (
        do_pass_granted env (upper_comm (with_parts (codes "PASS " ++ secret) (alarmed env p))) pw
          stored d s (rw same (account.numbered _), account.shadowed _, account.encrypted))

  pub converse-login :
      (texts : List Bytes) (p : Proc)
      → converse env t ((codes "USER " ++ name) ∷ (codes "PASS " ++ secret) ∷ texts) p
        ≡ converse env t texts (logged env pw p)
  converse-login texts p =
      converse-user ((codes "PASS " ++ secret) ∷ texts) p
      ∙ converse-pass texts
          (cleared
            (record p { sess = record p.sess { user_uid = pw.pw_uid }; trace = asked env p.trace }))
          refl
