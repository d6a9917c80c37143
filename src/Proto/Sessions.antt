-- ===== src/Proto/Sessions.antt =====
-- Whole sessions of a client in miniftpd/ftp_proto.c and miniftpd/command_map.c: what is done before
-- and behind a login.
use mini_ftp.Base.{
  ℕ, ◌+◌, ◌*◌, ◌^◌, ◌≤◌, ◌<◌, ◌≡◌, refl, ◌∙◌, true, List, [], ◌∷◌, ◌++◌, Bytes, length, all,
}
use mini_ftp.Base.Int.{pos}
use mini_ftp.Base.Text.{codes}
use mini_ftp.Commands.Framing.{Delivers}
use mini_ftp.Commands.Login.{Succeeds}
use mini_ftp.Commands.Reply.{Passwd, Env}
use mini_ftp.Proto.Script.{is_request, script, converse, handle_proto-converse}
use mini_ftp.Proto.{greet_client, handle_proto}
use mini_ftp.Session.{Proc, exited, seq-done}
use mini_ftp.Sysutil.Reading.{read_ok, looks}
use mini_ftp.Sysutil.{Arrival}
use mini_ftp.TransCtrl.{Double}
use mini_ftp.TransData.Transfer.{transfers}
use mini_ftp.Proto.Steps.{
  Account, Argument, cleared, alarmed, greeted, deleted, logged, converse-dele, converse-end,
  greet_client_lem, converse-login, dele-is_request, user-is_request, pass-is_request,
}

-- What a session needs to start: the socket to the other process is a descriptor below 2 ^ 24, and
-- the transfer mode and the mark of a running transfer are 0 or 1.
pub record Ready (p : Proc) : Type 0 where
  pub proto_fd : ℕ
  pub is_proto_fd : p.sess.proto_fd ≡ pos proto_fd
  pub small : proto_fd < 2 ^ 24
  pub mode : p.sess.ascii_mode ≤ 1
  pub mark : p.sess.is_translating_data ≤ 1

module _ {W : Type 0} (d : Double W) (env : Env) (schedule : List Arrival) (p : Proc)
    (ready : Ready p) (delivers : Delivers env) (calm : all read_ok schedule ≡ true)
    (succeeds : Succeeds env) where
  handle_proto-greeted :
      (texts : List Bytes)
      → all is_request texts ≡ true
      → 2 * length (script texts) + 2048 ≤ looks schedule
      → handle_proto env (transfers d env) schedule (script texts) p
        ≡ converse env (transfers d env) texts (greeted p)
  handle_proto-greeted texts ok enough =
      handle_proto-converse d env ready.proto_fd schedule texts p ready.is_proto_fd ready.small
        ready.mode ready.mark ok calm enough
      ∙ seq-done (greet_client env) _ p (greet_client_lem env p delivers succeeds)

  -- A client that sends USER and PASS with the name and the password of an account, and then any
  -- other commands, is logged in before they run: behind the greeting the process has given up its
  -- group and its user and has gone to the home directory, in this order, and each command behind it
  -- runs in that state. The replies to both are one line each. No call fails, and the connection
  -- takes all bytes and delivers all that the client sends.
  pub handle_proto_login :
      (name secret stored : Bytes) (pw : Passwd) (texts : List Bytes)
      → Account env name secret pw stored
      → Argument name
      → Argument secret
      → all is_request texts ≡ true
      → 2 * length (script ((codes "USER " ++ name) ∷ (codes "PASS " ++ secret) ∷ texts)) + 2048
        ≤ looks schedule
      → handle_proto env
          (transfers d env)
          schedule
          (script ((codes "USER " ++ name) ∷ (codes "PASS " ++ secret) ∷ texts))
          p
        ≡ converse env (transfers d env) texts (logged env pw (greeted p))
  handle_proto_login name secret stored pw texts account a b ok enough =
      handle_proto-greeted ((codes "USER " ++ name) ∷ (codes "PASS " ++ secret) ∷ texts)
        (rw (user-is_request name a, pass-is_request secret b) ok) enough
      ∙ converse-login env (transfers d env) name secret pw stored delivers succeeds account texts
          (greeted p)

  -- A client that sends DELE and nothing else, not even USER, has the file unlinked: behind the
  -- greeting the process sets its alarm, unlinks the file that the client names, replies that it is
  -- deleted, sets its alarm again, and exits normally. It gives up neither its user nor its group
  -- before. No call fails, and the connection takes all bytes and delivers all that the client sends.
  pub handle_proto_unauthenticated :
      (name : Bytes)
      → Argument name
      → 2 * length (script ((codes "DELE " ++ name) ∷ [])) + 2048 ≤ looks schedule
      → handle_proto env (transfers d env) schedule (script ((codes "DELE " ++ name) ∷ [])) p
        ≡ exited 0 (alarmed env (cleared (record p { trace = deleted env name (greeted p).trace })))
  handle_proto_unauthenticated name a enough =
      handle_proto-greeted ((codes "DELE " ++ name) ∷ []) (rw (dele-is_request name a) refl) enough
      ∙ converse-dele env (transfers d env) name [] (greeted p) delivers succeeds
      ∙ converse-end env (transfers d env) _
