-- ===== src/Child/Limits.antt =====
-- Whom the child of miniftpd/main.c turns away, and what it does for the others.
use mini_ftp.Base.{
  ℕ, ◌+◌, ◌*◌, ◌^◌, ◌≤◌, ◌<◌, ◌≡◌, ◌≢◌, refl, ◌∙◌, true, some, List, [], ◌∷◌, Bytes, length, all,
  arith,
}
use mini_ftp.Base.Int.{pos}
use mini_ftp.Base.Text.{codes}
use mini_ftp.Child.Outcomes.{counts_of, taken, begin-limits, begin-admitted}
use mini_ftp.Child.Roles.{with_pair, as_proto, begin-child}
use mini_ftp.Child.{Forked, child, turn_away, session_begin, child_begin}
use mini_ftp.Clients.{Verdict, admitted, too_many_users, ip_limit, limit_num_clients}
use mini_ftp.Commands.Codes
use mini_ftp.Commands.Framing.{Delivers, framed, ftp_reply_whole}
use mini_ftp.Commands.Reply.{Env}
use mini_ftp.Commands.Table.{Transfers}
use mini_ftp.Proto.Script.{is_request, script, converse, handle_proto-converse}
use mini_ftp.Proto.{greet_client}
use mini_ftp.Session.{called, sent, close, Proc, exited, M, ◌>>=◌, ◌>>◌}
use mini_ftp.Sysutil.Reading.{read_ok, looks}
use mini_ftp.Sysutil.{Arrival}
use mini_ftp.TransCtrl.{Double}
use mini_ftp.TransData.Transfer.{transfers}

-- The line for a client that is turned away.
abbrev pub refusal : Verdict → Bytes
refusal admitted = []
refusal too_many_users =
    framed Codes.too_many_users (codes "There are too many connected users, please try later.")
refusal ip_limit =
    framed Codes.ip_limit (codes "There are too many connections from your internet address.")

turned_away :
    (env : Env) (v : Verdict) (k : M (Unit {0})) (q : Proc)
    → Delivers env
    → v ≢ admitted
    → (turn_away env v >> k) q ≡ exited 1 (record q { trace = sent (refusal v) ∷ q.trace })
unfolding turn_away
turned_away env admitted k q d h = absurd (h refl)
turned_away env too_many_users k q d h =
    rw
      (
        ◌>>=◌,
        ◌>>=◌,
        ftp_reply_whole env Codes.too_many_users
            (codes "There are too many connected users, please try later.") q d (omega arith)
            (omega arith) (omega arith),
      )
      refl
turned_away env ip_limit k q d h =
    rw
      (
        ◌>>=◌,
        ◌>>=◌,
        ftp_reply_whole env Codes.ip_limit
            (codes "There are too many connections from your internet address.") q d (omega arith)
            (omega arith) (omega arith),
      )
      refl

-- A client beyond a limit gets one whole line with code 421, and the child exits with status 1: no
-- socket is made for a second process, and the child does not fork. The connection takes all bytes
-- without failure.
pub child_begin-turned_away :
    (env : Env) (t : Transfers) (listenfd peerfd : ℕ) (forked : Forked) (schedule : List Arrival)
    (stream : Bytes) (p : Proc)
    → Delivers env
    → limit_num_clients env.config (counts_of p) ≢ admitted
    → child_begin env t listenfd peerfd forked schedule stream p
      ≡ exited 1 (record (taken listenfd peerfd p) {
        trace =
            sent (refusal (limit_num_clients env.config (counts_of p)))
            ∷ called (close (pos listenfd))
            ∷ p.trace;
      })
child_begin-turned_away env t listenfd peerfd forked schedule stream p d h =
    begin-limits env t listenfd peerfd schedule stream p forked
    ∙ turned_away env (limit_num_clients env.config (counts_of p))
        (session_begin env t forked schedule stream) (taken listenfd peerfd p) d h

-- For a client within the limits, the process of the commands does what a conversation on its lines
-- one by one does: it closes the listening socket and its copy of the other end of the pair, sends
-- the greeting, runs the command of each text in turn, and exits normally behind the last if none
-- ends it before, however the kernel cuts the bytes of the client into pieces and interrupts the calls, as long as none fails and it goes on
-- delivering. The texts have no NUL, CR or LF, and fit the arrays; the second end of the pair is a
-- descriptor below 2 ^ 24; the transfer mode and the mark of a running transfer are 0 or 1.
pub child_begin-converse :
    {W : Type 0} (d : Double W) (env : Env) (listenfd peerfd near far : ℕ) (schedule : List Arrival)
    (texts : List Bytes) (p : Proc)
    → limit_num_clients env.config (counts_of p) ≡ admitted
    → env.kernel.socketpair (called (close (pos listenfd)) ∷ p.trace) ≡ some (near, far)
    → far < 2 ^ 24
    → p.sess.ascii_mode ≤ 1
    → p.sess.is_translating_data ≤ 1
    → all is_request texts ≡ true
    → all read_ok schedule ≡ true
    → 2 * length (script texts) + 2048 ≤ looks schedule
    → child_begin env (transfers d env) listenfd peerfd child schedule (script texts) p
      ≡ (greet_client env >> converse env (transfers d env) texts)
          (as_proto (with_pair near far (taken listenfd peerfd p)))
child_begin-converse d env listenfd peerfd near far schedule texts p ok pair small a b fit calm
      enough =
    let t = transfers d env in
    begin-admitted env t listenfd peerfd schedule (script texts) p child ok
    ∙ begin-child env t near far schedule (script texts) (taken listenfd peerfd p) pair
    ∙ handle_proto-converse d env far schedule texts
        (as_proto (with_pair near far (taken listenfd peerfd p))) refl small a b fit calm enough
