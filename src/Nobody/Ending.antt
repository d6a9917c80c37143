-- ===== src/Nobody/Ending.antt =====
-- How the process of miniftpd/ftp_nobody.c ends, with the handler of SIGCHLD and the tables that it has
-- from miniftpd/main.c.
use mini_ftp.Base.{
  ℕ, ◌+◌, ◌*◌, ◌^◌, ◌<◌, ◌≡◌, ap, ◌∙◌, none, some, List, [], ◌∷◌, ◌++◌, if◌then◌else◌, length,
  replicate,
}
use mini_ftp.Base.Int.{is_minus_one}
use mini_ftp.Base.Run.{ok, abort}
use mini_ftp.Base.Text.{codes}
use mini_ftp.Clients.{nat_key}
use mini_ftp.Commands.Reply.{Passwd, Env}
use mini_ftp.Hash.{hash_lookup_value_by_key}
use mini_ftp.Nobody.Loop.{flags, ending, lowered, last_signal, handle_nobody_queries}
use mini_ftp.Nobody.{pasv_active, handle_nobody}
use mini_ftp.PrivSock.Transport.{Sends, Hears}
use mini_ftp.PrivSock.{int_bytes}
use mini_ftp.Server.History.{inherited_handler}
use mini_ftp.Server.{forking, Server, Event, server_init, server_run}
use mini_ftp.Session.{Proc, killed}
use mini_ftp.Sockets.Connect.{Grants}

-- The process that is forked while the server has just accepted a client, after any run of fewer
-- than 2 ^ 32 events, has the tables of that moment. It answers `k` questions for the mode, and where
-- its own child, whose pid is in no table, is reaped in front of its read of the end of the input, it
-- does not end with the status 0: the assertion of the handler fails and aborts it. The user nobody is
-- known, the calls succeed, no signal comes while a question is to be read, and the socket carries
-- the bytes.
pub handle_nobody_aborts :
    (es : List Event) {s : Server}
    → server_run server_init es ≡ ok s
    → (ip pid : ℕ) → length es < 2 ^ 32
    → s.phase ≡ forking ip
    → hash_lookup_value_by_key s.tables.pid_to_ip pid ≡ ok none
    → (env : Env) → Grants env
    → (pw : Passwd) (k : ℕ) (q : Proc) → env.getpwnam q.trace (codes "nobody") ≡ some pw
    → env.kernel.inherited ≡ s.tables
    → env.kernel.reaped (lowered pw q.trace) 0 ≡ pid ∷ []
    → q.wire.inbox ≡ replicate k pasv_active
    → Hears (4 * k + 1) q.wire.arrivals
    → Sends (4 * k + 1) q.wire.departures
    → (q' : Proc) × (handle_nobody env q ≡ killed q')
      × (q'.wire.outbox
          ≡ q.wire.outbox ++ flags k (int_bytes (if is_minus_one q.sess.listen_fd then 0 else 1)))
      × (q'.trace ≡ lowered pw q.trace)
handle_nobody_aborts es run ip pid b phase absent env g pw k q found tables child h hears sends =
    let (q', a, e, out, session, trace) = handle_nobody_queries env g pw k q found h hears sends in
    let aborted : last_signal env (lowered pw q.trace) ≡ abort =
      rw (tables, child) (inherited_handler es run ip pid b phase absent) in
    (q', e ∙ ap (λ r. ending r q' a) aborted, out, trace)
