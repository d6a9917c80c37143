-- ===== src/PrivSock/Sound.antt =====
-- The messages of miniftpd/priv_sock.c keep the session sound.
use mini_ftp.Base.{
  ℕ, ltb, Bool, true, false, Option, none, some, List, [], ◌∷◌, ◌++◌, ◌==◌, Bytes, length,
}
use mini_ftp.Base.Int.{ℤ}
use mini_ftp.Commands.Reply.{Env}
use mini_ftp.Commands.Sound.{IsSound, sys-IsSound}
use mini_ftp.PrivSock.{
  socket_write, socket_read, send_or_exit, read_or_exit, priv_sock_send_cmd, priv_sock_recv_result,
  priv_sock_send_int, priv_sock_recv_int, priv_sock_send_str, receive_fd, priv_sock_recv_fd,
  priv_sock_recv_cmd, priv_sock_send_result, priv_sock_recv_str, priv_sock_send_fd, send_failed,
}
use mini_ftp.Session.Invariant.{
  Keeps, Leaves, bind-Leaves, if-Leaves, option-Leaves, done-Leaves, exited-Leaves, killed-Leaves,
  hung-Leaves,
}
use mini_ftp.Session.{Session, Proc, Out, done, killed, hung, M, exit, pure}
use mini_ftp.Sysutil.{
  Arrival, up_to, Put, wrote, write_failed, stopped, stalled, writen, Got, got, failed, never,
  readn,
}

module _ (s₀ : Session) where
  put-IsSound :
      (r : Put) (p : Proc)
      → IsSound s₀ p.sess
      → Leaves (IsSound s₀) (
          let out : Out Bool = elim r [
            | wrote b s ↦
                done true (record p {
                  wire = record p.wire { outbox = p.wire.outbox ++ b; departures = s };
                })
            | write_failed b s ↦
                done false (record p {
                  wire = record p.wire { outbox = p.wire.outbox ++ b; departures = s };
                })
            | stopped b ↦
                killed (record p {
                  wire = record p.wire { outbox = p.wire.outbox ++ b; departures = [] };
                })
            | stalled b ↦
                hung (record p {
                  wire = record p.wire { outbox = p.wire.outbox ++ b; departures = [] };
                })
          ] in
          out)
  put-IsSound (wrote b s) p h = done-Leaves _ _ h
  put-IsSound (write_failed b s) p h = done-Leaves _ _ h
  put-IsSound (stopped b) p h = killed-Leaves _ h
  put-IsSound (stalled b) p h = hung-Leaves _ h

  socket_write-IsSound : (b : Bytes) → Keeps (IsSound s₀) (socket_write b)
  unfolding socket_write
  socket_write-IsSound b p h = put-IsSound (writen p.wire.departures b) p h

  got-IsSound :
      (r : Got) (p : Proc)
      → IsSound s₀ p.sess
      → Leaves (IsSound s₀) (
          let out : Out (Option Bytes) = elim r [
            | got b rest s ↦
                done (some b) (record p { wire = record p.wire { inbox = rest; arrivals = s } })
            | failed rest s ↦
                done none (record p { wire = record p.wire { inbox = rest; arrivals = s } })
            | never ↦ hung p
          ] in
          out)
  got-IsSound (got b rest s) p h = done-Leaves _ _ h
  got-IsSound (failed rest s) p h = done-Leaves _ _ h
  got-IsSound never p h = hung-Leaves _ h

  socket_read-IsSound : (n : ℕ) → Keeps (IsSound s₀) (socket_read n)
  unfolding socket_read
  socket_read-IsSound n p h = got-IsSound (readn p.wire.arrivals p.wire.inbox n) p h

  send_or_exit-IsSound : (b : Bytes) → Keeps (IsSound s₀) (send_or_exit b)
  unfolding send_or_exit
  send_or_exit-IsSound b p h =
      bind-Leaves _ _ (socket_write-IsSound b p h)
        λ ok q k. if-Leaves ok _ _ q (done-Leaves _ _ k) (exited-Leaves _ _ k)

  read_or_exit-IsSound : (n : ℕ) → Keeps (IsSound s₀) (read_or_exit n)
  unfolding read_or_exit
  read_or_exit-IsSound n p h = bind-Leaves _ _ (socket_read-IsSound n p h) λ r q k.
      option-Leaves r _ _ q (exited-Leaves _ _ k)
        λ b. if-Leaves (length b == n) _ _ q (done-Leaves _ _ k) (exited-Leaves _ _ k)

  pub priv_sock_send_cmd-IsSound : (c : ℕ) → Keeps (IsSound s₀) (priv_sock_send_cmd c)
  unfolding priv_sock_send_cmd
  priv_sock_send_cmd-IsSound c p h = send_or_exit-IsSound _ p h

  pub priv_sock_recv_result-IsSound : Keeps (IsSound s₀) priv_sock_recv_result
  unfolding priv_sock_recv_result
  priv_sock_recv_result-IsSound p h =
      bind-Leaves _ _ (read_or_exit-IsSound 1 p h) λ b q k. done-Leaves _ _ k

  pub priv_sock_send_int-IsSound : (n : ℕ) → Keeps (IsSound s₀) (priv_sock_send_int n)
  unfolding priv_sock_send_int
  priv_sock_send_int-IsSound n p h = send_or_exit-IsSound _ p h

  pub priv_sock_recv_int-IsSound : Keeps (IsSound s₀) priv_sock_recv_int
  unfolding priv_sock_recv_int
  priv_sock_recv_int-IsSound p h =
      bind-Leaves _ _ (read_or_exit-IsSound 4 p h) λ b q k. done-Leaves _ _ k

  pub priv_sock_send_str-IsSound : (b : Bytes) → Keeps (IsSound s₀) (priv_sock_send_str b)
  unfolding priv_sock_send_str
  priv_sock_send_str-IsSound b p h =
      bind-Leaves _ _ (priv_sock_send_int-IsSound (length b) p h)
        λ _ q k. send_or_exit-IsSound b q k

  receive_fd-IsSound :
      (s : List Arrival) (inbox : Bytes) (fds : List ℕ)
      → Keeps (IsSound s₀) (receive_fd s inbox fds)
  unfolding receive_fd
  receive_fd-IsSound [] inbox fds p h = hung-Leaves _ h
  receive_fd-IsSound (up_to k ∷ s) (c ∷ inbox) (fd ∷ fds) p h = done-Leaves _ _ h
  receive_fd-IsSound (up_to k ∷ s) (c ∷ inbox) [] p h = exited-Leaves _ _ h
  receive_fd-IsSound (up_to k ∷ s) [] fds p h = exited-Leaves _ _ h
  receive_fd-IsSound (Arrival.broken ∷ s) inbox fds p h = exited-Leaves _ _ h
  receive_fd-IsSound (Arrival.interrupted ∷ s) inbox fds p h = exited-Leaves _ _ h

  pub priv_sock_recv_fd-IsSound : Keeps (IsSound s₀) priv_sock_recv_fd
  unfolding priv_sock_recv_fd
  priv_sock_recv_fd-IsSound p h = receive_fd-IsSound p.wire.receipts p.wire.inbox p.wire.passed p h

  command_of-IsSound :
      (r : Option Bytes) (q : Proc)
      → IsSound s₀ q.sess
      → Leaves (IsSound s₀) (
          let next : M ℕ = elim r [ none ↦ exit 1 | some [] ↦ exit 0 | some (c ∷ cs) ↦ pure c ] in
          next q)
  command_of-IsSound none q h = exited-Leaves _ _ h
  command_of-IsSound (some []) q h = exited-Leaves _ _ h
  command_of-IsSound (some (c ∷ cs)) q h = done-Leaves _ _ h

  pub priv_sock_recv_cmd-IsSound : Keeps (IsSound s₀) priv_sock_recv_cmd
  unfolding priv_sock_recv_cmd
  priv_sock_recv_cmd-IsSound p h =
      bind-Leaves _ _ (socket_read-IsSound 1 p h) λ r q k. command_of-IsSound r q k

  pub priv_sock_send_result-IsSound : (n : ℕ) → Keeps (IsSound s₀) (priv_sock_send_result n)
  unfolding priv_sock_send_result
  priv_sock_send_result-IsSound n p h = send_or_exit-IsSound _ p h

  pub priv_sock_recv_str-IsSound : (len : ℕ) → Keeps (IsSound s₀) (priv_sock_recv_str len)
  unfolding priv_sock_recv_str
  priv_sock_recv_str-IsSound len p h =
      bind-Leaves _ _ (priv_sock_recv_int-IsSound p h)
        λ n q k. if-Leaves (ltb len n) _ _ q (exited-Leaves _ _ k) (read_or_exit-IsSound n q k)

  send_failed-IsSound : (env : Env) → Keeps (IsSound s₀) (send_failed env)
  unfolding send_failed
  send_failed-IsSound env p h =
      if-Leaves (env.kernel.raises_sigpipe p.trace) killed (exit 1) p (killed-Leaves p h)
        (exited-Leaves _ p h)

  pub priv_sock_send_fd-IsSound :
      (env : Env) (fd : ℤ) → Keeps (IsSound s₀) (priv_sock_send_fd env fd)
  unfolding priv_sock_send_fd
  priv_sock_send_fd-IsSound env fd p h =
      bind-Leaves _ _ (sys-IsSound env s₀ _ p h)
        λ ok q k. if-Leaves ok _ _ q (done-Leaves _ _ k) (send_failed-IsSound env q k)
