-- ===== src/PrivSock.antt =====
-- miniftpd/priv_sock.c, with `send_fd` and `recv_fd` of miniftpd/sysutil.c: the messages between the
-- two processes of a client, over their ends of a stream socket.
pub mod Transport
pub mod Sound
pub mod Messages
mod Tests
use mini_ftp.Base.{
  ℕ, ◌+◌, ◌*◌, ◌/◌, ◌%◌, ◌^◌, Bool, true, false, Option, none, some, List, [], ◌∷◌, ◌++◌, ltb, ◌==◌,
  if◌then◌else◌, Bytes, length, drop,
}
use mini_ftp.Base.Int.{ℤ, minus_one, is_minus_one, pos}
use mini_ftp.Commands.Reply.{Env, sys}
use mini_ftp.Session.{
  Session, Call, called, socketpair, log, sendmsg, close, Wire, Proc, Out, done, exited, killed,
  hung, M, pure, ◌>>=◌, ◌>>◌, ask, modify, exit,
}
use mini_ftp.Sysutil.{
  Arrival, broken, interrupted, up_to, got, failed, never, readn, Put, wrote, write_failed, stopped,
  stalled, writen,
}

-- `writen` on the socket: whether the count came back.
unfoldable pub socket_write : Bytes → M Bool
socket_write buf p = elim (writen p.wire.departures buf) [
  | wrote b s ↦
      done true (record p { wire = record p.wire { outbox = p.wire.outbox ++ b; departures = s } })
  | write_failed b s ↦
      done false (record p { wire = record p.wire { outbox = p.wire.outbox ++ b; departures = s } })
  | stopped b ↦
      killed (record p { wire = record p.wire { outbox = p.wire.outbox ++ b; departures = [] } })
  | stalled b ↦
      hung (record p { wire = record p.wire { outbox = p.wire.outbox ++ b; departures = [] } })
]

-- `readn` on the socket: the bytes that it read, or -1.
unfoldable pub socket_read : ℕ → M (Option Bytes)
socket_read n p = elim (readn p.wire.arrivals p.wire.inbox n) [
  | got b rest s ↦ done (some b) (record p { wire = record p.wire { inbox = rest; arrivals = s } })
  | failed rest s ↦ done none (record p { wire = record p.wire { inbox = rest; arrivals = s } })
  | never ↦ hung p
]

-- The end of the process where a message is not written whole.
unfoldable pub send_or_exit : Bytes → M (Unit {0})
send_or_exit buf = do ok ← socket_write buf; if ok then pure tt else exit 1

-- Exactly `n` bytes, or the end of the process.
unfoldable pub read_or_exit : ℕ → M Bytes
unfolding socket_read
read_or_exit n = do
  r ← socket_read n
  elim r [ none ↦ exit 1 | some b ↦ if length b == n then pure b else exit 1 ]

abbrev pub head_byte : Bytes → ℕ
head_byte [] = 0
head_byte (c ∷ cs) = c

-- A command and a result are one byte. `writen` of one byte does not return 0.
unfoldable pub priv_sock_send_cmd : ℕ → M (Unit {0})
priv_sock_send_cmd cmd = send_or_exit (cmd ∷ [])

unfoldable pub priv_sock_recv_cmd : M ℕ
unfolding socket_read
priv_sock_recv_cmd = do
  r ← socket_read 1
  elim r [ none ↦ exit 1 | some [] ↦ exit 0 | some (c ∷ cs) ↦ pure c ]

unfoldable pub priv_sock_send_result : ℕ → M (Unit {0})
priv_sock_send_result res = send_or_exit (res ∷ [])

unfoldable pub priv_sock_recv_result : M ℕ
priv_sock_recv_result = do b ← read_or_exit 1; pure (head_byte b)

-- The four bytes of an `int` on a little-endian machine, for its 32 bits as a number.
abbrev pub int_bytes : ℕ → Bytes
int_bytes n = (n % 2 ^ 8) ∷ (n / 2 ^ 8 % 2 ^ 8) ∷ (n / 2 ^ 16 % 2 ^ 8) ∷ (n / 2 ^ 24 % 2 ^ 8) ∷ []

abbrev pub bytes_int : Bytes → ℕ
bytes_int (a ∷ b ∷ c ∷ d ∷ []) = a + b * 2 ^ 8 + c * 2 ^ 16 + d * 2 ^ 24
bytes_int _ = 0

unfoldable pub priv_sock_send_int : ℕ → M (Unit {0})
priv_sock_send_int n = send_or_exit (int_bytes n)

unfoldable pub priv_sock_recv_int : M ℕ
priv_sock_recv_int = do b ← read_or_exit 4; pure (bytes_int b)

unfoldable pub priv_sock_send_str : Bytes → M (Unit {0})
priv_sock_send_str buf = do priv_sock_send_int (length buf); send_or_exit buf

-- `len` is the size of the array that the string goes to.
unfoldable pub priv_sock_recv_str : ℕ → M Bytes
priv_sock_recv_str len = do
  recv_len ← priv_sock_recv_int
  if ltb len recv_len then exit 1 else read_or_exit recv_len

-- A `sendmsg` that fails ends the process, by SIGPIPE where the other process is gone.
unfoldable pub send_failed : Env → M (Unit {0})
send_failed env p =
    let ending : M (Unit {0}) = if env.kernel.raises_sigpipe p.trace then killed else exit 1 in
    ending p

-- `sendmsg` of one byte 0 with a descriptor.
unfoldable pub priv_sock_send_fd : Env → ℤ → M (Unit {0})
unfolding send_failed
priv_sock_send_fd env fd = do
  ok ← sys env (sendmsg fd)
  if ok
      then (λ p. done tt (record p {
        wire = record p.wire {
          outbox = p.wire.outbox ++ 0 ∷ [];
          handed = p.wire.handed ++ fd ∷ [];
        };
      }))
      else send_failed env

-- `recvmsg` of one byte, once. Without a descriptor, or with -1, the process ends.
unfoldable pub receive_fd : List Arrival → Bytes → List ℕ → M ℤ
receive_fd [] inbox fds p = hung p
receive_fd (up_to k ∷ s) (c ∷ inbox) (fd ∷ fds) p =
    done (pos fd) (record p { wire = record p.wire { inbox = inbox; receipts = s; passed = fds } })
receive_fd (a ∷ s) inbox fds p = exited 1 p

unfoldable pub priv_sock_recv_fd : M ℤ
unfolding receive_fd
priv_sock_recv_fd p = receive_fd p.wire.receipts p.wire.inbox p.wire.passed p

-- The descriptor of the other process's end is given up.
unfoldable pub close_unless_minus_one : Env → ℤ → M (Unit {0})
close_unless_minus_one env fd =
    if is_minus_one fd then pure tt else (do _ ← sys env (close fd); pure tt)

module _ (env : Env) where
  unfoldable pub priv_sock_init : M (Unit {0})
  priv_sock_init = do
    fds ← ask (λ p. env.kernel.socketpair p.trace)
    log (called socketpair)
    elim fds [
      | none ↦ exit 1
      | some (near, far) ↦ modify (λ s. record s { nobody_fd = pos near; proto_fd = pos far })
    ]

  unfoldable pub priv_sock_close : M (Unit {0})
  unfolding close_unless_minus_one
  priv_sock_close = do
    nobody ← ask (λ p. p.sess.nobody_fd)
    close_unless_minus_one env nobody
    modify (λ s. record s { nobody_fd = minus_one })
    proto ← ask (λ p. p.sess.proto_fd)
    close_unless_minus_one env proto
    modify (λ s. record s { proto_fd = minus_one })

  unfoldable pub priv_sock_set_nobody_context : M (Unit {0})
  unfolding close_unless_minus_one
  priv_sock_set_nobody_context = do
    proto ← ask (λ p. p.sess.proto_fd)
    close_unless_minus_one env proto
    modify (λ s. record s { proto_fd = minus_one })

  unfoldable pub priv_sock_set_proto_context : M (Unit {0})
  unfolding close_unless_minus_one
  priv_sock_set_proto_context = do
    nobody ← ask (λ p. p.sess.nobody_fd)
    close_unless_minus_one env nobody
    modify (λ s. record s { nobody_fd = minus_one })
