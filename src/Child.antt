-- ===== src/Child.antt =====
-- The child that miniftpd/main.c forks for a client, up to the two processes of miniftpd/session.c:
-- the refusals of miniftpd/ftp_assist.c, and `session_begin`.
pub mod Roles
pub mod Outcomes
pub mod Limits
mod Tests
use mini_ftp.Base.{ℕ, List, Bytes}
use mini_ftp.Base.Int.{pos}
use mini_ftp.Base.Text.{codes}
use mini_ftp.Clients.{Counts, Verdict, admitted, too_many_users, ip_limit, limit_num_clients}
use mini_ftp.Commands.Codes
use mini_ftp.Commands.Reply.{Env, ftp_reply, sys}
use mini_ftp.Commands.Table.{Transfers}
use mini_ftp.Nobody.{handle_nobody}
use mini_ftp.PrivSock.{priv_sock_init, priv_sock_set_nobody_context, priv_sock_set_proto_context}
use mini_ftp.Proto.{handle_proto}
use mini_ftp.Session.{close, Proc, M, pure, ◌>>=◌, ◌>>◌, ask, modify, exit}
use mini_ftp.Sysutil.{Arrival}

-- What `fork` returns to the process that is followed: 0, a child, or -1.
pub data Forked : Type 0 where
  child parent fork_failed : Forked

module _ (env : Env) where
  -- What `limit_num_clients` does on its verdict.
  unfoldable pub turn_away : Verdict → M (Unit {0})
  turn_away admitted = pure tt
  turn_away too_many_users = do
    ftp_reply env Codes.too_many_users
        (codes "There are too many connected users, please try later.")
    exit 1
  turn_away ip_limit = do
    ftp_reply env Codes.ip_limit
        (codes "There are too many connections from your internet address.")
    exit 1

  unfoldable pub limit_clients : M (Unit {0})
  unfolding turn_away
  limit_clients = do
    counts ← ask (λ p. record {
      curr_clients = p.sess.curr_clients;
      curr_ip_clients = p.sess.curr_ip_clients;
    })
    turn_away (limit_num_clients env.config counts)

  module _ (transfers : Transfers) where
    -- Behind `fork`, on what the client sends. The end of the socket that the process reads and
    -- writes is in its state.
    unfoldable pub session_roles : Forked → List Arrival → Bytes → M (Unit {0})
    session_roles child schedule stream = do
      priv_sock_set_proto_context env
      handle_proto env transfers schedule stream
    session_roles parent schedule stream = do priv_sock_set_nobody_context env; handle_nobody env
    session_roles fork_failed schedule stream = pure tt

    unfoldable pub session_begin : Forked → List Arrival → Bytes → M (Unit {0})
    unfolding session_roles
    session_begin forked schedule stream = do
      priv_sock_init env
      session_roles forked schedule stream

    -- From the first `fork` of `server_begin`, in the child: where it returns, the child goes on with
    -- the `while` of the accept loop.
    unfoldable pub child_begin : ℕ → ℕ → Forked → List Arrival → Bytes → M (Unit {0})
    unfolding limit_clients session_begin
    child_begin listenfd peerfd forked schedule stream = do
      _ ← sys env (close (pos listenfd))
      modify (λ s. record s { peerfd = pos peerfd })
      limit_clients
      session_begin forked schedule stream
