-- ===== src/Server.antt =====
-- miniftpd/main.c: `server_init` and the loop of `server_begin`, as a step function over what the
-- kernel does next. The signal handler of miniftpd/ftp_assist.c runs between any two of the steps.
pub mod Accounting
pub mod History
pub mod Start
mod Tests
use mini_ftp.Base.{ℕ, ◌+◌, Bool, List, [], ◌∷◌, Option, none, some, ◌==◌, if◌then◌else◌}
use mini_ftp.Base.Run.{Run, ok, abort, exited, ◌>>=◌}
use mini_ftp.Clients.{
  Tables, Counts, init_hash, add_clients_to_hash, add_pid_ip_to_hash, handle_sigchld,
}

-- Where the loop stands: in `accept_timeout`, in front of `fork` for a client at an address, and
-- behind a `fork` that returned a child, in front of `add_pid_ip_to_hash`.
pub data Phase : Type 0 where
  accepting : Phase
  forking : ℕ → Phase
  recording : ℕ → ℕ → Phase

-- The globals, and the counts in the one session that every child copies.
pub record Server : Type 0 where
  pub phase : Phase
  pub tables : Tables
  pub clientcount : ℕ
  pub sess : Counts

-- What happens next. `accepted` brings the address of a client. On `timed_out` and `failed` the
-- call returns -1 with `errno` ETIMEDOUT or another, and `addr` holds whatever it held before: that
-- address is given. `fork` returns a child or -1; `recorded` is the rest of the parent's round.
-- `children_exited` is a SIGCHLD, with the children that `waitpid` returns.
pub data Event : Type 0 where
  accepted timed_out failed : ℕ → Event
  forked : ℕ → Event
  fork_failed recorded : Event
  children_exited : List ℕ → Event

unfoldable pub server_init : Server
unfolding init_hash
server_init = record {
  phase = accepting;
  tables = init_hash;
  clientcount = 0;
  sess = record { curr_clients = 0; curr_ip_clients = 0 };
}

-- From the return of `accept_timeout` to `fork`. The counts go up in front of the test of the
-- descriptor; `sess.curr_clients` is then set to the number of clients that were ever accepted.
pub on_accept : Server → Event → Run Server
on_accept s (accepted ip) = do
  (counts, tables) ← add_clients_to_hash ip s.tables
  ok (record {
    phase = forking ip;
    tables = tables;
    clientcount = s.clientcount + 1;
    sess = record counts { curr_clients = s.clientcount + 1 };
  })
on_accept s (timed_out ip) = do
  (counts, tables) ← add_clients_to_hash ip s.tables
  ok (record s { tables = tables; sess = counts })
on_accept s (failed ip) = do _ ← add_clients_to_hash ip s.tables; exited 1
on_accept s _ = ok s

pub on_fork : Server → ℕ → Event → Run Server
on_fork s ip (forked pid) = ok (record s { phase = recording pid ip })
on_fork s ip fork_failed = ok (record s { phase = accepting })
on_fork s ip _ = ok s

pub on_record : Server → ℕ → ℕ → Event → Run Server
on_record s pid ip recorded = do
  tables ← add_pid_ip_to_hash pid ip s.tables
  ok (record s { phase = accepting; tables = tables })
on_record s pid ip _ = ok s

pub on_loop : Phase → Server → Event → Run Server
unfolding on_accept on_fork on_record
on_loop accepting s e = on_accept s e
on_loop (forking ip) s e = on_fork s ip e
on_loop (recording pid ip) s e = on_record s pid ip e

-- An event that does not belong to the point where the loop stands changes nothing.
pub server_step : Server → Event → Run Server
server_step s (children_exited pids) = do
  tables ← handle_sigchld s.tables pids
  ok (record s { tables = tables })
server_step s e = on_loop s.phase s e

unfoldable pub server_run : Server → List Event → Run Server
unfolding server_step on_loop
server_run s [] = ok s
server_run s (e ∷ es) = do s' ← server_step s e; server_run s' es
