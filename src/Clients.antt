-- ===== src/Clients.antt =====
-- miniftpd/ftp_assist.c: the counts of clients, kept in two hash tables of miniftpd/hash.c.
-- An address and a process id are the four bytes that the tables compare, read as one number.
pub mod Accounts
pub mod Reap
use mini_ftp.Base.{
  ℕ, ◌+◌, ◌-◌, ◌%◌, ◌^◌, Bool, ◌&&◌, Option, none, some, List, [], ◌∷◌, ltb, ◌==◌, ==_iff,
  if◌then◌else◌,
}
use mini_ftp.Base.Run.{Run, ok, abort, ◌>>=◌}
use mini_ftp.Config.{Config}
use mini_ftp.Hash.{
  Key, Table, hash_alloc, hash_lookup_value_by_key, hash_store, hash_add_entry, hash_free_entry,
}

abbrev pub uint_mod : ℕ
uint_mod = 2 ^ 32

instance abbrev pub nat_key : Key ℕ
nat_key = record { equal = λ a b. a == b; equal_iff = ==_iff }

abbrev pub hash_func : ℕ → ℕ → ℕ
hash_func buckets number = number % buckets

-- The globals `num_of_clients`, `ip_to_clients` and `pid_to_ip`.
pub record Tables : Type 0 where
  pub num_of_clients : ℕ
  pub ip_to_clients : Table ℕ ℕ
  pub pid_to_ip : Table ℕ ℕ

-- The fields of the session that the counts are written to.
pub record Counts : Type 0 where
  pub curr_clients : ℕ
  pub curr_ip_clients : ℕ

unfoldable pub init_hash : Tables
init_hash = record {
  num_of_clients = 0;
  ip_to_clients = hash_alloc 256 hash_func;
  pid_to_ip = hash_alloc 256 hash_func;
}

pub add_ip_to_hash : ℕ → Tables → Run (ℕ × Tables)
add_ip_to_hash ip t = do
  p_value ← hash_lookup_value_by_key t.ip_to_clients ip
  elim p_value [
    | none ↦ do
      table ← hash_add_entry t.ip_to_clients ip 1
      ok (1, record t { ip_to_clients = table })
    | some v ↦ do
      let value : ℕ = (v + 1) % uint_mod
      table ← hash_store t.ip_to_clients ip value
      ok (value, record t { ip_to_clients = table })
  ]

unfoldable pub add_clients_to_hash : ℕ → Tables → Run (Counts × Tables)
unfolding add_ip_to_hash
add_clients_to_hash ip t = do
  let n : ℕ = (t.num_of_clients + 1) % uint_mod
  (value, t') ← add_ip_to_hash ip (record t { num_of_clients = n })
  ok (record { curr_clients = n; curr_ip_clients = value }, t')

unfoldable pub add_pid_ip_to_hash : ℕ → ℕ → Tables → Run Tables
add_pid_ip_to_hash pid ip t = do
  table ← hash_add_entry t.pid_to_ip pid ip
  ok (record t { pid_to_ip = table })

-- `assert(p != NULL)`, and `assert(b)`.
abbrev pub assert_some : Option ℕ → Run ℕ
assert_some none = abort
assert_some (some v) = ok v

abbrev pub assert : Bool → Run (Unit {0})
assert b = if b then ok tt else abort

-- One round of the loop of `handle_sigchld`, for a child that `waitpid` returned.
pub reap : Tables → ℕ → Run Tables
reap t pid = do
  p_ip ← hash_lookup_value_by_key t.pid_to_ip pid
  ip ← assert_some p_ip
  p_value ← hash_lookup_value_by_key t.ip_to_clients ip
  value ← assert_some p_value
  _ ← assert (ltb 0 value)
  counts ← hash_store t.ip_to_clients ip (value - 1)
  pids ← hash_free_entry t.pid_to_ip pid
  ok (record {
    num_of_clients = (t.num_of_clients + uint_mod - 1) % uint_mod;
    ip_to_clients = counts;
    pid_to_ip = pids;
  })

-- The children that `waitpid` returns one after another.
unfoldable pub handle_sigchld : Tables → List ℕ → Run Tables
unfolding reap
handle_sigchld t [] = ok t
handle_sigchld t (pid ∷ pids) = do t' ← reap t pid; handle_sigchld t' pids

-- What `limit_num_clients` comes to: it returns, or it sends a 421 reply and exits.
pub data Verdict : Type 0 where
  admitted too_many_users ip_limit : Verdict

unfoldable pub limit_num_clients : Config → Counts → Verdict
limit_num_clients c s =
    if ltb 0 c.max_clients && ltb c.max_clients s.curr_clients
    then too_many_users
    else if ltb 0 c.max_per_ip && ltb c.max_per_ip s.curr_ip_clients
    then ip_limit
    else admitted
