-- ===== src/Server/Accounting.antt =====
-- The counts of miniftpd/ftp_assist.c along every run of the loop of miniftpd/main.c.
use mathlib.Core.Path.{subst}
use mini_ftp.Base.{ℕ, ◌+◌, ◌≤◌, ◌<◌, ◌≡◌, refl, ap, List, [], ◌∷◌, arith, ◌==◌, if◌then◌else◌}
use mini_ftp.Base.Run.{ok, exited, ok_inj, same_value}
use mini_ftp.Clients.{uint_mod, nat_key}
use mini_ftp.Hash.Laws.{table_total}
use mini_ftp.Clients.Accounts.{
  serves, live, Accounts, Accounts-congr, add_clients_to_hash-Accounts, add_pid_ip_to_hash-Accounts,
}
use mini_ftp.Server.{
  Phase, accepting, forking, recording, Server, Event, accepted, timed_out, failed, forked,
  fork_failed, recorded, on_accept, on_fork, on_record, on_loop,
}

-- Where the loop stands after an event.
abbrev pub next_phase : Phase → Event → Phase
next_phase accepting (accepted ip) = forking ip
next_phase (forking ip) (forked pid) = recording pid ip
next_phase (forking ip) fork_failed = accepting
next_phase (recording pid ip) recorded = accepting
next_phase p _ = p

-- The units that are counted for an address and that no child will give back: one for each time
-- that `accept_timeout` ran out while `addr` held the address, and one for each failed `fork`.
abbrev pub leak : ℕ → Phase → Event → ℕ
leak q accepting (timed_out ip) = if ip == q then 1 else 0
leak q (forking ip) fork_failed = if ip == q then 1 else 0
leak q _ _ = 0

abbrev pub leaks : ℕ → Phase → List Event → ℕ
leaks q p [] = 0
leaks q p (e ∷ es) = leak q p e + leaks q (next_phase p e) es

-- The client that is accepted and not yet recorded.
abbrev pub pending : Phase → ℕ → ℕ
pending accepting q = 0
pending (forking ip) q = if ip == q then 1 else 0
pending (recording pid ip) q = if ip == q then 1 else 0

-- The clients that were ever accepted.
abbrev pub accept_of : Phase → Event → ℕ
accept_of accepting (accepted ip) = 1
accept_of _ _ = 0

abbrev pub accepts : Phase → List Event → ℕ
accepts p [] = 0
accepts p (e ∷ es) = accept_of p e + accepts (next_phase p e) es

-- The loop stands at `p`, `c` clients were accepted, `lost` units are leaked for each address, and
-- at most `n` are counted for any.
pub record Inv (p : Phase) (lost : ℕ → ℕ) (n c : ℕ) (s : Server) : Type 0 where
  pub stands : s.phase ≡ p
  pub accounts : Accounts (λ q. pending p q + lost q) s.tables
  pub small : (q : ℕ) → live s.tables q + (pending p q + lost q) ≤ n
  pub count : s.clientcount ≡ c

pub Inv-congr :
    {p : Phase} {f g : ℕ → ℕ} {n m c d : ℕ} {s : Server}
    → Inv p f n c s
    → ((q : ℕ) → f q ≡ g q)
    → n ≡ m
    → c ≡ d
    → Inv p g m d s
Inv-congr v fg nm cd = record {
  stands = v.stands;
  accounts = Accounts-congr v.accounts (λ q. omega (arith, fg q));
  small = λ q. omega (arith, v.small q, fg q);
  count = omega (arith, v.count);
}

-- After `e`, at the point where the loop then stands.
abbrev pub After : Phase → Event → (ℕ → ℕ) → ℕ → ℕ → Server → Type 0
After p e lost n c s' =
    Inv (next_phase p e) (λ q. leak q p e + lost q) (n + 1) (accept_of p e + c) s'

module _ {lost : ℕ → ℕ} {n c : ℕ} {s : Server} where
  same-After : {p : Phase} → Inv p lost n c s → Inv p (λ q. 0 + lost q) (n + 1) (0 + c) s
  same-After {p} v = record {
    stands = v.stands;
    accounts = Accounts-congr v.accounts (λ q. omega arith);
    small = λ q. omega (arith, v.small q);
    count = omega (arith, v.count);
  }

  on_accept-After :
      (e : Event) {s' : Server}
      → Inv accepting lost n c s
      → n + 1 < uint_mod
      → on_accept s e ≡ ok s'
      → After accepting e lost n c s'
  unfolding on_accept
  on_accept-After (accepted ip) v b h =
      let ((counts, t'), run, (told, a, p, _)) =
        add_clients_to_hash-Accounts v.accounts ip (omega (arith, v.small ip)) in
      let kept : (q : ℕ) → live t' q ≡ live s.tables q = λ q. ap (table_total (serves q)) p in
      let final : Server = record {
        phase = forking ip;
        tables = t';
        clientcount = s.clientcount + 1;
        sess = record counts { curr_clients = s.clientcount + 1 };
      } in
      let returns : on_accept s (accepted ip) ≡ ok final = rw run in
      same_value (After accepting (accepted ip) lost n c) returns h (record {
        stands = refl;
        accounts = Accounts-congr a (λ q. omega arith);
        small = λ q. ground (arith, kept q, v.small q);
        count = omega (arith, v.count);
      })
  on_accept-After (timed_out ip) v b h =
      let ((counts, t'), run, (told, a, p, _)) =
        add_clients_to_hash-Accounts v.accounts ip (omega (arith, v.small ip)) in
      let kept : (q : ℕ) → live t' q ≡ live s.tables q = λ q. ap (table_total (serves q)) p in
      let returns : on_accept s (timed_out ip) ≡ ok (record s { tables = t'; sess = counts }) =
        rw run in
      same_value (After accepting (timed_out ip) lost n c) returns h (record {
        stands = v.stands;
        accounts = Accounts-congr a (λ q. omega arith);
        small = λ q. ground (arith, kept q, v.small q);
        count = omega (arith, v.count);
      })
  on_accept-After (failed ip) v b h =
      let (r, run, rest) = add_clients_to_hash-Accounts v.accounts ip (omega (arith, v.small ip)) in
      let exits : on_accept s (failed ip) ≡ exited 1 = rw run in cc
  on_accept-After _ v b h =
      subst (Inv accepting (λ q. 0 + lost q) (n + 1) (0 + c)) (ok_inj h) (same-After v)

  on_fork-After :
      (ip : ℕ) (e : Event) {s' : Server}
      → Inv (forking ip) lost n c s
      → on_fork s ip e ≡ ok s'
      → After (forking ip) e lost n c s'
  unfolding on_fork
  on_fork-After ip (forked pid) v h =
      subst (After (forking ip) (forked pid) lost n c) (ok_inj h) (record {
        stands = refl;
        accounts = Accounts-congr v.accounts (λ q. omega arith);
        small = λ q. omega (arith, v.small q);
        count = omega (arith, v.count);
      })
  on_fork-After ip fork_failed v h =
      subst (After (forking ip) fork_failed lost n c) (ok_inj h) (record {
        stands = refl;
        accounts = Accounts-congr v.accounts (λ q. omega arith);
        small = λ q. omega (arith, v.small q);
        count = omega (arith, v.count);
      })
  on_fork-After ip _ v h =
      subst (Inv (forking ip) (λ q. 0 + lost q) (n + 1) (0 + c)) (ok_inj h) (same-After v)

  on_record-After :
      (pid ip : ℕ) (e : Event) {s' : Server}
      → Inv (recording pid ip) lost n c s
      → on_record s pid ip e ≡ ok s'
      → After (recording pid ip) e lost n c s'
  unfolding on_record
  on_record-After pid ip recorded v h =
      let (t', run, (a, moved, found, _)) =
        add_pid_ip_to_hash-Accounts v.accounts ip pid {before = lost} (λ q. refl) in
      let returns : on_record s pid ip recorded ≡ ok (record s { phase = accepting; tables = t' }) =
        rw run in
      same_value (After (recording pid ip) recorded lost n c) returns h (record {
        stands = refl;
        accounts = Accounts-congr a (λ q. omega arith);
        small = λ q. omega (arith, moved q, v.small q);
        count = omega (arith, v.count);
      })
  on_record-After pid ip _ v h =
      subst (Inv (recording pid ip) (λ q. 0 + lost q) (n + 1) (0 + c)) (ok_inj h) (same-After v)

  pub on_loop-After :
      (p : Phase) (e : Event) {s' : Server}
      → Inv p lost n c s
      → n + 1 < uint_mod
      → on_loop p s e ≡ ok s'
      → After p e lost n c s'
  unfolding on_loop
  on_loop-After accepting e v b h = on_accept-After e v b h
  on_loop-After (forking ip) e v b h = on_fork-After ip e v h
  on_loop-After (recording pid ip) e v b h = on_record-After pid ip e v h
