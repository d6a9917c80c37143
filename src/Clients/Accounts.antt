-- ===== src/Clients/Accounts.antt =====
-- The tables of miniftpd/ftp_assist.c against the sums that they stand for.
use mini_ftp.Base.{
  ℕ, ◌+◌, ◌%◌, ◌<◌, ◌≡◌, refl, ◌∙◌, inl, inr, false, some, List, [], ◌∷◌, arith, ◌==◌,
  if◌then◌else◌, Bool-cases, ==_iff, ==_self,
}
use mathlib.Core.Path.{subst, fun_ext}
use mini_ftp.Base.Run.{ok, ◌>>=◌, Returns}
use mini_ftp.Hash.{Table, hash_lookup_value_by_key}
use mini_ftp.Hash.Laws.{
  Models, update, table_total, hash_alloc-Models, hash_alloc-total, hash_lookup-Models,
  hash_add_entry-Models, hash_store-Models,
}
use mini_ftp.Clients.{
  uint_mod, nat_key, hash_func, Tables, init_hash, add_ip_to_hash, add_clients_to_hash,
  add_pid_ip_to_hash,
}

-- How many of the recorded children serve the address.
abbrev pub serves : ℕ → ℕ → ℕ → ℕ
serves ip pid v = if v == ip then 1 else 0

abbrev pub live : Tables → ℕ → ℕ
live t ip = table_total (serves ip) t.pid_to_ip

-- An address has one entry, with its count, or none for 0.
abbrev pub Counted : List ℕ → ℕ → Type 0
Counted [] n = n ≡ 0
Counted (v ∷ []) n = v ≡ n
Counted (v ∷ w ∷ vs) n = ⊥

-- For each address the table holds the live children and `others`.
pub record Accounts (others : ℕ → ℕ) (t : Tables) : Type 0 where
  pub counts : ℕ → List ℕ
  pub pids : ℕ → List ℕ
  pub counts_model : Models counts t.ip_to_clients
  pub pids_model : Models pids t.pid_to_ip
  pub bounded : t.num_of_clients < uint_mod
  pub counted : (ip : ℕ) → Counted (counts ip) (live t ip + others ip)

abbrev pub plus_one : ℕ → (ℕ → ℕ) → ℕ → ℕ
plus_one ip f q = (if ip == q then 1 else 0) + f q

pub init_hash-Accounts : Accounts (λ _. 0) init_hash
unfolding init_hash
init_hash-Accounts = record {
  counts = λ _. [];
  pids = λ _. [];
  counts_model = hash_alloc-Models 256 hash_func (λ k. omega arith);
  pids_model = hash_alloc-Models 256 hash_func (λ k. omega arith);
  bounded = omega arith;
  counted = λ ip. omega (arith, hash_alloc-total (serves ip) 256 hash_func);
}

pub init_hash-live : (q : ℕ) → live init_hash q ≡ 0
unfolding init_hash
init_hash-live q = hash_alloc-total (serves q) 256 hash_func

-- A table of counts that was written at one address.
pub update-Counted :
    (f : ℕ → List ℕ) (ip : ℕ) (vs : List ℕ) (n n' : ℕ → ℕ) (q : ℕ)
    → Counted (f q) (n q)
    → Counted vs (n' ip)
    → ((ip == q) ≡ false → n' q ≡ n q)
    → Counted (update f ip vs q) (n' q)
update-Counted f ip vs n n' q old new rest = elim (Bool-cases (ip == q)) [
  | inl e ↦ rw (e, ← (==_iff ip q).0 e) new
  | inr d ↦ rw (d, rest d) old
]

module _ {others : ℕ → ℕ} {t : Tables} (a : Accounts others t) (ip : ℕ) where
  -- The table of counts after a write at `ip`, with the other table as it was.
  counts-Accounts :
      (table : Table ℕ ℕ) (v n : ℕ)
      → Models (update a.counts ip (v ∷ [])) table
      → v ≡ live t ip + others ip + 1
      → n < uint_mod
      → Accounts (plus_one ip others) (record t { num_of_clients = n; ip_to_clients = table })
  counts-Accounts table v n m e b = record {
    counts = update a.counts ip (v ∷ []);
    pids = a.pids;
    counts_model = m;
    pids_model = a.pids_model;
    bounded = b;
    counted = λ q.
        update-Counted a.counts ip (v ∷ []) (λ q. live t q + others q)
          (λ q. live t q + plus_one ip others q) q (a.counted q) (ground (arith, ==_self ip))
          (λ d. ground arith);
  }

  add_ip_of :
      (n : ℕ) (vs : List ℕ)
      → a.counts ip ≡ vs
      → Counted vs (live t ip + others ip)
      → live t ip + others ip + 1 < uint_mod
      → n < uint_mod
      → Returns (add_ip_to_hash ip (record t { num_of_clients = n })) λ r.
        (r.0 ≡ live t ip + others ip + 1)
        × Accounts (plus_one ip others) r.1
        × (r.1.pid_to_ip ≡ t.pid_to_ip)
        × (r.1.num_of_clients ≡ n)
  unfolding add_ip_to_hash
  add_ip_of n [] e c h b =
      let (table, run, (m, _)) = hash_add_entry-Models a.counts_model ip 1 in
      (
        (1, record t { num_of_clients = n; ip_to_clients = table }),
        rw (hash_lookup-Models a.counts_model ip, e, ◌>>=◌, run),
        (omega arith, counts-Accounts table 1 n (rw e at m) (omega arith) b, refl, refl),
      )
  add_ip_of n (v ∷ []) e c h b =
      let (table, run, (m, _)) = hash_store-Models a.counts_model ip ((v + 1) % uint_mod) v [] e in
      (
        ((v + 1) % uint_mod, record t { num_of_clients = n; ip_to_clients = table }),
        rw (hash_lookup-Models a.counts_model ip, e, ◌>>=◌, run),
        (omega arith, counts-Accounts table ((v + 1) % uint_mod) n m (omega arith) b, refl, refl),
      )
  add_ip_of n (v ∷ w ∷ vs) e c h b = elim c [ ]

  -- A new client of an address is counted once, at that address alone, and the session is told the
  -- new count.
  pub add_clients_to_hash-Accounts :
      live t ip + others ip + 1 < uint_mod
      → Returns (add_clients_to_hash ip t) λ r.
        (r.0.curr_ip_clients ≡ live t ip + others ip + 1)
        × Accounts (plus_one ip others) r.1
        × (r.1.pid_to_ip ≡ t.pid_to_ip)
        × (r.1.num_of_clients ≡ (t.num_of_clients + 1) % uint_mod)
  unfolding add_clients_to_hash
  add_clients_to_hash-Accounts h =
      let n : ℕ = (t.num_of_clients + 1) % uint_mod in
      let ((value, t'), run, (e, a', p, c)) =
        add_ip_of n (a.counts ip) refl (a.counted ip) h (omega arith) in
      ((record { curr_clients = n; curr_ip_clients = value }, t'), rw run, (e, a', p, c))

  -- A recorded child takes over the unit that was counted for its address.
  pub add_pid_ip_to_hash-Accounts :
      (pid : ℕ) {before : ℕ → ℕ}
      → ((q : ℕ) → others q ≡ plus_one ip before q)
      → Returns (add_pid_ip_to_hash pid ip t) λ t'.
        Accounts before t'
        × ((q : ℕ) → live t' q ≡ live t q + (if ip == q then 1 else 0))
        × (hash_lookup_value_by_key t'.pid_to_ip pid ≡ ok (some ip))
        × (t'.num_of_clients ≡ t.num_of_clients)
  unfolding add_pid_ip_to_hash
  add_pid_ip_to_hash-Accounts pid {before} pending =
      let (table, run, (m, total)) = hash_add_entry-Models a.pids_model pid ip in
      (
        record t { pid_to_ip = table },
        rw run,
        (
          record {
            counts = a.counts;
            pids = update a.pids pid (ip ∷ a.pids pid);
            counts_model = a.counts_model;
            pids_model = m;
            bounded = a.bounded;
            counted = λ q.
                let moved : table_total (serves q) table + before q ≡ live t q + others q =
                  ground (arith, total (serves q), pending q) in
                rw moved (a.counted q);
          },
          λ q. total (serves q),
          hash_lookup-Models m pid ∙ rw (==_self pid),
          refl,
        ),
      )

-- The same counts, written in another way.
pub Accounts-congr :
    {f g : ℕ → ℕ} {t : Tables} → Accounts f t → ((q : ℕ) → f q ≡ g q) → Accounts g t
Accounts-congr {f} {g} {t} a e = subst (λ h. Accounts h t) (fun_ext e) a
