-- ===== src/Clients/Reap.antt =====
-- `handle_sigchld` of miniftpd/ftp_assist.c.
use mini_ftp.Base.{
  ℕ, zero, suc, ◌+◌, ◌-◌, ◌%◌, ◌≤◌, ◌≡◌, refl, sym, ◌∙◌, Option, none, some, List, [], ◌∷◌, arith,
  ◌==◌, if◌then◌else◌, lt→ltb, ==_self,
}
use mini_ftp.Base.Run.{ok, abort, ◌>>=◌, Returns, bind-eq-ok, ok_inj}
use mathlib.Core.Path.{subst}
use mini_ftp.Hash.{hash_lookup_value_by_key}
use mini_ftp.Hash.Chain.{head?}
use mini_ftp.Hash.Laws.{
  update, table_total, hash_lookup-Models, hash_store-Models, hash_free_entry-Models,
}
use mini_ftp.Clients.{uint_mod, nat_key, Tables, reap, handle_sigchld}
use mini_ftp.Clients.Accounts.{serves, live, Counted, Accounts, update-Counted}

one_self : (ip : ℕ) → (if ip == ip then 1 else 0) ≡ suc zero
one_self ip = rw (==_self ip)

module _ {others : ℕ → ℕ} {t : Tables} (a : Accounts others t) (pid : ℕ) where
  reap_of :
      (ip : ℕ) (ips vs : List ℕ)
      → a.pids pid ≡ ip ∷ ips
      → a.counts ip ≡ vs
      → Counted vs (live t ip + others ip)
      → Returns (reap t pid) λ t'.
        Accounts others t'
        × ((q : ℕ) → live t' q + (if ip == q then 1 else 0) ≡ live t q)
        × (t'.num_of_clients ≡ (t.num_of_clients + uint_mod - 1) % uint_mod)
  unfolding reap
  reap_of ip ips [] e c n =
      let (pids, freed, (m, total)) = hash_free_entry-Models a.pids_model pid ip ips e in
      absurd (omega (arith, total (serves ip), one_self ip))
  reap_of ip ips (v ∷ []) e c n =
      let (pids, freed, (m, total)) = hash_free_entry-Models a.pids_model pid ip ips e in
      let (counts, stored, (m', changed)) = hash_store-Models a.counts_model ip (v - 1) v [] c in
      let one : table_total (serves ip) pids + 1 ≡ live t ip =
        omega (arith, total (serves ip), one_self ip) in
      (
        record {
          num_of_clients = (t.num_of_clients + uint_mod - 1) % uint_mod;
          ip_to_clients = counts;
          pid_to_ip = pids;
        },
        rw (
          hash_lookup-Models a.pids_model pid,
          e,
          ◌>>=◌,
          hash_lookup-Models a.counts_model ip,
          c,
          lt→ltb 0 v (omega arith),
          stored,
          freed,
        ),
        (
          record {
            counts = update a.counts ip ((v - 1) ∷ []);
            pids = update a.pids pid ips;
            counts_model = m';
            pids_model = m;
            bounded = omega arith;
            counted = λ q.
                update-Counted a.counts ip ((v - 1) ∷ []) (λ q. live t q + others q)
                  (λ q. table_total (serves q) pids + others q) q (a.counted q) (omega arith)
                  (λ d. ground (arith, total (serves q)));
          },
          λ q. total (serves q),
          refl,
        ),
      )
  reap_of ip ips (v ∷ w ∷ vs) e c n = elim n [ ]

  stack_of :
      (ip : ℕ) (vs : List ℕ)
      → a.pids pid ≡ vs
      → head? vs ≡ some ip
      → (ips : List ℕ) × (a.pids pid ≡ ip ∷ ips)
  stack_of ip [] e h = cc
  stack_of ip (v ∷ vs) e h = (vs, cc)

  lookup_head :
      (o : Option ℕ) → hash_lookup_value_by_key t.pid_to_ip pid ≡ ok o → head? (a.pids pid) ≡ o
  lookup_head o h = ground (arith, hash_lookup-Models a.pids_model pid)

  -- A child whose address is recorded is reaped with no failed assertion: its address counts one
  -- live child less, every other address as many as before, and all addresses together one less.
  pub reap_recorded :
      (ip : ℕ)
      → hash_lookup_value_by_key t.pid_to_ip pid ≡ ok (some ip)
      → Returns (reap t pid) λ t'.
        Accounts others t'
        × ((q : ℕ) → live t' q + (if ip == q then 1 else 0) ≡ live t q)
        × (t'.num_of_clients ≡ (t.num_of_clients + uint_mod - 1) % uint_mod)
  reap_recorded ip h =
      let (ips, e) = stack_of ip (a.pids pid) refl (lookup_head (some ip) h) in
      reap_of ip ips (a.counts ip) e refl (a.counted ip)

  -- A child that is not recorded fails the assertion, and ends the server.
  pub reap_unrecorded : hash_lookup_value_by_key t.pid_to_ip pid ≡ ok none → reap t pid ≡ abort
  unfolding reap
  reap_unrecorded h = rw h

reap-Accounts :
    {others : ℕ → ℕ} {t : Tables} (a : Accounts others t) (pid : ℕ) (u : Tables) (vs : List ℕ)
    → a.pids pid ≡ vs
    → reap t pid ≡ ok u
    → Accounts others u × ((q : ℕ) → live u q ≤ live t q)
reap-Accounts a pid u [] e h =
    let gone = reap_unrecorded a pid (hash_lookup-Models a.pids_model pid ∙ rw e) in cc
reap-Accounts {others} {t} a pid u (ip ∷ ips) e h =
    let (w, run, (b, moved, _)) = reap_of a pid ip ips (a.counts ip) e refl (a.counted ip) in
    subst (λ u. Accounts others u × ((q : ℕ) → live u q ≤ live t q)) (ok_inj (sym run ∙ h))
      (b, λ q. omega (arith, moved q))

-- All the children of a run of the handler that returns.
pub handle_sigchld-Accounts :
    {others : ℕ → ℕ} (t : Tables) (pids : List ℕ) {t' : Tables}
    → Accounts others t
    → handle_sigchld t pids ≡ ok t'
    → Accounts others t' × ((q : ℕ) → live t' q ≤ live t q)
unfolding handle_sigchld
handle_sigchld-Accounts {others} t [] a h =
    subst (λ u. Accounts others u × ((q : ℕ) → live u q ≤ live t q)) (ok_inj h)
      (a, λ q. omega arith)
handle_sigchld-Accounts t (pid ∷ pids) a h =
    let (u, reaped, later) = bind-eq-ok (reap t pid) (λ u. handle_sigchld u pids) h in
    let (b, fewer) = reap-Accounts a pid u (a.pids pid) refl reaped in
    let (c, fewest) = handle_sigchld-Accounts u pids b later in
    (c, λ q. omega (arith, fewer q, fewest q))
