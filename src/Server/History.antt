-- ===== src/Server/History.antt =====
-- What a whole run of the loop of miniftpd/main.c leaves in the tables, and whom it admits.
use mini_ftp.Base.{
  ℕ, ◌+◌, ◌≤◌, ◌<◌, ◌≡◌, refl, sym, ap, ◌∙◌, ◌&&◌, Option, none, some, List, [], ◌∷◌, arith, ltb,
  if◌then◌else◌, length,
}
use mathlib.Core.Path.{subst}
use mini_ftp.Base.Run.{ok, abort, ◌>>=◌, Returns, bind-eq-ok, ok_inj}
use mini_ftp.Config.{Config}
use mini_ftp.Hash.{hash_lookup_value_by_key}
use mini_ftp.Hash.Chain.{head?}
use mini_ftp.Hash.Laws.{hash_lookup-Models}
use mini_ftp.Clients.{
  uint_mod, nat_key, Tables, Counts, add_clients_to_hash, too_many_users, ip_limit, admitted,
  limit_num_clients, handle_sigchld,
}
use mini_ftp.Clients.Accounts.{
  live, Counted, Accounts, Accounts-congr, init_hash-Accounts, init_hash-live,
  add_clients_to_hash-Accounts, add_pid_ip_to_hash-Accounts, serves,
}
use mini_ftp.Hash.Laws.{table_total}
use mini_ftp.Clients.Reap.{handle_sigchld-Accounts, reap_unrecorded, reap_recorded}
use mini_ftp.Server.Accounting.{
  next_phase, leaks, pending, accepts, Inv, Inv-congr, After, on_loop-After,
}
use mini_ftp.Server.{
  Phase, accepting, forking, recording, Server, Event, accepted, forked, recorded, children_exited,
  server_init, on_loop, server_step, server_run,
}

abbrev pub last_phase : Phase → List Event → Phase
last_phase p [] = p
last_phase p (e ∷ es) = last_phase (next_phase p e) es

module _ {lost : ℕ → ℕ} {n c : ℕ} (s : Server) where
  reap-Inv :
      (p : Phase) (t : Tables)
      → Inv p lost n c s
      → Accounts (λ q. pending p q + lost q) t
      → ((q : ℕ) → live t q ≤ live s.tables q)
      → Inv p (λ q. 0 + lost q) (n + 1) (0 + c) (record s { tables = t })
  reap-Inv p t v a fewer = record {
    stands = v.stands;
    accounts = Accounts-congr a (λ q. omega arith);
    small = λ q. omega (arith, v.small q, fewer q);
    count = omega (arith, v.count);
  }

  reap-After :
      (p : Phase) (pids : List ℕ) (t : Tables)
      → Inv p lost n c s
      → handle_sigchld s.tables pids ≡ ok t
      → After p (children_exited pids) lost n c (record s { tables = t })
  reap-After accepting pids t v h =
      let (a, fewer) = handle_sigchld-Accounts s.tables pids v.accounts h in reap-Inv _ t v a fewer
  reap-After (forking ip) pids t v h =
      let (a, fewer) = handle_sigchld-Accounts s.tables pids v.accounts h in reap-Inv _ t v a fewer
  reap-After (recording pid ip) pids t v h =
      let (a, fewer) = handle_sigchld-Accounts s.tables pids v.accounts h in reap-Inv _ t v a fewer

  loop_step :
      (p : Phase) (e : Event) {s' : Server}
      → Inv p lost n c s
      → n + 1 < uint_mod
      → on_loop s.phase s e ≡ ok s'
      → After p e lost n c s'
  loop_step p e {s'} v b h = on_loop-After p e v b (subst (λ p. on_loop p s e ≡ ok s') v.stands h)

  server_step-After :
      (p : Phase) (e : Event) {s' : Server}
      → Inv p lost n c s
      → n + 1 < uint_mod
      → server_step s e ≡ ok s'
      → After p e lost n c s'
  unfolding server_step
  server_step-After p (children_exited pids) v b h =
      let (t, run, later) = bind-eq-ok (handle_sigchld s.tables pids) _ h in
      subst (After p (children_exited pids) lost n c) (ok_inj later) (reap-After p pids t v run)
  server_step-After p e v b h = loop_step p e v b h

server_run-Inv :
    (es : List Event) {lost : ℕ → ℕ} {n c : ℕ} (p : Phase) (s : Server) {s' : Server}
    → Inv p lost n c s
    → n + length es < uint_mod
    → server_run s es ≡ ok s'
    → Inv (last_phase p es) (λ q. leaks q p es + lost q) (n + length es) (accepts p es + c) s'
unfolding server_run
server_run-Inv [] {lost} {n} {c} p s v b h =
    subst (Inv p (λ q. 0 + lost q) (n + 0) (0 + c)) (ok_inj h)
      (Inv-congr v (λ q. omega arith) (omega arith) (omega arith))
server_run-Inv (e ∷ es) {lost} {n} {c} p s v b h =
    let (u, step, later) = bind-eq-ok (server_step s e) (λ u. server_run u es) h in
    let w = server_step-After s p e v (omega arith) step in
    let r = server_run-Inv es (next_phase p e) u w (omega arith) later in
    Inv-congr r (λ q. omega arith) (omega arith) (omega arith)

server_init-Inv : Inv accepting (λ _. 0) 0 0 server_init
unfolding server_init
server_init-Inv = record {
  stands = refl;
  accounts = Accounts-congr init_hash-Accounts (λ q. omega arith);
  small = λ q. omega (arith, init_hash-live q);
  count = refl;
}

-- What a pointer of the lookup reads, and 0 for NULL.
abbrev pub count_of : Option ℕ → ℕ
count_of none = 0
count_of (some v) = v

Counted-head : (vs : List ℕ) (n : ℕ) → Counted vs n → count_of (head? vs) ≡ n
Counted-head [] n h = omega arith
Counted-head (v ∷ []) n h = h
Counted-head (v ∷ w ∷ vs) n h = elim h [ ]

-- The state behind `accept`, and behind `fork`.
abbrev after_accept : Server → ℕ → Counts → Tables → Server
after_accept s ip counts tables = record {
  phase = forking ip;
  tables = tables;
  clientcount = s.clientcount + 1;
  sess = record counts { curr_clients = s.clientcount + 1 };
}

accepted_run :
    (s : Server) (ip : ℕ) (counts : Counts) (tables : Tables)
    → s.phase ≡ accepting
    → add_clients_to_hash ip s.tables ≡ ok (counts, tables)
    → server_step s (accepted ip) ≡ ok (after_accept s ip counts tables)
unfolding server_step on_loop
accepted_run s ip counts tables p added =
    subst (λ q. on_loop q s (accepted ip) ≡ ok (after_accept s ip counts tables)) (sym p) (rw added)

module _ (es : List Event) {s : Server} (run : server_run server_init es ≡ ok s) where
  reached :
      length es < uint_mod
      → Inv
          (last_phase accepting es)
          (λ q. leaks q accepting es + 0)
          (0 + length es)
          (accepts accepting es + 0)
          s
  reached b = server_run-Inv es accepting server_init server_init-Inv (omega arith) run

  at_accept :
      length es < uint_mod
      → s.phase ≡ accepting
      → Inv accepting (λ q. leaks q accepting es + 0) (0 + length es) (accepts accepting es + 0) s
  at_accept b p =
      let v = reached b in
      subst
        (λ q. Inv q (λ a. leaks a accepting es + 0) (0 + length es) (accepts accepting es + 0) s)
        (sym v.stands ∙ p) v

  -- After every run that has not ended the server, of fewer than 2 ^ 32 events, the table holds
  -- for each address its live children that are recorded, the client that is between `accept` and
  -- `add_pid_ip_to_hash`, and one unit for each timeout of `accept_timeout` and each failed `fork`
  -- that was charged to the address.
  pub ip_count-history :
      length es < uint_mod
      → (ip : ℕ)
      → (o : Option ℕ) × (hash_lookup_value_by_key s.tables.ip_to_clients ip ≡ ok o)
        × (count_of o ≡ live s.tables ip + pending s.phase ip + leaks ip accepting es)
  ip_count-history b ip =
      let v = reached b in
      (
        head? (v.accounts.counts ip),
        hash_lookup-Models v.accounts.counts_model ip,
        rw v.stands (omega (arith, Counted-head (v.accounts.counts ip) _ (v.accounts.counted ip))),
      )

  -- The verdict on a client that is accepted after such a run. A limit on clients is compared with
  -- the number of clients ever accepted, this one included; a limit for each address with the count
  -- of the table, timeouts and failed forks included.
  pub accept_verdict :
      (config : Config) (ip : ℕ)
      → length es + 1 < uint_mod
      → s.phase ≡ accepting
      → Returns (server_step s (accepted ip)) λ s'. limit_num_clients config s'.sess ≡ (
          if ltb 0 config.max_clients && ltb config.max_clients (accepts accepting es + 1)
          then too_many_users
          else if ltb 0 config.max_per_ip
              && ltb config.max_per_ip (live s.tables ip + leaks ip accepting es + 1)
          then ip_limit
          else admitted)
  unfolding server_step on_loop limit_num_clients
  accept_verdict config ip b p =
      let w = at_accept (omega arith) p in
      let ((counts, t'), added, (told, a, kept, _)) =
        add_clients_to_hash-Accounts w.accounts ip (omega (arith, w.small ip)) in
      let clients : s.clientcount + 1 ≡ accepts accepting es + 1 = omega (arith, w.count) in
      let clients_of_ip : counts.curr_ip_clients ≡ live s.tables ip + leaks ip accepting es + 1 =
        omega arith in
      (
        after_accept s ip counts t',
        accepted_run s ip counts t' p added,
        rw (clients, clients_of_ip),
      )

  -- A client that is accepted and whose child exits before the parent has recorded it ends the
  -- server: the assertion of the signal handler fails. The child's pid is not recorded for another.
  pub early_exit :
      (ip pid : ℕ)
      → length es + 1 < uint_mod
      → s.phase ≡ accepting
      → hash_lookup_value_by_key s.tables.pid_to_ip pid ≡ ok none
      → server_run s (accepted ip ∷ forked pid ∷ children_exited (pid ∷ []) ∷ []) ≡ abort
  unfolding server_run server_step on_loop handle_sigchld
  early_exit ip pid b p absent =
      let w = at_accept (omega arith) p in
      let ((counts, t'), added, (told, a, kept, _)) =
        add_clients_to_hash-Accounts w.accounts ip (omega (arith, w.small ip)) in
      rw (accepted_run s ip counts t' p added, ◌>>=◌, reap_unrecorded a pid (rw kept absent))

  -- A client whose child is recorded in time is served and reaped with no failed assertion: the
  -- loop is back in `accept_timeout`, and every count is as it was before the client: the recorded
  -- live children of each address, the count of each address in the table, and the count of all
  -- clients.
  pub serve_cycle :
      (ip pid : ℕ)
      → length es + 1 < uint_mod
      → s.phase ≡ accepting
      → Returns
          (server_run s (accepted ip ∷ forked pid ∷ recorded ∷ children_exited (pid ∷ []) ∷ []))
          λ s'.
            (s'.phase ≡ accepting)
            × ((q : ℕ) → live s'.tables q ≡ live s.tables q)
            × ((q : ℕ)
                → (o o' : Option ℕ) × (hash_lookup_value_by_key s.tables.ip_to_clients q ≡ ok o)
                  × (hash_lookup_value_by_key s'.tables.ip_to_clients q ≡ ok o')
                  × (count_of o' ≡ count_of o))
            × (s'.tables.num_of_clients ≡ s.tables.num_of_clients)
  unfolding server_run server_step on_loop handle_sigchld
  serve_cycle ip pid b p =
      let w = at_accept (omega arith) p in
      let lost : ℕ → ℕ = λ q. pending accepting q + (leaks q accepting es + 0) in
      let ((counts, t₁), added, (told, a₁, kept, up)) =
        add_clients_to_hash-Accounts w.accounts ip (omega (arith, w.small ip)) in
      let (t₂, noted, (a₂, more, found, same)) =
        add_pid_ip_to_hash-Accounts a₁ ip pid {before = lost} (λ q. refl) in
      let (t₃, reaped, (a₃, fewer, down)) = reap_recorded a₂ pid ip found in
      let restored : (q : ℕ) → live t₃ q ≡ live s.tables q =
        λ q. omega (arith, more q, fewer q, ap (table_total (serves q)) kept) in
      (
        record (after_accept s ip counts t₁) { phase = accepting; tables = t₃ },
        rw (accepted_run s ip counts t₁ p added, ◌>>=◌, noted, reaped),
        (
          refl,
          restored,
          λ q. (
            head? (w.accounts.counts q),
            head? (a₃.counts q),
            hash_lookup-Models w.accounts.counts_model q,
            hash_lookup-Models a₃.counts_model q,
            Counted-head (a₃.counts q) _ (a₃.counted q)
                ∙ ap (λ n. n + lost q) (restored q)
                ∙ sym (Counted-head (w.accounts.counts q) _ (w.accounts.counted q)),
          ),
          omega (arith, up, same, down, w.accounts.bounded),
        ),
      )

  -- The child that is forked for a client has the tables of that moment and the signal handler. When
  -- a child of its own exits, which no table records, the assertion of the handler fails, and the
  -- process aborts.
  pub inherited_handler :
      (ip pid : ℕ)
      → length es < uint_mod
      → s.phase ≡ forking ip
      → hash_lookup_value_by_key s.tables.pid_to_ip pid ≡ ok none
      → handle_sigchld s.tables (pid ∷ []) ≡ abort
  unfolding handle_sigchld
  inherited_handler ip pid b p absent = rw (reap_unrecorded (reached b).accounts pid absent) refl
