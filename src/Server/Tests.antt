-- ===== src/Server/Tests.antt =====
-- The loop of miniftpd/main.c on concrete events.
use mini_ftp.Base.{
  ℕ, ◌+◌, ◌≡◌, refl, ◌&&◌, Option, none, some, List, [], ◌∷◌, arith, ltb, if◌then◌else◌,
}
use mini_ftp.Base.Run.{Run, ok, abort, ◌>>=◌, Returns}
use mini_ftp.Config.{Config, default_config}
use mini_ftp.Hash.{
  hash_alloc, hash_lookup_value_by_key, hash_store, hash_add_entry, hash_free_entry,
}
use mini_ftp.Clients.{
  nat_key, Verdict, too_many_users, ip_limit, admitted, init_hash, add_clients_to_hash,
  add_pid_ip_to_hash, handle_sigchld, limit_num_clients,
}
use mini_ftp.Clients.Accounts.{live}
use mini_ftp.Server.Accounting.{leaks, pending, accepts}
use mini_ftp.Server.History.{count_of, ip_count-history, accept_verdict, early_exit, serve_cycle}
use mini_ftp.Server.{
  Event, accepting, accepted, timed_out, forked, recorded, children_exited, server_init,
  server_step, server_run,
}

program : Unit {0}
unfolding hash_alloc hash_lookup_value_by_key hash_store hash_add_entry hash_free_entry init_hash
    add_clients_to_hash add_pid_ip_to_hash handle_sigchld limit_num_clients server_init server_run
program = tt

-- A client comes and goes, and then nobody comes for one accept timeout.
abbrev quiet : List Event
quiet = accepted 9 ∷ forked 100 ∷ recorded ∷ children_exited (100 ∷ []) ∷ timed_out 9 ∷ []

abbrev one_per_ip : Config
one_per_ip = record default_config { max_per_ip = 1 }

abbrev verdict_after : List Event → ℕ → Run Verdict
verdict_after es ip = do
  s ← server_run server_init (es)
  t ← server_run s (accepted ip ∷ [])
  ok (limit_num_clients one_per_ip t.sess)

-- The one address that was served is then refused for good, though it has no client.
refused_after_timeout : verdict_after quiet 9 ≡ ok ip_limit
unfolding program
refused_after_timeout = refl

admitted_elsewhere : verdict_after quiet 8 ≡ ok admitted
unfolding program
admitted_elsewhere = refl

abbrev after_quiet : Returns (server_run server_init quiet) (λ s. s.phase ≡ accepting)
unfolding program
after_quiet = (_, refl, refl)

ip_count-history_example :
    (o : Option ℕ) × (hash_lookup_value_by_key after_quiet.0.tables.ip_to_clients 9 ≡ ok o)
    × (count_of o
        ≡ live after_quiet.0.tables 9 + pending after_quiet.0.phase 9 + leaks 9 accepting quiet)
ip_count-history_example = ip_count-history quiet after_quiet.1 (omega arith) 9

accept_verdict_example : Returns (server_step after_quiet.0 (accepted 9)) λ s.
    limit_num_clients one_per_ip s.sess ≡ (
      if ltb 0 one_per_ip.max_clients && ltb one_per_ip.max_clients (accepts accepting quiet + 1)
      then too_many_users
      else if ltb 0 one_per_ip.max_per_ip
          && ltb one_per_ip.max_per_ip (live after_quiet.0.tables 9 + leaks 9 accepting quiet + 1)
      then ip_limit
      else admitted)
accept_verdict_example = accept_verdict quiet after_quiet.1 one_per_ip 9 (omega arith) after_quiet.2

not_recorded : hash_lookup_value_by_key after_quiet.0.tables.pid_to_ip 101 ≡ ok none
unfolding program
not_recorded = refl

early_exit_example :
    server_run after_quiet.0 (accepted 9 ∷ forked 101 ∷ children_exited (101 ∷ []) ∷ []) ≡ abort
early_exit_example = early_exit quiet after_quiet.1 9 101 (omega arith) after_quiet.2 not_recorded

serve_cycle_example :
    Returns
      (server_run after_quiet.0
        (accepted 9 ∷ forked 101 ∷ recorded ∷ children_exited (101 ∷ []) ∷ []))
      λ s.
        (s.phase ≡ accepting)
        × ((q : ℕ) → live s.tables q ≡ live after_quiet.0.tables q)
        × ((q : ℕ)
            → (o o' : Option ℕ) × (hash_lookup_value_by_key after_quiet.0.tables.ip_to_clients q
                ≡ ok o)
              × (hash_lookup_value_by_key s.tables.ip_to_clients q ≡ ok o')
              × (count_of o' ≡ count_of o))
        × (s.tables.num_of_clients ≡ after_quiet.0.tables.num_of_clients)
serve_cycle_example = serve_cycle quiet after_quiet.1 9 101 (omega arith) after_quiet.2

abbrev one_child :
    Returns
      (add_pid_ip_to_hash 100 9 after_quiet.0.tables)
      λ t. hash_lookup_value_by_key t.pid_to_ip 100 ≡ ok (some 9)
unfolding program
one_child = (_, refl, refl)
