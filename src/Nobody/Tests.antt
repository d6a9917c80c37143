-- ===== src/Nobody/Tests.antt =====
-- `handle_nobody` of miniftpd/ftp_nobody.c on three questions of a concrete process.
use mini_ftp.Base.{ℕ, zero, suc, ◌≡◌, refl, none, List, [], ◌∷◌, ◌++◌, arith, replicate}
use mini_ftp.Base.Run.{ok, Returns}
use mini_ftp.Clients.{nat_key, init_hash, add_clients_to_hash, add_pid_ip_to_hash, handle_sigchld}
use mini_ftp.Commands.Reply.{Env}
use mini_ftp.Commands.Sample.{
  alice, host, host-Grants, network, one_by_one-Sends, byte_by_byte-Hears, with_command, wire_with,
}
use mini_ftp.Hash.{
  hash_alloc, hash_lookup_value_by_key, hash_store, hash_add_entry, hash_free_entry,
}
use mini_ftp.Nobody.Ending.{handle_nobody_aborts}
use mini_ftp.Nobody.Loop.{flags, ending, lowered, last_signal, handle_nobody_queries}
use mini_ftp.Nobody.{pasv_active, handle_nobody}
use mini_ftp.PrivSock.Transport.{Sends-less, Hears-less}
use mini_ftp.PrivSock.{int_bytes}
use mini_ftp.Server.{forking, Event, accepted, forked, recorded, server_init, server_run}
use mini_ftp.Session.{Proc, killed, session_init}
use mini_ftp.Sockets.Connect.{Grants}
use mini_ftp.Sysutil.{Arrival}

-- The process behind the start of a session, with three questions in its socket.
abbrev asked : Proc
asked = record (with_command [] []) { wire = wire_with (replicate 3 pasv_active) [] }

handle_nobody_queries_example :
    (q : Proc) × (s : List Arrival) × (handle_nobody host asked
      ≡ ending (last_signal host (lowered alice [])) q s)
    × (q.wire.outbox ≡ [] ++ flags 3 (int_bytes 0))
    × (q.sess ≡ asked.sess)
    × (q.trace ≡ lowered alice [])
unfolding session_init
handle_nobody_queries_example =
    handle_nobody_queries host host-Grants alice 3 asked refl refl
      (Hears-less (omega arith) (byte_by_byte-Hears 1023))
      (Sends-less (omega arith) (one_by_one-Sends 1023))

program : Unit {0}
unfolding hash_alloc hash_lookup_value_by_key hash_store hash_add_entry hash_free_entry init_hash
    add_clients_to_hash add_pid_ip_to_hash handle_sigchld server_init server_run
program = tt

-- A client is served when a second one comes, for which the process is forked.
abbrev busy : List Event
busy = accepted 9 ∷ forked 100 ∷ recorded ∷ accepted 7 ∷ []

abbrev in_child : Returns (server_run server_init busy) (λ s. s.phase ≡ forking 7)
unfolding program
in_child = (_, refl, refl)

not_recorded : hash_lookup_value_by_key in_child.0.tables.pid_to_ip 102 ≡ ok none
unfolding program
not_recorded = refl

-- The child of this process exits when all is read.
abbrev exits_behind_all : ℕ → List ℕ
exits_behind_all zero = 102 ∷ []
exits_behind_all (suc n) = []

abbrev orphaned : Env
orphaned = record host {
  kernel = record network { inherited = in_child.0.tables; reaped = λ trace. exits_behind_all };
}

orphaned-Grants : Grants orphaned
orphaned-Grants = record {
  calls_succeed = host-Grants.calls_succeed;
  opens = host-Grants.opens;
  opened = host-Grants.opened;
  connects = host-Grants.connects;
  no_error = host-Grants.no_error;
  waits = host-Grants.waits;
  lives = λ trace n. refl;
  resolves = host-Grants.resolves;
}

handle_nobody_aborts_example :
    (q : Proc) × (handle_nobody orphaned asked ≡ killed q)
    × (q.wire.outbox ≡ [] ++ flags 3 (int_bytes 0))
    × (q.trace ≡ lowered alice [])
unfolding session_init
handle_nobody_aborts_example =
    handle_nobody_aborts busy in_child.1 7 102 (omega arith) in_child.2 not_recorded orphaned
      orphaned-Grants alice 3 asked refl refl refl refl
      (Hears-less (omega arith) (byte_by_byte-Hears 1023))
      (Sends-less (omega arith) (one_by_one-Sends 1023))
