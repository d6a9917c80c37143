-- ===== src/Child/Tests.antt =====
-- Children of miniftpd/main.c for a client, on the sample system.
use mini_ftp.Base.{ℕ, ◌≤◌, ◌≡◌, ◌≢◌, ap, true, false, Bool, refl, List, [], ◌∷◌, arith, all}
use mini_ftp.Base.Int.{pos}
use mini_ftp.Base.Text.{codes}
use mini_ftp.Child.Limits.{refusal, child_begin-turned_away, child_begin-converse}
use mini_ftp.Child.Outcomes.{returns, is_fork_failed, counts_of, taken, child_begin-returns}
use mini_ftp.Child.Roles.{role_start, Role, with_pair, as_proto, session_begin-Role}
use mini_ftp.Child.{child, parent, fork_failed, session_begin, child_begin}
use mini_ftp.Clients.{Verdict, admitted, too_many_users, ip_limit, limit_num_clients}
use mini_ftp.Commands.Sample.{
  host, idle, with_command, byte_by_byte, byte_by_byte-Hears, host-Delivers,
}
use mini_ftp.Nobody.{handle_nobody}
use mini_ftp.Proto.Script.{is_request, script, converse}
use mini_ftp.Proto.{greet_client}
use mini_ftp.Session.Invariant.{Leaves}
use mini_ftp.Session.{called, sent, close, session_init, Proc, exited, ◌>>◌}
use mini_ftp.Strutil.Split.{before_char, after_char}
use mini_ftp.Sysutil.Reading.{read_ok, looks}
use mini_ftp.Sysutil.{Arrival}
use mini_ftp.TransCtrl.Sample.{whole_numbers}
use mini_ftp.TransData.Transfer.{transfers}

-- The session of the accept loop, and one that counts more clients than the tunables allow.
abbrev fresh : Proc
fresh = with_command [] []

abbrev crowded : Proc
crowded = record fresh { sess = record fresh.sess { curr_clients = 2001 } }

abbrev deliveries : List Arrival
deliveries = byte_by_byte 2200

calm_lem : all read_ok deliveries ≡ true
calm_lem = (byte_by_byte-Hears 2200).calm

enough_lem : {n : ℕ} → n ≤ 2200 → n ≤ looks deliveries
enough_lem h = omega (arith, h, (byte_by_byte-Hears 2200).enough)

fresh-admitted : limit_num_clients host.config (counts_of fresh) ≡ admitted
unfolding limit_num_clients session_init
fresh-admitted = refl

crowded-refused : limit_num_clients host.config (counts_of crowded) ≡ too_many_users
unfolding limit_num_clients session_init
crowded-refused = refl

abbrev is_admitted : Verdict → Bool
is_admitted admitted = true
is_admitted too_many_users = false
is_admitted ip_limit = false

crowded_lem : limit_num_clients host.config (counts_of crowded) ≢ admitted
crowded_lem e = cc (ap is_admitted crowded-refused, ap is_admitted e)

child_begin-converse_example :
    child_begin host
      (transfers whole_numbers host)
      3
      4
      child
      deliveries
      (script (codes "SYST" ∷ codes "TYPE A" ∷ []))
      fresh
    ≡ (greet_client host
          >> converse host (transfers whole_numbers host) (codes "SYST" ∷ codes "TYPE A" ∷ []))
        (as_proto (with_pair 8 9 (taken 3 4 fresh)))
unfolding script is_request before_char after_char session_init
child_begin-converse_example =
    child_begin-converse whole_numbers host 3 4 8 9 deliveries (codes "SYST" ∷ codes "TYPE A" ∷ [])
      fresh fresh-admitted refl (omega arith) (omega arith) (omega arith) refl calm_lem
      (enough_lem (omega arith))

child_begin-turned_away_example :
    child_begin host idle 3 4 child deliveries (codes "SYST\r\n") crowded
    ≡ exited 1 (record (taken 3 4 crowded) {
      trace =
          sent (refusal (limit_num_clients host.config (counts_of crowded)))
          ∷ called (close (pos 3))
          ∷ crowded.trace;
    })
child_begin-turned_away_example =
    child_begin-turned_away host idle 3 4 child deliveries (codes "SYST\r\n") crowded host-Delivers
      crowded_lem

child_begin-returns_example :
    returns (child_begin host idle 3 4 fork_failed deliveries (codes "SYST\r\n") fresh)
    ≡ is_fork_failed fork_failed
child_begin-returns_example =
    child_begin-returns host idle 3 4 deliveries (codes "SYST\r\n") fresh 8 9 fork_failed
      fresh-admitted refl

session_begin-Role_example :
    (session_begin host (transfers whole_numbers host) parent deliveries (codes "SYST\r\n") fresh
      ≡ handle_nobody host (role_start parent 8 9 fresh))
    × Leaves (Role parent 8 9 fresh.sess) (
        session_begin host
          (transfers whole_numbers host)
          parent
          deliveries
          (codes "SYST\r\n")
          fresh)
unfolding session_init
session_begin-Role_example =
    session_begin-Role whole_numbers host 8 9 parent deliveries (codes "SYST\r\n") fresh refl
      (omega arith) (omega arith)
