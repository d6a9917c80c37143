-- ===== src/PrivSock/Transport.antt =====
-- Bytes through the socket of miniftpd/priv_sock.c, however the kernel cuts them up.
use mini_ftp.Base.{
  ℕ, ◌+◌, ◌≤◌, ◌≡◌, refl, true, List, ◌++◌, arith, ==_self, Bytes, length, all, take-append,
  drop-append,
}
use mini_ftp.PrivSock.{socket_write, socket_read, send_or_exit, read_or_exit}
use mini_ftp.Session.{Proc, done, ◌>>=◌}
use mini_ftp.Sysutil.Reading.{read_ok, looks, readn-got}
use mini_ftp.Sysutil.Writing.{write_ok, takes, writen-Kept}
use mini_ftp.Sysutil.{Arrival, Departure}

-- The kernel takes `n` bytes more, or delivers `n` times more, without failure.
pub record Sends (n : ℕ) (s : List Departure) : Type 0 where
  pub calm : all write_ok s ≡ true
  pub enough : n ≤ takes s

pub record Hears (n : ℕ) (s : List Arrival) : Type 0 where
  pub calm : all read_ok s ≡ true
  pub enough : n ≤ looks s

pub Sends-less : {m n : ℕ} {s : List Departure} → m ≤ n → Sends n s → Sends m s
Sends-less h r = record { calm = r.calm; enough = omega (arith, r.enough) }

pub Hears-less : {m n : ℕ} {s : List Arrival} → m ≤ n → Hears n s → Hears m s
Hears-less h r = record { calm = r.calm; enough = omega (arith, r.enough) }

-- The state behind a message out, and behind one in.
abbrev pub told : Proc → Bytes → List Departure → Proc
told p buf s = record p { wire = record p.wire { outbox = p.wire.outbox ++ buf; departures = s } }

abbrev pub heard : Proc → Bytes → List Arrival → Proc
heard p rest s = record p { wire = record p.wire { inbox = rest; arrivals = s } }

pub send_or_exit_lem :
    (n : ℕ) (buf : Bytes) (p : Proc)
    → Sends (length buf + n) p.wire.departures
    → (s : List Departure) × (send_or_exit buf p ≡ done tt (told p buf s)) × Sends n s
unfolding send_or_exit socket_write
send_or_exit_lem n buf p r =
    let (s, e, k) = writen-Kept p.wire.departures buf r.calm (omega (arith, r.enough)) in
    (
      s,
      rw (◌>>=◌, e, send_or_exit) refl,
      record { calm = k.calm; enough = omega (arith, r.enough, k.enough) },
    )

pub read_or_exit_lem :
    (n : ℕ) (b rest : Bytes) (p : Proc)
    → p.wire.inbox ≡ b ++ rest
    → Hears (length b + n) p.wire.arrivals
    → (s : List Arrival) × (read_or_exit (length b) p ≡ done b (heard p rest s)) × Hears n s
unfolding read_or_exit socket_read
read_or_exit_lem n b rest p h r =
    let (s, e, k) =
      readn-got p.wire.arrivals (b ++ rest) (length b) r.calm (omega (arith, r.enough)) in
    (
      s,
      rw (◌>>=◌, h, e, take-append b rest, drop-append b rest, read_or_exit, ==_self (length b))
          refl,
      record { calm = k.calm; enough = omega (arith, r.enough, k.enough) },
    )
