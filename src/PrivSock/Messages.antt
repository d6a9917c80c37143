-- ===== src/PrivSock/Messages.antt =====
-- What a message of miniftpd/priv_sock.c puts on the socket, and what the other end reads from it.
use mini_ftp.Base.{
  ℕ, ◌+◌, ◌^◌, ◌≤◌, ◌<◌, ◌≡◌, refl, ap, ◌∙◌, true, false, List, [], ◌∷◌, ◌++◌, arith, append_assoc,
  ltb, Bytes, length,
}
use mini_ftp.PrivSock.{
  int_bytes, bytes_int, read_or_exit, socket_read, priv_sock_send_cmd, priv_sock_recv_cmd,
  priv_sock_send_result, priv_sock_recv_result, priv_sock_send_int, priv_sock_recv_int,
  priv_sock_send_str, priv_sock_recv_str,
}
use mini_ftp.PrivSock.Transport.{Sends, Hears, told, heard, send_or_exit_lem, read_or_exit_lem}
use mini_ftp.Session.{Proc, done, exited, ◌>>=◌, bind-done, seq-done}
use mini_ftp.Sysutil.Reading.{readn-got}
use mini_ftp.Sysutil.{Arrival, Departure}

pub bytes_int-int_bytes : (n : ℕ) → n < 2 ^ 32 → bytes_int (int_bytes n) ≡ n
bytes_int-int_bytes n h = omega arith

pub send_int_lem :
    (k n : ℕ) (p : Proc)
    → Sends (4 + k) p.wire.departures
    → (s : List Departure) × (priv_sock_send_int n p ≡ done tt (told p (int_bytes n) s)) × Sends k s
unfolding priv_sock_send_int
send_int_lem k n p r = send_or_exit_lem k (int_bytes n) p r

pub recv_int_lem :
    (k n : ℕ) (rest : Bytes) (p : Proc)
    → n < 2 ^ 32
    → p.wire.inbox ≡ int_bytes n ++ rest
    → Hears (4 + k) p.wire.arrivals
    → (s : List Arrival) × (priv_sock_recv_int p ≡ done n (heard p rest s)) × Hears k s
unfolding priv_sock_recv_int
recv_int_lem k n rest p small h r =
    let (s, e, left) = read_or_exit_lem k (int_bytes n) rest p h r in
    (
      s,
      bind-done (read_or_exit 4) _ p e
          ∙ ap (λ m. done m (heard p rest s)) (bytes_int-int_bytes n small),
      left,
    )

pub send_byte_lem :
    (k c : ℕ) (p : Proc)
    → Sends (1 + k) p.wire.departures
    → (s : List Departure) × (priv_sock_send_cmd c p ≡ done tt (told p (c ∷ []) s))
      × (priv_sock_send_result c p ≡ done tt (told p (c ∷ []) s))
      × Sends k s
unfolding priv_sock_send_cmd priv_sock_send_result
send_byte_lem k c p r = let (s, e, left) = send_or_exit_lem k (c ∷ []) p r in (s, e, e, left)

pub recv_result_lem :
    (k c : ℕ) (rest : Bytes) (p : Proc)
    → p.wire.inbox ≡ c ∷ rest
    → Hears (1 + k) p.wire.arrivals
    → (s : List Arrival) × (priv_sock_recv_result p ≡ done c (heard p rest s)) × Hears k s
unfolding priv_sock_recv_result
recv_result_lem k c rest p h r =
    let (s, e, left) = read_or_exit_lem k (c ∷ []) rest p h r in
    (s, bind-done (read_or_exit 1) _ p e, left)

pub recv_cmd_lem :
    (k c : ℕ) (rest : Bytes) (p : Proc)
    → p.wire.inbox ≡ c ∷ rest
    → Hears (1 + k) p.wire.arrivals
    → (s : List Arrival) × (priv_sock_recv_cmd p ≡ done c (heard p rest s)) × Hears k s
unfolding priv_sock_recv_cmd socket_read
recv_cmd_lem k c rest p h r =
    let (s, e, left) = readn-got p.wire.arrivals (c ∷ rest) 1 r.calm (omega (arith, r.enough)) in
    (
      s,
      rw (◌>>=◌, h, e, priv_sock_recv_cmd) refl,
      record { calm = left.calm; enough = omega (arith, r.enough, left.enough) },
    )

-- A string on the wire: its length, and its bytes.
abbrev pub str_message : Bytes → Bytes
str_message buf = int_bytes (length buf) ++ buf

pub send_str_lem :
    (k : ℕ) (buf : Bytes) (p : Proc)
    → Sends (4 + (length buf + k)) p.wire.departures
    → (s : List Departure) × (priv_sock_send_str buf p ≡ done tt (told p (str_message buf) s))
      × Sends k s
unfolding priv_sock_send_str
send_str_lem k buf p r =
    let (s, e, left) = send_int_lem (length buf + k) (length buf) p r in
    let (s', e', left') = send_or_exit_lem k buf (told p (int_bytes (length buf)) s) left in
    (
      s',
      seq-done (priv_sock_send_int (length buf)) _ p e
          ∙ (e'
              ∙ ap
                  (λ out.
                    done tt (record p { wire = record p.wire { outbox = out; departures = s' } }))
                  (append_assoc p.wire.outbox (int_bytes (length buf)) buf)),
      left',
    )

fits_array : (len n : ℕ) → n ≤ len → ltb len n ≡ false
fits_array len n h = ground arith

pub recv_str_lem :
    (k len : ℕ) (buf rest : Bytes) (p : Proc)
    → length buf ≤ len
    → len < 2 ^ 32
    → p.wire.inbox ≡ str_message buf ++ rest
    → Hears (4 + (length buf + k)) p.wire.arrivals
    → (s : List Arrival) × (priv_sock_recv_str len p ≡ done buf (heard p rest s)) × Hears k s
unfolding priv_sock_recv_str
recv_str_lem k len buf rest p small l h r =
    let (s, e, left) =
      recv_int_lem (length buf + k) (length buf) (buf ++ rest) p (omega arith)
        (h ∙ append_assoc (int_bytes (length buf)) buf rest) r in
    let (s', e', left') = read_or_exit_lem k buf rest (heard p (buf ++ rest) s) refl left in
    (s', bind-done priv_sock_recv_int _ p e ∙ rw (fits_array len (length buf) small) e', left')

-- A string that one process sends is what the other reads, into an array of at least its length,
-- however the kernel cuts the bytes up on their way out and on their way in. Of what follows on the
-- socket nothing is read.
pub priv_sock_recv_str-send_str :
    (buf rest : Bytes) (len : ℕ) (p q : Proc)
    → length buf ≤ len
    → len < 2 ^ 32
    → Sends (4 + length buf) p.wire.departures
    → Hears (4 + length buf) q.wire.arrivals
    → (message : Bytes) × (p' q' : Proc) × (priv_sock_send_str buf p ≡ done tt p')
      × (p'.wire.outbox ≡ p.wire.outbox ++ message)
      × (priv_sock_recv_str len (record q { wire = record q.wire { inbox = message ++ rest } })
          ≡ done buf q')
      × (q'.wire.inbox ≡ rest)
priv_sock_recv_str-send_str buf rest len p q small l sends hears =
    let (s, e, _) =
      send_str_lem 0 buf p (record { calm = sends.calm; enough = omega (arith, sends.enough) }) in
    let from = record q { wire = record q.wire { inbox = str_message buf ++ rest } } in
    let (s', e', _) =
      recv_str_lem 0 len buf rest from small l refl
        (record { calm = hears.calm; enough = omega (arith, hears.enough) }) in
    (str_message buf, told p (str_message buf) s, heard from rest s', e, refl, e', refl)

-- A string that is longer than the array ends the reading process before any of its bytes is read.
pub priv_sock_recv_str_refused :
    (buf rest : Bytes) (len : ℕ) (q : Proc)
    → len < length buf
    → length buf < 2 ^ 32
    → q.wire.inbox ≡ str_message buf ++ rest
    → Hears 4 q.wire.arrivals
    → (q' : Proc) × (priv_sock_recv_str len q ≡ exited 1 q') × (q'.wire.inbox ≡ buf ++ rest)
unfolding priv_sock_recv_str
priv_sock_recv_str_refused buf rest len q long l h r =
    let (s, e, left) =
      recv_int_lem 0 (length buf) (buf ++ rest) q l
        (h ∙ append_assoc (int_bytes (length buf)) buf rest)
        (record { calm = r.calm; enough = omega (arith, r.enough) }) in
    let too_long : ltb len (length buf) ≡ true = ground arith in
    (heard q (buf ++ rest) s, bind-done priv_sock_recv_int _ q e ∙ rw too_long refl, refl)
