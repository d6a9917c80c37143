-- ===== src/Proto/Tests.antt =====
-- Lines and sessions of a client through `handle_proto` of miniftpd/ftp_proto.c.
use mini_ftp.Base.{
  ℕ, zero, suc, ◌≤◌, ◌≡◌, refl, inl, true, List, [], ◌∷◌, ◌++◌, arith, Bytes, length, ◌<◌, ap,
  replicate, all, length-replicate,
}
use mini_ftp.Base.Int.{pos}
use mini_ftp.Base.Text.{codes, no_nul}
use mini_ftp.Commands.Sample.{
  host, idle, with_command, byte_by_byte, byte_by_byte-Hears, host-Delivers, host-Succeeds, alice,
}
use mini_ftp.Commands.Sound.{IsSound}
use mini_ftp.Proto.{greet_client, handle_line, handle_proto}
use mini_ftp.Proto.Lines.{handle_line_overflow}
use mini_ftp.Proto.Script.{is_request, script, converse}
use mini_ftp.Proto.Serve.{lines_of, serve, handle_proto-serve}
use mini_ftp.Proto.Sessions.{Ready, handle_proto_login, handle_proto_unauthenticated}
use mini_ftp.Proto.Steps.{greeted, Account, cleared, alarmed, deleted, logged}
use mini_ftp.Proto.Sound.{handle_proto-IsSound}
use mini_ftp.Session.Invariant.{Leaves}
use mini_ftp.Session.{Proc, session_init, exited, faulted, ◌>>◌}
use mini_ftp.Strutil.Ending.{without_crlf}
use mini_ftp.Strutil.Split.{before_char, after_char}
use mini_ftp.Sysutil.Reading.{read_ok, looks}
use mini_ftp.Sysutil.{Arrival}
use mini_ftp.TransCtrl.Sample.{whole_numbers}
use mini_ftp.TransData.Transfer.{transfers}

-- A session whose socket to the other process is descriptor 5.
abbrev connected : Proc
connected = record (with_command [] []) {
  sess = record (with_command [] []).sess { proto_fd = pos 5 };
}

-- A verb of 513 letters.
abbrev letters : ℕ → Bytes
letters n = replicate n b'A'

letters_lem :
    (n : ℕ)
    → (without_crlf (letters n) ≡ letters n)
      × (before_char b' ' (letters n) ≡ letters n)
      × (no_nul (letters n) ≡ true)
unfolding without_crlf before_char
letters_lem zero = (refl, refl, refl)
letters_lem (suc n) = let (w, b, c) = letters_lem n in (ap (◌∷◌ b'A') w, ap (◌∷◌ b'A') b, c)

too_long : 512 < length (before_char b' ' (without_crlf (letters 513)))
too_long =
    let (w, b, c) = letters_lem 513 in rw (w, b) (omega (arith, length-replicate {A = ℕ} 513 b'A'))

handle_line_overflow_example : handle_line host idle (letters 513) connected ≡ faulted connected
handle_line_overflow_example =
    handle_line_overflow host idle 5 (letters 513) connected refl (omega arith) (letters_lem 513).2
      (inl too_long)

-- A client whose bytes arrive one by one.
abbrev deliveries : List Arrival
deliveries = byte_by_byte 2200

calm_lem : all read_ok deliveries ≡ true
calm_lem = (byte_by_byte-Hears 2200).calm

enough_lem : {n : ℕ} → n ≤ 2200 → n ≤ looks deliveries
enough_lem h = omega (arith, h, (byte_by_byte-Hears 2200).enough)

handle_proto-serve_example :
    handle_proto host idle deliveries (codes "NOOP\r\n") connected
    ≡ (greet_client host
          >> serve host idle (lines_of (suc (length (codes "NOOP\r\n"))) (codes "NOOP\r\n")))
        connected
handle_proto-serve_example =
    handle_proto-serve host idle deliveries (codes "NOOP\r\n") calm_lem (enough_lem (omega arith))
      connected

handle_proto-IsSound_example : Leaves (IsSound connected.sess) (
    handle_proto host
      (transfers whole_numbers host)
      deliveries
      (codes "TYPE A\r\nQUIT\r\n")
      connected)
unfolding session_init
handle_proto-IsSound_example =
    handle_proto-IsSound whole_numbers host connected.sess deliveries (codes "TYPE A\r\nQUIT\r\n")
      connected (refl, refl, refl, omega arith, omega arith)

connected-Ready : Ready connected
unfolding session_init
connected-Ready = record {
  proto_fd = 5;
  is_proto_fd = refl;
  small = omega arith;
  mode = omega arith;
  mark = omega arith;
}

-- The account of the host, with a password of six bytes.
alice-Account : Account host (codes "alice") (codes "secret") alice (codes "stored")
alice-Account = record {
  named = λ trace. refl;
  numbered = λ trace. refl;
  shadowed = λ trace. refl;
  encrypted = refl;
}

handle_proto_login_example :
    handle_proto host
      (transfers whole_numbers host)
      deliveries
      (script
        ((codes "USER " ++ codes "alice") ∷ (codes "PASS " ++ codes "secret") ∷ codes "QUIT" ∷ []))
      connected
    ≡ converse host
        (transfers whole_numbers host)
        (codes "QUIT" ∷ [])
        (logged host alice (greeted connected))
unfolding script is_request before_char after_char
handle_proto_login_example =
    handle_proto_login whole_numbers host deliveries connected connected-Ready host-Delivers
      calm_lem host-Succeeds (codes "alice") (codes "secret") (codes "stored") alice
      (codes "QUIT" ∷ []) alice-Account (refl, omega arith) (refl, omega arith) refl
      (enough_lem (omega arith))

handle_proto_unauthenticated_example :
    handle_proto host
      (transfers whole_numbers host)
      deliveries
      (script ((codes "DELE " ++ codes "/etc/passwd") ∷ []))
      connected
    ≡ exited 0 (
        alarmed host (
          cleared (record connected {
            trace = deleted host (codes "/etc/passwd") (greeted connected).trace;
          })))
unfolding script
handle_proto_unauthenticated_example =
    handle_proto_unauthenticated whole_numbers host deliveries connected connected-Ready
      host-Delivers calm_lem host-Succeeds (codes "/etc/passwd") (refl, omega arith)
      (enough_lem (omega arith))
