-- ===== src/TransData/Tests.antt =====
-- The data connections, the transfers and the listing of miniftpd/trans_data.c on a concrete system.
use mini_ftp.Base.{ℕ, ◌≤◌, ◌≡◌, refl, false, none, some, [], ◌∷◌, ◌++◌, arith, Bytes, take}
use mini_ftp.Base.Int.{pos, minus_one}
use mini_ftp.Base.Text.{codes}
use mini_ftp.Commands.Codes
use mini_ftp.Commands.Framing.{framed}
use mini_ftp.Commands.Login.{calls}
use mini_ftp.Commands.Sample.{
  one_by_one-Sends, byte_by_byte-Hears, regular, host, host-Delivers, host-Succeeds, host-Grants,
  with_command, wire_with,
}
use mini_ftp.Nobody.{nobody_round}
use mini_ftp.PrivSock.Transport.{Sends-less, Hears-less}
use mini_ftp.PrivSock.{int_bytes}
use mini_ftp.Session.{
  signal_ctrl_fd, signal_data_fd, called, alarm, SockAddr, close, ftruncate, seek_set, unlock, Proc,
  done, exited, hung, ◌>>◌, session_init,
}
use mini_ftp.TransCtrl.Sample.{whole_numbers, host-Steady}
use mini_ftp.TransData.Agreement.{port_agreement, pasv_agreement}
use mini_ftp.TransData.Listing.Perms.{Shows, statbuf_get_perms_history}
use mini_ftp.TransData.Modes.{get_trans_data_fd_both}
use mini_ftp.TransData.Sides.{reached, admitted, given, Room}
use mini_ftp.TransData.Transfer.Events.{into_file, on_data, sent_replies}
use mini_ftp.TransData.Transfer.Retrieving.{get_opening, send_from_whole, send_from_restarted}
use mini_ftp.TransData.Transfer.Storing.{store_opening, receive_into_whole}
use mini_ftp.TransData.Transfer.{send_from, receive_into}
use mini_ftp.TransData.{get_trans_data_fd}

-- A client at 10.0.0.1, port 4660.
abbrev client : SockAddr
client = record { port = 4660; addr = codes "10.0.0.1" }

-- The process of a client that has sent PORT, or not, and of one that waits for a descriptor.
abbrev idle_proc : Proc
idle_proc = record (with_command [] []) { wire = wire_with [] (9 ∷ []) }

abbrev port_proc : Proc
port_proc = record idle_proc { sess = record idle_proc.sess { p_addr = some client } }

abbrev listening : Proc
listening = record idle_proc { sess = record idle_proc.sess { listen_fd = pos 5 } }

room : (n : ℕ) → n ≤ 1023 → Room idle_proc n
room n h = (Sends-less h (one_by_one-Sends 1023), Hears-less h (byte_by_byte-Hears 1023))

port_agreement_example :
    (request reply : Bytes) × (p' q' : Proc) × (get_trans_data_fd host (given port_proc reply)
      ≡ done tt p')
    × (p'.wire.outbox ≡ [] ++ request)
    × ((nobody_round host >> nobody_round host) (given idle_proc request) ≡ done tt q')
    × (q'.wire.outbox ≡ [] ++ reply)
    × (p'.sess ≡ record port_proc.sess { data_fd = pos 9; p_addr = none })
    × (q'.sess ≡ idle_proc.sess)
    × (p'.trace ≡ called (alarm host.config.connect_timeout) ∷ called signal_data_fd ∷ [])
    × (q'.trace ≡ reached host host-Grants client [])
    × (q'.wire.handed ≡ [] ++ pos 10 ∷ [])
unfolding session_init
port_agreement_example =
    port_agreement host host host-Grants host-Succeeds 9 client port_proc idle_proc refl refl
      (omega arith) (omega arith) refl
      (record { limit = 0; later = []; others = []; receipt = refl; first = refl })
      (room 30 (omega arith)) (room 30 (omega arith))

pasv_agreement_example :
    (request reply : Bytes) × (p' q' : Proc) × (get_trans_data_fd host (given idle_proc reply)
      ≡ done tt p')
    × (p'.wire.outbox ≡ [] ++ request)
    × ((nobody_round host >> nobody_round host) (given listening request) ≡ done tt q')
    × (q'.wire.outbox ≡ [] ++ reply)
    × (p'.sess ≡ record idle_proc.sess { data_fd = pos 9; listen_fd = minus_one })
    × (q'.sess ≡ record listening.sess { listen_fd = minus_one })
    × (p'.trace
        ≡ called (alarm host.config.connect_timeout)
          ∷ called signal_data_fd
          ∷ called (close minus_one)
          ∷ [])
    × (q'.trace ≡ admitted host host-Grants (pos 5) [])
    × (q'.wire.handed ≡ [] ++ pos 10 ∷ [])
unfolding session_init
pasv_agreement_example =
    pasv_agreement host host host-Grants host-Succeeds 9 idle_proc listening refl refl
      (record { limit = 0; later = []; others = []; receipt = refl; first = refl })
      (room 14 (omega arith)) (room 30 (omega arith))

get_trans_data_fd_both_example :
    (q : Proc) × (get_trans_data_fd host (given port_proc (int_bytes 1)) ≡ exited 1 q)
    × (q.trace ≡ [])
get_trans_data_fd_both_example =
    get_trans_data_fd_both host client 1 [] (given port_proc (int_bytes 1)) refl (omega arith)
      (omega arith) refl (room 1 (omega arith)).0
      (Hears-less (omega arith) (byte_by_byte-Hears 1023))

statbuf_get_perms_history_example :
    Shows (0o100600 ∷ 0o100044 ∷ []) 1 8 b'r'
    × Shows (0o100600 ∷ 0o100044 ∷ []) 2 7 b'w'
    × Shows (0o100600 ∷ 0o100044 ∷ []) 4 5 b'r'
    × Shows (0o100600 ∷ 0o100044 ∷ []) 5 4 b'w'
    × Shows (0o100600 ∷ 0o100044 ∷ []) 7 2 b'r'
    × Shows (0o100600 ∷ 0o100044 ∷ []) 8 1 b'w'
statbuf_get_perms_history_example = statbuf_get_perms_history (0o100600 ∷ 0o100044 ∷ [])

send_from_whole_example :
    (q : Proc) × (send_from whole_numbers host (pos 7) regular idle_proc ≡ done tt q)
    × (on_data q.trace ≡ [] ++ codes "hello")
    × (sent_replies q.trace
        ≡ take 1023 (framed Codes.transfer_ok (codes "Transfer complete."))
          ∷ take 1023 (framed Codes.data_conn (get_opening regular idle_proc))
          ∷ [])
    × (calls q.trace
        ≡ signal_ctrl_fd
          ∷ close (pos 7)
          ∷ close minus_one
          ∷ unlock (pos 7)
          ∷ seek_set (pos 7) (pos 0)
          ∷ [])
    × (q.sess.is_translating_data ≡ 0)
unfolding session_init
send_from_whole_example =
    send_from_whole whole_numbers host host-Steady host-Delivers host-Succeeds (pos 7) regular
      (codes "hello") idle_proc refl refl (omega arith) (λ trace. refl)
      (λ trace. ((byte_by_byte-Hears 1023).calm, omega (arith, (byte_by_byte-Hears 1023).enough)))

-- The same file behind REST 2.
abbrev at_two : Proc
at_two = record idle_proc { sess = record idle_proc.sess { restart_pos = 2 } }

send_from_restarted_example :
    (q : Proc) × (send_from whole_numbers host (pos 7) regular at_two ≡ hung q)
send_from_restarted_example =
    send_from_restarted whole_numbers host host-Steady host-Delivers host-Succeeds (pos 7) regular
      (codes "hello") at_two (omega arith) (omega arith) refl (omega arith) (omega arith)
      (λ trace. refl) (λ trace. (byte_by_byte-Hears 1023).calm)

receive_into_whole_example :
    (q : Proc) × (receive_into whole_numbers host (pos 7) false idle_proc ≡ done tt q)
    × (into_file q.trace ≡ [] ++ codes "hello")
    × (sent_replies q.trace
        ≡ take 1023 (framed Codes.transfer_ok (codes "Transfer complete."))
          ∷ take 1023 (framed Codes.data_conn (store_opening idle_proc))
          ∷ [])
    × (calls q.trace
        ≡ signal_ctrl_fd
          ∷ close minus_one
          ∷ close (pos 7)
          ∷ unlock (pos 7)
          ∷ ftruncate (pos 7) (pos 0)
          ∷ [])
    × (q.sess.is_translating_data ≡ 0)
    × (q.sess.data_fd ≡ minus_one)
unfolding session_init
receive_into_whole_example =
    receive_into_whole whole_numbers host host-Steady host-Delivers host-Succeeds (pos 7)
      (codes "hello") idle_proc refl
      (λ trace.
        (refl, (byte_by_byte-Hears 1023).calm, omega (arith, (byte_by_byte-Hears 1023).enough)))
      (λ trace. ((one_by_one-Sends 63356).calm, (one_by_one-Sends 63356).enough))
