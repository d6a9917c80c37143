-- ===== src/PrivSock/Tests.antt =====
-- Messages of miniftpd/priv_sock.c between two concrete processes.
use mini_ftp.Base.{◌≡◌, [], ◌++◌, arith, Bytes}
use mini_ftp.Base.Text.{codes}
use mini_ftp.Commands.Sample.{one_by_one-Sends, byte_by_byte-Hears, with_command}
use mini_ftp.PrivSock.Messages.{priv_sock_recv_str-send_str}
use mini_ftp.PrivSock.Transport.{Sends-less, Hears-less}
use mini_ftp.PrivSock.{priv_sock_send_str, priv_sock_recv_str}
use mini_ftp.Session.{Proc, done}

priv_sock_recv_str-send_str_example :
    (message : Bytes) × (p' q' : Proc) × (priv_sock_send_str
        (codes "127.0.0.1")
        (with_command [] [])
      ≡ done tt p')
    × (p'.wire.outbox ≡ [] ++ message)
    × (priv_sock_recv_str 16 (record (with_command [] []) {
      wire = record (with_command [] []).wire { inbox = message ++ codes "more" };
    })
        ≡ done (codes "127.0.0.1") q')
    × (q'.wire.inbox ≡ codes "more")
priv_sock_recv_str-send_str_example =
    priv_sock_recv_str-send_str (codes "127.0.0.1") (codes "more") 16 (with_command [] [])
      (with_command [] []) (omega arith) (omega arith)
      (Sends-less (omega arith) (one_by_one-Sends 1023))
      (Hears-less (omega arith) (byte_by_byte-Hears 1023))
