-- ===== src/TransData/Agreement.antt =====
-- The two processes of a client over one data connection: `get_trans_data_fd` of
-- miniftpd/trans_data.c on one side, the loop of miniftpd/ftp_nobody.c on the other. Each process is
-- run on what the other sends.
use mini_ftp.Base.{ℕ, ◌^◌, ◌<◌, ◌≡◌, true, false, none, some, [], ◌∷◌, ◌++◌, arith, Bytes, length}
use mini_ftp.Base.Int.{pos, minus_one, is_minus_one}
use mini_ftp.Commands.Login.{Succeeds}
use mini_ftp.Commands.Reply.{Env}
use mini_ftp.Nobody.{pasv_active, pasv_accept, result_ok, nobody_round}
use mini_ftp.Nobody.Replies.{port_request}
use mini_ftp.PrivSock.{int_bytes}
use mini_ftp.Session.{
  SockAddr, socket, accept, close, alarm, signal_data_fd, called, Proc, done, ◌>>◌,
}
use mini_ftp.Sockets.Connect.{Grants}
use mini_ftp.TransData.Exchange.{Passes}
use mini_ftp.TransData.{get_trans_data_fd}
use mini_ftp.TransData.Sides.{
  reached, admitted, given, Room, port_side, pasv_side, port_answer, pasv_answer,
}

-- With PORT: the other process opens a socket, binds it to port 20, connects exactly this socket to
-- the address and port that the client gave, sends its descriptor and closes its own copy; this one
-- gets a descriptor, sets its alarm, and the mode is over. The texts of addresses are read back as
-- they are written, and are shorter than 16 bytes. The calls of both processes succeed, the
-- connection is there at once or when it is waited for, no signal comes while a command is to be
-- read, and the sockets carry the bytes.
pub port_agreement :
    (env env' : Env) (g : Grants env')
    → Succeeds env
    → (n : ℕ) (to : SockAddr) (p q : Proc) → p.sess.p_addr ≡ some to
    → is_minus_one q.sess.listen_fd ≡ true
    → to.port < 2 ^ 16
    → length (env.kernel.inet_ntoa to.addr) < 16
    → env'.kernel.inet_addr (env.kernel.inet_ntoa to.addr) ≡ to.addr
    → Passes p n
    → Room p 30
    → Room q 30
    → (request reply : Bytes) × (p' q' : Proc) × (get_trans_data_fd env (given p reply)
        ≡ done tt p')
      × (p'.wire.outbox ≡ p.wire.outbox ++ request)
      × ((nobody_round env' >> nobody_round env') (given q request) ≡ done tt q')
      × (q'.wire.outbox ≡ q.wire.outbox ++ reply)
      × (p'.sess ≡ record p.sess { data_fd = pos n; p_addr = none })
      × (q'.sess ≡ q.sess)
      × (p'.trace ≡ called (alarm env.config.connect_timeout) ∷ called signal_data_fd ∷ p.trace)
      × (q'.trace ≡ reached env' g to q.trace)
      × (q'.wire.handed ≡ q.wire.handed ++ pos (g.opens q.trace socket) ∷ [])
port_agreement env env' g s n to p q mode off small fits same c (ps, ph) room =
    let ip = env.kernel.inet_ntoa to.addr in
    let (p', e, out, session, events) = port_side env n to p s mode c (
      record { calm = ps.calm; enough = omega (arith, ps.enough) },
      record { calm = ph.calm; enough = omega (arith, ph.enough) },
    ) in
    let (q', e', out', session', made, handed) =
      port_answer env' g to ip q off small fits same room in
    (
      pasv_active ∷ port_request ip to.port,
      int_bytes 0 ++ (result_ok ∷ 0 ∷ []),
      p',
      q',
      e,
      out,
      e',
      out',
      session,
      session',
      events,
      made,
      handed,
    )

-- With PASV, where the other process listens: it accepts a client on its listening socket, closes
-- that, sends the descriptor of the client and closes its own copy; this one closes the number of its
-- listening socket, gets a descriptor and sets its alarm; and the mode is over on both sides. The calls
-- of both processes succeed, a client is there, no signal comes while a command is to be read, and
-- the sockets carry the bytes.
pub pasv_agreement :
    (env env' : Env) (g : Grants env')
    → Succeeds env
    → (n : ℕ) (p q : Proc) → p.sess.p_addr ≡ none
    → is_minus_one q.sess.listen_fd ≡ false
    → Passes p n
    → Room p 14
    → Room q 30
    → (request reply : Bytes) × (p' q' : Proc) × (get_trans_data_fd env (given p reply)
        ≡ done tt p')
      × (p'.wire.outbox ≡ p.wire.outbox ++ request)
      × ((nobody_round env' >> nobody_round env') (given q request) ≡ done tt q')
      × (q'.wire.outbox ≡ q.wire.outbox ++ reply)
      × (p'.sess ≡ record p.sess { data_fd = pos n; listen_fd = minus_one })
      × (q'.sess ≡ record q.sess { listen_fd = minus_one })
      × (p'.trace
          ≡ called (alarm env.config.connect_timeout)
            ∷ called signal_data_fd
            ∷ called (close p.sess.listen_fd)
            ∷ p.trace)
      × (q'.trace ≡ admitted env' g q.sess.listen_fd q.trace)
      × (q'.wire.handed ≡ q.wire.handed ++ pos (g.opens q.trace (accept q.sess.listen_fd)) ∷ [])
pasv_agreement env env' g s n p q mode on c room room' =
    let (p', e, out, session, events) = pasv_side env n p s mode c room in
    let (q', e', out', session', made, handed) = pasv_answer env' g q on room' in
    (
      pasv_active ∷ pasv_accept ∷ [],
      int_bytes 1 ++ (result_ok ∷ 0 ∷ []),
      p',
      q',
      e,
      out,
      e',
      out',
      session,
      session',
      events,
      made,
      handed,
    )
