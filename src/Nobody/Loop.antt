-- ===== src/Nobody/Loop.antt =====
-- `handle_nobody` of miniftpd/ftp_nobody.c: from the start to the end of its input.
use mini_ftp.Base.{
  ℕ, zero, suc, ◌+◌, ◌*◌, ◌<◌, ◌≡◌, refl, sym, ap, ◌∙◌, some, List, [], ◌∷◌, ◌++◌, append_assoc,
  append-nil, arith, if◌then◌else◌, Bytes, length, replicate, length-replicate,
}
use mini_ftp.Base.Int.{is_minus_one}
use mini_ftp.Base.Run.{Run}
use mini_ftp.Base.Text.{codes}
use mini_ftp.Clients.{Tables, handle_sigchld}
use mini_ftp.Commands.Reply.{Passwd, Env}
use mini_ftp.Nobody.Replies.{answered, round-pasv_active}
use mini_ftp.Nobody.{
  pasv_active, handle_cmd, behind_handler, inherited_sigchld, nobody_round, nobody_loop, set_nobody,
  set_bind_capabilities, handle_nobody,
}
use mini_ftp.PrivSock.Transport.{Sends, Hears, heard}
use mini_ftp.PrivSock.{int_bytes, priv_sock_recv_cmd}
use mini_ftp.Session.{
  setegid, seteuid, capset, Event, called, Proc, Out, M, done, exited, killed, ◌>>◌, ◌>>=◌,
  seq-done,
}
use mini_ftp.Sockets.Connect.{Grants, at, need_lem}
use mini_ftp.Sockets.{need}
use mini_ftp.Sysutil.Reading.{readn-got}
use mini_ftp.Sysutil.{Arrival}

-- The answer to each of `k` questions for the mode.
abbrev pub flags : ℕ → Bytes → Bytes
flags zero flag = []
flags (suc k) flag = flag ++ flags k flag

-- What the process comes to at the end of its input, by the handler of SIGCHLD in front of it: where
-- that returns the process ends with the status 0, and where its assertion fails it is aborted.
abbrev pub ending : Run Tables → Proc → List Arrival → Out (Unit {0})
ending (Run.ok t) q s = exited 0 (heard q [] s)
ending (Run.exited n) q s = exited n q
ending Run.abort q s = killed q

behind_handler-ending :
    (r : Run Tables) (k : M (Unit {0})) (q : Proc) (s : List Arrival)
    → k q ≡ exited 0 (heard q [] s)
    → (behind_handler r >> k) q ≡ ending r q s
unfolding behind_handler
behind_handler-ending (Run.ok t) k q s e = e
behind_handler-ending (Run.exited n) k q s e = refl
behind_handler-ending Run.abort k q s e = refl

-- Nothing follows behind the end of a process.
ending-stops :
    (r : Run Tables) (m k : M (Unit {0})) (p q : Proc) (s : List Arrival)
    → m p ≡ ending r q s
    → (m >> k) p ≡ ending r q s
ending-stops (Run.ok t) m k p q s e = rw (◌>>=◌, e) refl
ending-stops (Run.exited n) m k p q s e = rw (◌>>=◌, e) refl
ending-stops Run.abort m k p q s e = rw (◌>>=◌, e) refl

-- What the handler comes to at the end of the input.
abbrev pub last_signal : Env → List Event → Run Tables
last_signal env trace = handle_sigchld env.kernel.inherited (env.kernel.reaped trace 0)

module _ (env : Env) (g : Grants env) where
  -- At the end of the input the process ends.
  round-end :
      (q : Proc)
      → q.wire.inbox ≡ []
      → Hears 1 q.wire.arrivals
      → (s : List Arrival) × (nobody_round env q ≡ ending (last_signal env q.trace) q s)
  unfolding nobody_round inherited_sigchld priv_sock_recv_cmd
  round-end q h hears =
      let (s, e, _) = readn-got q.wire.arrivals [] 1 hears.calm hears.enough in
      let end : (priv_sock_recv_cmd >>= handle_cmd env) q ≡ exited 0 (heard q [] s) =
        rw (◌>>=◌, ◌>>=◌, h, e) refl in
      (
        s,
        ap
              (λ n.
                (behind_handler (handle_sigchld env.kernel.inherited (env.kernel.reaped q.trace n))
                    >> (priv_sock_recv_cmd >>= handle_cmd env))
                  q)
              (ap length h)
            ∙ behind_handler-ending (last_signal env q.trace) _ q s end,
      )

  loop_lem :
      (k fuel : ℕ) (q : Proc)
      → k < fuel
      → q.wire.inbox ≡ replicate k pasv_active
      → Hears (4 * k + 1) q.wire.arrivals
      → Sends (4 * k + 1) q.wire.departures
      → (q' : Proc) × (s : List Arrival) × (nobody_loop env fuel q
          ≡ ending (last_signal env q.trace) q' s)
        × (q'.wire.outbox
            ≡ q.wire.outbox ++ flags k (int_bytes (if is_minus_one q.sess.listen_fd then 0 else 1)))
        × (q'.sess ≡ q.sess)
        × (q'.trace ≡ q.trace)
  unfolding nobody_loop
  loop_lem k zero q l h hears sends = absurd (omega arith)
  loop_lem zero (suc fuel) q l h hears sends =
      let (s, e) =
        round-end q h (record { calm = hears.calm; enough = omega (arith, hears.enough) }) in
      (
        q,
        s,
        ending-stops (last_signal env q.trace) (nobody_round env) (nobody_loop env fuel) q q s e,
        sym (append-nil q.wire.outbox),
        refl,
        refl,
      )
  loop_lem (suc k) (suc fuel) q l h hears sends =
      let flag = int_bytes (if is_minus_one q.sess.listen_fd then 0 else 1) in
      let (a, d, e, hears', sends') =
        round-pasv_active env g (4 * k + 1) (replicate k pasv_active) q h
          (record { calm = hears.calm; enough = omega (arith, hears.enough) })
          (record { calm = sends.calm; enough = omega (arith, sends.enough) }) in
      let q₁ = answered q (replicate k pasv_active) a flag d [] q.sess q.trace in
      let (q', s, e', out, session, trace) = loop_lem k fuel q₁ (omega arith) refl hears' sends' in
      (
        q',
        s,
        seq-done (nobody_round env) _ q e ∙ e',
        out ∙ append_assoc q.wire.outbox flag (flags k flag),
        session,
        trace,
      )

  set_nobody_lem :
      (pw : Passwd) (q : Proc)
      → env.getpwnam q.trace (codes "nobody") ≡ some pw
      → set_nobody env q
        ≡ done tt (at q (called (seteuid pw.pw_uid) ∷ called (setegid pw.pw_gid) ∷ q.trace))
  unfolding set_nobody
  set_nobody_lem pw q found = rw (found) (
      seq-done (need env (setegid pw.pw_gid)) _ q (need_lem env g (setegid pw.pw_gid) q)
      ∙ need_lem env g (seteuid pw.pw_uid) _)

-- The events in which the process gives up its group and its user, and keeps one capability.
abbrev pub lowered : Passwd → List Event → List Event
lowered pw t = called capset ∷ called (seteuid pw.pw_uid) ∷ called (setegid pw.pw_gid) ∷ t

-- The process gives up its group and its user, in this order, and then keeps one capability. For a
-- client that only asks for the mode, `k` times, it sends the answer to each question. At the end of
-- its input it ends, with the status 0 where no child is reaped in front of that read, and by what
-- the inherited handler of SIGCHLD comes to on its tables where one is. The user nobody is known,
-- the calls succeed, no signal comes while a question is to be read, and the socket carries the
-- bytes.
pub handle_nobody_queries :
    (env : Env)
    → Grants env
    → (pw : Passwd) (k : ℕ) (q : Proc) → env.getpwnam q.trace (codes "nobody") ≡ some pw
    → q.wire.inbox ≡ replicate k pasv_active
    → Hears (4 * k + 1) q.wire.arrivals
    → Sends (4 * k + 1) q.wire.departures
    → (q' : Proc) × (s : List Arrival) × (handle_nobody env q
        ≡ ending (last_signal env (lowered pw q.trace)) q' s)
      × (q'.wire.outbox
          ≡ q.wire.outbox ++ flags k (int_bytes (if is_minus_one q.sess.listen_fd then 0 else 1)))
      × (q'.sess ≡ q.sess)
      × (q'.trace ≡ lowered pw q.trace)
unfolding handle_nobody set_bind_capabilities
handle_nobody_queries env g pw k q found h hears sends =
    let dropped = at q (called (seteuid pw.pw_uid) ∷ called (setegid pw.pw_gid) ∷ q.trace) in
    let start = at q (called capset ∷ dropped.trace) in
    let fuel : k < suc (length q.wire.inbox) =
      omega (arith, ap length h, length-replicate k pasv_active) in
    let (q', s, e, out, session, trace) =
      loop_lem env g k (suc (length q.wire.inbox)) start fuel h hears sends in
    (
      q',
      s,
      seq-done (set_nobody env) _ q (set_nobody_lem env g pw q found)
          ∙ (seq-done (need env capset) _ dropped (need_lem env g capset dropped) ∙ e),
      out,
      session,
      trace,
    )
