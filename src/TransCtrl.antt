-- ===== src/TransCtrl.antt =====
-- miniftpd/trans_ctrl.c: the limit on the rate of a transfer, and the alarms, with `nano_sleep` of
-- miniftpd/sysutil.c.
pub mod Rate
pub mod Alarms
pub mod Sound
pub mod Sample
use mini_ftp.Base.{
  ℕ, ◌^◌, Bool, true, false, Option, none, some, List, [], ◌∷◌, ltb, ◌==◌, ◌&&◌, if◌then◌else◌,
}
use mini_ftp.Base.Int.{ℤ, pos, negsuc}
use mini_ftp.Base.Text.{codes}
use mini_ftp.Commands.Codes
use mini_ftp.Commands.Reply.{Env, ftp_reply, sys}
use mini_ftp.Session.Kernel.{Selected, ready, timed_out, failed, Wait, returns}
use mini_ftp.Session.{
  Session, Call, shut_rd, shut_wr, close, alarm, signal_ctrl_fd, signal_data_fd, Event, slept, Proc,
  Out, done, hung, M, pure, ◌>>=◌, ◌>>◌, ask, modify, log, exit,
}
use mini_ftp.Sockets.{need, get_curr_time}

-- What the code does with a `double`. `from_int` takes the difference of two numbers, as `int`
-- arithmetic gives it, and `to_int` cuts the fraction off.
pub record Double (W : Type 0) : Type 0 where
  pub from_int : ℕ → ℕ → W
  pub to_int : W → ℤ
  pub plus : W → W → W
  pub minus : W → W → W
  pub times : W → W → W
  pub over : W → W → W
  pub less : W → W → Bool
  pub from_ℤ : ℤ → W
  -- 0.0, 1, 0.0000001, 0.001, 1000000 and 1000000000.
  pub nought : W
  pub one : W
  pub tiny : W
  pub milli : W
  pub million : W
  pub billion : W

-- The `do` around `nanosleep`, which is given what is left of the time.
unfoldable pub nap_loop : List Wait → M Bool
nap_loop [] p = hung p
nap_loop (Wait.interrupted ∷ ws) p = nap_loop ws p
nap_loop (returns ready ∷ ws) p = done true p
nap_loop (returns timed_out ∷ ws) p = done true p
nap_loop (returns failed ∷ ws) p = done false p

module _ (env : Env) where
  unfoldable pub set_start_time : M (Unit {0})
  set_start_time = do
    now ← get_curr_time env
    modify (λ s. record s { start_time_sec = now.0; start_time_usec = now.1 })

-- An `int` above 0, for its 32 bits as a number.
abbrev pub is_limit : ℕ → Bool
is_limit limit = ltb 0 limit && ltb limit (2 ^ 31)

module _ {W : Type 0} (d : Double W) where
  unfoldable pub elapsed_time : ℕ × ℕ → ℕ × ℕ → W
  elapsed_time (sec, usec) (sec₀, usec₀) =
      let elapsed : W =
        d.plus (d.plus d.nought (d.from_int sec sec₀)) (d.over (d.from_int usec usec₀) d.million) in
      if d.less elapsed d.tiny then d.milli else elapsed

  module _ (env : Env) where
    -- Whether it returned 0.
    unfoldable pub nano_sleep : W → M Bool
    unfolding nap_loop
    nano_sleep t = do
      let sec : ℤ = d.to_int t
      naps ← ask (λ p. env.kernel.naps p.trace)
      log (slept sec (d.to_int (d.times (d.minus t (d.from_ℤ sec)) d.billion)))
      nap_loop naps

    -- The end of the function where the rate is over `limit`.
    unfoldable pub slow_down : W → W → ℕ → M (Unit {0})
    unfolding nano_sleep
    slow_down elapsed rate limit = do
      ok ← nano_sleep (d.times (d.minus (d.over rate (d.from_int limit 0)) d.one) elapsed)
      if ok then pure tt else exit 1
      set_start_time env

    unfoldable pub limit_curr_rate : ℕ → Bool → M (Unit {0})
    unfolding slow_down elapsed_time
    limit_curr_rate nbytes is_up = do
      now ← get_curr_time env
      start ← ask (λ p. (p.sess.start_time_sec, p.sess.start_time_usec))
      limit ← ask (λ p. if is_up then p.sess.limits_max_upload else p.sess.limits_max_download)
      let elapsed : W = elapsed_time now start
      let rate : W = d.over (d.from_int nbytes 0) elapsed
      if is_limit limit && d.less (d.from_int limit 0) rate
          then slow_down elapsed rate limit
          else set_start_time env

module _ (env : Env) where
  unfoldable pub setup_signal_alarm_ctrl_fd : M (Unit {0})
  unfolding need
  setup_signal_alarm_ctrl_fd = need env signal_ctrl_fd

  unfoldable pub setup_signal_alarm_data_fd : M (Unit {0})
  unfolding need
  setup_signal_alarm_data_fd = need env signal_data_fd

  unfoldable pub start_signal_alarm_ctrl_fd : M (Unit {0})
  start_signal_alarm_ctrl_fd = do _ ← sys env (alarm env.config.idle_session_timeout); pure tt

  unfoldable pub start_signal_alarm_data_fd : M (Unit {0})
  start_signal_alarm_data_fd = do _ ← sys env (alarm env.config.connect_timeout); pure tt

  unfoldable pub cancel_signal_fd : M (Unit {0})
  cancel_signal_fd = do _ ← sys env (alarm 0); pure tt

  -- The connection is shut for reading, the client is told, and the process ends.
  unfoldable pub hang_up : M (Unit {0})
  hang_up = do
    peerfd ← ask (λ p. p.sess.peerfd)
    _ ← sys env (shut_rd peerfd)
    ftp_reply env Codes.idle_timeout (codes "Timeout.")
    _ ← sys env (shut_wr peerfd)
    exit 0

  unfoldable pub handle_signal_ctrl_fd : M (Unit {0})
  unfolding hang_up
  handle_signal_ctrl_fd = if ltb 0 env.config.idle_session_timeout then hang_up else pure tt

  unfoldable pub drop_data_fd : M (Unit {0})
  unfolding hang_up
  drop_data_fd = do data_fd ← ask (λ p. p.sess.data_fd); _ ← sys env (close data_fd); hang_up

  unfoldable pub handle_signal_data_fd : M (Unit {0})
  unfolding start_signal_alarm_data_fd drop_data_fd
  handle_signal_data_fd = do
    active ← ask (λ p. p.sess.is_translating_data == 1)
    if ltb 0 env.config.connect_timeout
        then (if active then start_signal_alarm_data_fd else drop_data_fd)
        else pure tt
