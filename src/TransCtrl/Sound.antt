-- ===== src/TransCtrl/Sound.antt =====
-- The rate limit of miniftpd/trans_ctrl.c keeps the session sound.
use mini_ftp.Base.{ℕ, Bool, List, [], ◌∷◌, ◌&&◌, if◌then◌else◌}
use mini_ftp.Commands.Reply.{Env}
use mini_ftp.Commands.Sound.{IsSound, sys-IsSound}
use mini_ftp.Session.Invariant.{
  Keeps, bind-Leaves, if-Leaves, done-Leaves, exited-Leaves, hung-Leaves,
}
use mini_ftp.Session.Kernel.{ready, timed_out, failed, Wait, returns}
use mini_ftp.Session.{Session, signal_ctrl_fd, signal_data_fd}
use mini_ftp.Sockets.Sound.{need-IsSound, get_curr_time-IsSound}
use mini_ftp.TransCtrl.{
  Double, nap_loop, set_start_time, is_limit, elapsed_time, nano_sleep, slow_down, limit_curr_rate,
  start_signal_alarm_data_fd, setup_signal_alarm_ctrl_fd, setup_signal_alarm_data_fd,
  start_signal_alarm_ctrl_fd,
}

module _ (env : Env) (s₀ : Session) where
  nap_loop-IsSound : (ws : List Wait) → Keeps (IsSound s₀) (nap_loop ws)
  unfolding nap_loop
  nap_loop-IsSound [] p h = hung-Leaves _ h
  nap_loop-IsSound (Wait.interrupted ∷ ws) p h = nap_loop-IsSound ws p h
  nap_loop-IsSound (returns ready ∷ ws) p h = done-Leaves _ _ h
  nap_loop-IsSound (returns timed_out ∷ ws) p h = done-Leaves _ _ h
  nap_loop-IsSound (returns failed ∷ ws) p h = done-Leaves _ _ h

  pub set_start_time-IsSound : Keeps (IsSound s₀) (set_start_time env)
  unfolding set_start_time
  set_start_time-IsSound p h =
      bind-Leaves _ _ (get_curr_time-IsSound env s₀ p h) λ now q k. done-Leaves _ _ k

  pub setup_signal_alarm_ctrl_fd-IsSound : Keeps (IsSound s₀) (setup_signal_alarm_ctrl_fd env)
  unfolding setup_signal_alarm_ctrl_fd
  setup_signal_alarm_ctrl_fd-IsSound p h = need-IsSound env s₀ signal_ctrl_fd p h

  pub setup_signal_alarm_data_fd-IsSound : Keeps (IsSound s₀) (setup_signal_alarm_data_fd env)
  unfolding setup_signal_alarm_data_fd
  setup_signal_alarm_data_fd-IsSound p h = need-IsSound env s₀ signal_data_fd p h

  pub start_signal_alarm_data_fd-IsSound : Keeps (IsSound s₀) (start_signal_alarm_data_fd env)
  unfolding start_signal_alarm_data_fd
  start_signal_alarm_data_fd-IsSound p h =
      bind-Leaves _ _ (sys-IsSound env s₀ _ p h) λ _ q k. done-Leaves _ _ k

  pub start_signal_alarm_ctrl_fd-IsSound : Keeps (IsSound s₀) (start_signal_alarm_ctrl_fd env)
  unfolding start_signal_alarm_ctrl_fd
  start_signal_alarm_ctrl_fd-IsSound p h =
      bind-Leaves _ _ (sys-IsSound env s₀ _ p h) λ _ q k. done-Leaves _ _ k

  module _ {W : Type 0} (d : Double W) where
    nano_sleep-IsSound : (t : W) → Keeps (IsSound s₀) (nano_sleep d env t)
    unfolding nano_sleep
    nano_sleep-IsSound t p h = nap_loop-IsSound (env.kernel.naps p.trace) _ h

    slow_down-IsSound :
        (elapsed rate : W) (limit : ℕ) → Keeps (IsSound s₀) (slow_down d env elapsed rate limit)
    unfolding slow_down
    slow_down-IsSound elapsed rate limit p h = bind-Leaves _ _ (nano_sleep-IsSound _ p h) λ ok q k.
        bind-Leaves _ _ (if-Leaves ok _ _ q (done-Leaves _ _ k) (exited-Leaves _ _ k))
          λ _ q k. set_start_time-IsSound q k

    pub limit_curr_rate-IsSound :
        (n : ℕ) (is_up : Bool) → Keeps (IsSound s₀) (limit_curr_rate d env n is_up)
    unfolding limit_curr_rate
    limit_curr_rate-IsSound n is_up p h =
        bind-Leaves _ _ (get_curr_time-IsSound env s₀ p h) λ now q k.
          let limit : ℕ = if is_up then q.sess.limits_max_upload else q.sess.limits_max_download in
          let elapsed : W = elapsed_time d now (q.sess.start_time_sec, q.sess.start_time_usec) in
          let rate : W = d.over (d.from_int n 0) elapsed in
          if-Leaves (is_limit limit && d.less (d.from_int limit 0) rate) _ _ q
            (slow_down-IsSound elapsed rate limit q k) (set_start_time-IsSound q k)
