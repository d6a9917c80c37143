-- ===== src/TransData/Sound.antt =====
-- The data connection of miniftpd/trans_data.c keeps the session sound.
pub mod Listing
pub mod Transfer
use mini_ftp.Base.{
  ℕ, zero, suc, ◌+◌, ◌≤◌, ◌≡◌, ◌^◌, ◌%◌, Bool, true, false, not, ◌&&◌, Option, none, some, List, [],
  ◌∷◌, ◌++◌, ◌==◌, ltb, min, arith, Bytes, length, take, drop, if◌then◌else◌,
}
use mini_ftp.Base.Int.{ℤ, pos}
use mini_ftp.Commands.Reply.{Env, ftp_reply, sys, crlf}
use mini_ftp.Commands.Sound.{IsSound, sys-IsSound, ftp_reply-IsSound}
use mini_ftp.PrivSock.Sound.{
  priv_sock_send_cmd-IsSound, priv_sock_recv_result-IsSound, priv_sock_send_int-IsSound,
  priv_sock_recv_int-IsSound, priv_sock_send_str-IsSound, priv_sock_recv_fd-IsSound,
}
use mini_ftp.Session.Invariant.{
  Keeps, Leaves, bind-Leaves, if-Leaves, option-Leaves, done-Leaves, exited-Leaves, hung-Leaves,
  faulted-Leaves,
}
use mini_ftp.Session.Kernel.{Stat}
use mini_ftp.Session.{
  SockAddr, Session, Event, sent_data, file_data, Proc, Out, done, hung, M, ◌>>=◌, ◌>>◌,
}
use mini_ftp.Sockets.Sound.{
  open_fd-IsSound, need-IsSound, get_local_ip-IsSound, lock_file_read-IsSound,
  lock_file_write-IsSound, unlock_file-IsSound,
}
use mini_ftp.Sysutil.{Arrival, up_to, Put, wrote, write_failed, stalled, writen}
use mini_ftp.TransCtrl.Sound.{
  setup_signal_alarm_data_fd-IsSound, start_signal_alarm_data_fd-IsSound, set_start_time-IsSound,
  limit_curr_rate-IsSound,
}
use mini_ftp.TransCtrl.{Double, limit_curr_rate}
use mini_ftp.Nobody.{result_bad}
use mini_ftp.TransData.{
  is_some, is_port_active, is_pasv_active, ask_for_port, ask_for, get_port_data_fd,
  get_pasv_data_fd, connect_data, get_trans_data_fd, do_pasv,
}

module _ (env : Env) (s₀ : Session) where
  is_pasv_active-IsSound : Keeps (IsSound s₀) (is_pasv_active env)
  unfolding is_pasv_active
  is_pasv_active-IsSound p h =
      bind-Leaves _ _ (priv_sock_send_cmd-IsSound s₀ _ p h)
        λ _ q h. bind-Leaves _ _ (priv_sock_recv_int-IsSound s₀ q h) λ n q h. done-Leaves _ _ h

  ask_for-IsSound : (o : Option SockAddr) → Keeps (IsSound s₀) (ask_for env o)
  unfolding ask_for ask_for_port
  ask_for-IsSound none p h = faulted-Leaves _ h
  ask_for-IsSound (some a) p h = bind-Leaves _ _ (priv_sock_send_str-IsSound s₀ _ p h) λ _ q h.
      bind-Leaves _ _ (priv_sock_send_int-IsSound s₀ _ q h) λ _ q h.
        bind-Leaves _ _ (priv_sock_recv_result-IsSound s₀ q h) λ result q h.
          if-Leaves (result == result_bad) _ _ q (exited-Leaves _ _ h)
            (bind-Leaves _ _ (priv_sock_recv_fd-IsSound s₀ q h) λ fd q h. done-Leaves _ _ h)

  get_port_data_fd-IsSound : Keeps (IsSound s₀) (get_port_data_fd env)
  unfolding get_port_data_fd
  get_port_data_fd-IsSound p h =
      bind-Leaves _ _ (priv_sock_send_cmd-IsSound s₀ _ p h)
        λ _ q h. ask_for-IsSound q.sess.p_addr q h

  get_pasv_data_fd-IsSound : Keeps (IsSound s₀) (get_pasv_data_fd env)
  unfolding get_pasv_data_fd
  get_pasv_data_fd-IsSound p h = bind-Leaves _ _ (priv_sock_send_cmd-IsSound s₀ _ p h) λ _ q h.
      bind-Leaves _ _ (priv_sock_recv_result-IsSound s₀ q h) λ res q h.
        if-Leaves (res == result_bad) _ _ q
          (bind-Leaves _ _ (ftp_reply-IsSound env s₀ _ _ q h) λ _ q h. exited-Leaves _ _ h)
          (bind-Leaves _ _ (priv_sock_recv_fd-IsSound s₀ q h)
            λ fd q h. bind-Leaves _ _ (sys-IsSound env s₀ _ _ h) λ _ q h. done-Leaves _ _ h)

  connect_data-IsSound :
      (is_port is_pasv : Bool) → Keeps (IsSound s₀) (connect_data env is_port is_pasv)
  unfolding connect_data
  connect_data-IsSound is_port is_pasv p h =
      bind-Leaves _ _
        (if-Leaves (not is_port && not is_pasv) _ _ p
          (bind-Leaves _ _ (ftp_reply-IsSound env s₀ _ _ p h) λ _ q h. exited-Leaves _ _ h)
          (done-Leaves _ _ h))
        λ _ q h.
          bind-Leaves _ _
            (if-Leaves (is_port && is_pasv) _ _ q (exited-Leaves _ _ h) (done-Leaves _ _ h))
            λ _ q h.
              bind-Leaves _ _
                (if-Leaves is_port _ _ q (get_port_data_fd-IsSound q h) (done-Leaves _ _ h))
                λ _ q h.
                  bind-Leaves _ _
                    (if-Leaves is_pasv _ _ q (get_pasv_data_fd-IsSound q h) (done-Leaves _ _ h))
                    λ _ q h.
                      bind-Leaves _ _ (setup_signal_alarm_data_fd-IsSound env s₀ q h)
                        λ _ q h. start_signal_alarm_data_fd-IsSound env s₀ q h

  pub get_trans_data_fd-IsSound : Keeps (IsSound s₀) (get_trans_data_fd env)
  unfolding get_trans_data_fd is_port_active
  get_trans_data_fd-IsSound p h =
      bind-Leaves _ _ (is_pasv_active-IsSound p h)
        λ is_pasv q k. connect_data-IsSound (is_some p.sess.p_addr) is_pasv q k

  pub do_pasv-IsSound : Keeps (IsSound s₀) (do_pasv env)
  unfolding do_pasv
  do_pasv-IsSound p h = bind-Leaves _ _ (get_local_ip-IsSound env s₀ p h) λ ip q h.
      bind-Leaves _ _ (priv_sock_send_cmd-IsSound s₀ _ q h) λ _ q h.
        bind-Leaves _ _ (priv_sock_recv_result-IsSound s₀ q h) λ res q h.
          if-Leaves (res == result_bad) _ _ q (ftp_reply-IsSound env s₀ _ _ q h) (
            bind-Leaves _ _ (priv_sock_recv_int-IsSound s₀ q h)
              λ port q h. ftp_reply-IsSound env s₀ _ _ q h)
