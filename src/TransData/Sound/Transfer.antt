-- ===== src/TransData/Sound/Transfer.antt =====
-- STOR, APPE and RETR of miniftpd/trans_data.c keep the session sound, so that all the commands do.
use mini_ftp.Base.{
  ℕ, suc, ◌≤◌, ◌^◌, ◌%◌, Bool, true, false, List, [], ◌∷◌, ◌==◌, min, arith, Bytes, length, take,
  drop,
}
use mini_ftp.Base.Int.{ℤ, pos}
use mini_ftp.Commands.Reply.{Env}
use mini_ftp.Commands.Sound.{IsSound, sys-IsSound, ftp_reply-IsSound}
use mini_ftp.Session.Invariant.{
  Keeps, Leaves, bind-Leaves, if-Leaves, option-Leaves, done-Leaves, exited-Leaves, killed-Leaves,
  hung-Leaves,
}
use mini_ftp.Session.Kernel.{Stat}
use mini_ftp.Session.{Session, file_data, Proc, Out, done, killed, hung, M}
use mini_ftp.Sockets.Sound.{
  open_fd-IsSound, need-IsSound, lock_file_read-IsSound, lock_file_write-IsSound,
  unlock_file-IsSound,
}
use mini_ftp.Sysutil.{Arrival, up_to, Put, wrote, write_failed, stopped, stalled, writen}
use mini_ftp.TransCtrl.Sound.{
  setup_signal_alarm_ctrl_fd-IsSound, set_start_time-IsSound, limit_curr_rate-IsSound,
}
use mini_ftp.TransCtrl.{Double}
use mini_ftp.Commands.Sound.Table.{KeepSound}
use mini_ftp.TransData.Sound.Listing.{do_list-IsSound, do_nlst-IsSound}
use mini_ftp.TransData.Sound.{get_trans_data_fd-IsSound, do_pasv-IsSound}
use mini_ftp.TransData.Transfer.{
  Flag, complete, network_failed, file_failed, is_regular, block, file_write, start_store,
  upload_reply, store_block, upload_loop, receive_into, check_and_receive, upload_file, block_size,
  less32, download_reply, after_send, download_loop, check_file, send_from, descriptor,
  download_file, transfers,
}

-- A change of the flag of a transfer.
abbrev flagged : ℕ → Proc → Proc
flagged n p = record p { sess = record p.sess { is_translating_data = n } }

flagged-IsSound :
    (s₀ : Session) (n : ℕ) (p : Proc) → n ≤ 1 → IsSound s₀ p.sess → IsSound s₀ (flagged n p).sess
flagged-IsSound s₀ n p small (a, b, c, m, t) = (a, b, c, m, small)

module _ (env : Env) (s₀ : Session) where
  put-IsSound :
      (r : Put) (p : Proc)
      → IsSound s₀ p.sess
      → Leaves (IsSound s₀) (
          let out : Out Bool = elim r [
            | wrote b s ↦ done true (record p { trace = file_data b ∷ p.trace })
            | write_failed b s ↦ done false (record p { trace = file_data b ∷ p.trace })
            | stopped b ↦ killed (record p { trace = file_data b ∷ p.trace })
            | stalled b ↦ hung (record p { trace = file_data b ∷ p.trace })
          ] in
          out)
  put-IsSound (wrote b s) p h = done-Leaves _ _ h
  put-IsSound (write_failed b s) p h = done-Leaves _ _ h
  put-IsSound (stopped b) p h = killed-Leaves _ h
  put-IsSound (stalled b) p h = hung-Leaves _ h

  file_write-IsSound : (b : Bytes) → Keeps (IsSound s₀) (file_write env b)
  unfolding file_write
  file_write-IsSound b p h = put-IsSound (writen (env.kernel.file_departures p.trace) b) p h

  start_store-IsSound :
      (fd : ℤ) (is_appe : Bool) (offset : ℕ)
      → Keeps (IsSound s₀) (start_store env fd is_appe offset)
  unfolding start_store
  start_store-IsSound fd is_appe offset p h =
      if-Leaves is_appe _ _ p
        (bind-Leaves _ _ (need-IsSound env s₀ _ p h) λ _ q h.
          option-Leaves (env.kernel.fstat q.trace fd) _ _ q (exited-Leaves _ _ h)
            λ s. done-Leaves _ _ h)
        (if-Leaves (offset == 0) _ _ p
          (bind-Leaves _ _ (sys-IsSound env s₀ _ p h) λ _ q h. done-Leaves _ _ h)
          (bind-Leaves _ _ (sys-IsSound env s₀ _ p h)
            λ _ q h. bind-Leaves _ _ (need-IsSound env s₀ _ q h) λ _ q h. done-Leaves _ _ h))

  upload_reply-IsSound : (flag : Flag) → Keeps (IsSound s₀) (upload_reply env flag)
  unfolding upload_reply
  upload_reply-IsSound complete p h = ftp_reply-IsSound env s₀ _ _ p h
  upload_reply-IsSound network_failed p h = ftp_reply-IsSound env s₀ _ _ p h
  upload_reply-IsSound file_failed p h = ftp_reply-IsSound env s₀ _ _ p h

  download_reply-IsSound : (whole : Bool) → Keeps (IsSound s₀) (download_reply env whole)
  unfolding download_reply
  download_reply-IsSound true p h = ftp_reply-IsSound env s₀ _ _ p h
  download_reply-IsSound false p h = ftp_reply-IsSound env s₀ _ _ p h

  module _ {W : Type 0} (d : Double W) where
    check_file-IsSound : (fd : ℤ) → Keeps (IsSound s₀) (check_file d env fd)
    unfolding check_file
    check_file-IsSound fd p h = bind-Leaves _ _ (lock_file_read-IsSound env s₀ fd p h) λ locked q h.
        bind-Leaves _ _
          (if-Leaves locked _ _ q (done-Leaves _ _ h) (ftp_reply-IsSound env s₀ _ _ q h))
          λ _ q h. option-Leaves (env.kernel.fstat q.trace fd) _ _ q (exited-Leaves _ _ h) λ s.
            bind-Leaves _ _
              (if-Leaves (is_regular s) _ _ q (done-Leaves _ _ h)
                (ftp_reply-IsSound env s₀ _ _ q h))
              λ _ q h. done-Leaves _ _ h

    store_block-IsSound :
        (b : Bytes) (next : M Flag)
        → Keeps (IsSound s₀) next
        → Keeps (IsSound s₀) (store_block d env b next)
    unfolding store_block
    store_block-IsSound b next sound p h = bind-Leaves _ _ (file_write-IsSound b p h) λ ok q h.
        if-Leaves ok _ _ q
          (bind-Leaves _ _ (limit_curr_rate-IsSound env s₀ d (length b) true q h)
            λ _ q h. sound q h)
          (done-Leaves _ _ h)

    upload_loop-IsSound :
        (s : List Arrival) (stream : Bytes) → Keeps (IsSound s₀) (upload_loop d env s stream)
    unfolding upload_loop
    upload_loop-IsSound [] stream p h = hung-Leaves _ h
    upload_loop-IsSound (Arrival.broken ∷ s) stream p h = done-Leaves _ _ h
    upload_loop-IsSound (Arrival.interrupted ∷ s) stream p h = upload_loop-IsSound s stream p h
    upload_loop-IsSound (up_to k ∷ s) [] p h = done-Leaves _ _ h
    upload_loop-IsSound (up_to k ∷ s) (c ∷ stream) p h =
        store_block-IsSound _ _ (upload_loop-IsSound s (drop (min (suc k) block) (c ∷ stream))) p h

    receive_into-IsSound :
        (fd : ℤ) (is_appe : Bool) → Keeps (IsSound s₀) (receive_into d env fd is_appe)
    unfolding receive_into
    receive_into-IsSound fd is_appe p h =
        bind-Leaves _ _ (start_store-IsSound fd is_appe p.sess.restart_pos p h) λ filesize q h.
          bind-Leaves _ _ (ftp_reply-IsSound env s₀ _ _ q h) λ _ q h.
            bind-Leaves _ _ (set_start_time-IsSound env s₀ q h) λ _ q h.
              bind-Leaves _ _
                (upload_loop-IsSound (env.kernel.data_arrivals q.trace) (env.kernel.data_in q.trace)
                  q h)
                λ flag q h. bind-Leaves _ _ (unlock_file-IsSound env s₀ fd q h) λ unlocked q h.
                  bind-Leaves _ _
                    (if-Leaves unlocked _ _ q (done-Leaves _ _ h) (exited-Leaves _ _ h))
                    λ _ q h. bind-Leaves _ _ (sys-IsSound env s₀ _ q h) λ _ q h.
                      bind-Leaves _ _ (sys-IsSound env s₀ _ q h) λ _ q h.
                        bind-Leaves _ _ (upload_reply-IsSound flag _ h) λ _ q h.
                          bind-Leaves _ _ (setup_signal_alarm_ctrl_fd-IsSound env s₀ q h)
                            λ _ q h. done-Leaves _ _ (flagged-IsSound s₀ 0 q (omega arith) h)

    check_and_receive-IsSound :
        (fd : ℤ) (is_appe : Bool) → Keeps (IsSound s₀) (check_and_receive d env fd is_appe)
    unfolding check_and_receive
    check_and_receive-IsSound fd is_appe p h =
        bind-Leaves _ _ (lock_file_write-IsSound env s₀ fd p h) λ ok q h.
          if-Leaves ok _ _ q
            (option-Leaves (env.kernel.fstat q.trace fd) _ _ q (exited-Leaves _ _ h) λ s.
              if-Leaves (is_regular s) _ _ q (receive_into-IsSound fd is_appe q h)
                (ftp_reply-IsSound env s₀ _ _ q h))
            (ftp_reply-IsSound env s₀ _ _ q h)

    upload_file-IsSound : (is_appe : Bool) → Keeps (IsSound s₀) (upload_file d env is_appe)
    unfolding upload_file
    upload_file-IsSound is_appe p h =
        bind-Leaves _ _
          (get_trans_data_fd-IsSound env s₀ (flagged 1 p) (flagged-IsSound s₀ 1 p (omega arith) h))
          λ _ q h. bind-Leaves _ _ (open_fd-IsSound env s₀ _ q h) λ fd q h.
            option-Leaves fd _ _ q (ftp_reply-IsSound env s₀ _ _ q h)
              λ n. check_and_receive-IsSound (pos n) is_appe q h

    after_send-IsSound :
        (b : Bytes) (left : ℕ) (next : M Bool)
        → Keeps (IsSound s₀) next
        → Keeps (IsSound s₀) (after_send d env b left next)
    unfolding after_send
    after_send-IsSound b left next sound p h =
        if-Leaves (left == 0) _ _ _ (done-Leaves _ _ h) (
          bind-Leaves _ _ (limit_curr_rate-IsSound env s₀ d (length b) false _ h)
            λ _ q h. sound q h)

    download_loop-IsSound :
        (s : List Arrival) (nleft : ℕ) (file : Bytes)
        → Keeps (IsSound s₀) (download_loop d env s nleft file)
    unfolding download_loop
    download_loop-IsSound [] nleft file p h = hung-Leaves _ h
    download_loop-IsSound (Arrival.broken ∷ s) nleft file p h =
        if-Leaves (env.kernel.raises_sigpipe p.trace) killed (done false) p (killed-Leaves _ h)
          (done-Leaves _ _ h)
    download_loop-IsSound (Arrival.interrupted ∷ s) nleft file p h =
        download_loop-IsSound s nleft file p h
    download_loop-IsSound (up_to k ∷ s) nleft file p h =
        let n : ℕ = min (suc k) (block_size nleft) in
        let left : ℕ = less32 nleft (length (take n file)) in
        after_send-IsSound (take n file) left _ (download_loop-IsSound s left (drop n file)) p h

    send_from-IsSound : (fd : ℤ) (s : Stat) → Keeps (IsSound s₀) (send_from d env fd s)
    unfolding send_from
    send_from-IsSound fd s p h = bind-Leaves _ _ (ftp_reply-IsSound env s₀ _ _ p h) λ _ q h.
        bind-Leaves _ _ (need-IsSound env s₀ _ q h) λ _ r h.
          bind-Leaves _ _ (set_start_time-IsSound env s₀ r h) λ _ t h.
            bind-Leaves _ _
              (download_loop-IsSound (env.kernel.sendfile t.trace) (s.st_size % 2 ^ 32)
                (drop (q.sess.restart_pos % 2 ^ 32) (env.kernel.content t.trace fd)) t h)
              λ whole q h. bind-Leaves _ _ (unlock_file-IsSound env s₀ fd q h) λ unlocked q h.
                bind-Leaves _ _ (if-Leaves unlocked _ _ q (done-Leaves _ _ h) (exited-Leaves _ _ h))
                  λ _ q h. bind-Leaves _ _ (sys-IsSound env s₀ _ q h) λ _ q h.
                    bind-Leaves _ _ (sys-IsSound env s₀ _ q h) λ _ q h.
                      bind-Leaves _ _ (download_reply-IsSound whole q h) λ _ q h.
                        bind-Leaves _ _ (setup_signal_alarm_ctrl_fd-IsSound env s₀ q h)
                          λ _ q h. done-Leaves _ _ (flagged-IsSound s₀ 0 q (omega arith) h)

    download_file-IsSound : Keeps (IsSound s₀) (download_file d env)
    unfolding download_file
    download_file-IsSound p h =
        bind-Leaves _ _
          (get_trans_data_fd-IsSound env s₀ (flagged 1 p) (flagged-IsSound s₀ 1 p (omega arith) h))
          λ _ q h. bind-Leaves _ _ (open_fd-IsSound env s₀ _ q h) λ fd q h.
            bind-Leaves _ _ (check_file-IsSound (descriptor d env fd) q h)
              λ s q h. send_from-IsSound (descriptor d env fd) s q h

    pub transfers-KeepSound : KeepSound s₀ (transfers d env)
    unfolding transfers
    transfers-KeepSound = record {
      pasv = do_pasv-IsSound env s₀;
      retr = download_file-IsSound;
      stor = upload_file-IsSound false;
      appe = upload_file-IsSound true;
      list = do_list-IsSound env s₀;
      nlst = do_nlst-IsSound env s₀;
    }
