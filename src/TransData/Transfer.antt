-- ===== src/TransData/Transfer.antt =====
-- `upload_file` and `download_file` of miniftpd/trans_data.c: STOR, APPE and RETR.
pub mod Events
pub mod Upload
pub mod Storing
pub mod Download
pub mod Retrieving
use mini_ftp.Base.{
  ℕ, zero, suc, ◌+◌, ◌-◌, ◌/◌, ◌%◌, ◌^◌, Bool, true, false, not, Option, none, some, List, [], ◌∷◌,
  ◌++◌, ltb, ◌==◌, if◌then◌else◌, min, Bytes, length, take, drop,
}
use mini_ftp.Base.Decimal.{decimal}
use mini_ftp.Base.Int.{ℤ, pos, negsuc, minus_one}
use mini_ftp.Base.Text.{codes}
use mini_ftp.Commands.Codes
use mini_ftp.Commands.Reply.{Env, snprintf, ftp_reply, sys}
use mini_ftp.Commands.Table.{Transfers}
use mini_ftp.Session.Kernel.{Stat}
use mini_ftp.Session.{
  Session, Call, open_write, open_read, fstat, ftruncate, seek_set, seek_end, close, Event, called,
  sent_data, file_data, Proc, Out, done, killed, hung, M, pure, ◌>>=◌, ◌>>◌, ask, modify, log, exit,
}
use mini_ftp.Sockets.{open_fd, need, lock_file_read, lock_file_write, unlock_file}
use mini_ftp.Sysutil.{Arrival, up_to, wrote, write_failed, stopped, stalled, writen}
use mini_ftp.TransCtrl.{setup_signal_alarm_ctrl_fd, Double, set_start_time, limit_curr_rate}
use mini_ftp.TransData.Listing.{do_list, do_nlst}
use mini_ftp.TransData.{get_trans_data_fd, do_pasv}

-- How a transfer ends: `flag` 0, 1 and 2.
pub data Flag : Type 0 where
  complete network_failed file_failed : Flag

abbrev pub is_regular : Stat → Bool
is_regular s = s.st_mode / 2 ^ 12 % 16 == 8

-- The size of the array of a transfer.
abbrev pub block : ℕ
block = 63356

unfoldable pub signed64 : ℕ → ℤ
signed64 n = if ltb n (2 ^ 63) then pos n else negsuc (2 ^ 64 - n - 1)

unfoldable pub upload_text : Bytes → Bytes → ℕ → Bytes
upload_text mode name size = snprintf 1024 (
    codes "Opening "
    ++ (mode
        ++ (codes " mode data connection for "
            ++ (name ++ (codes " (" ++ (decimal size ++ codes " bytes)."))))))

module _ (env : Env) where
  -- Whether `writen` into the file returned the count.
  unfoldable pub file_write : Bytes → M Bool
  file_write buf p = elim (writen (env.kernel.file_departures p.trace) buf) [
    | wrote b s ↦ done true (record p { trace = file_data b ∷ p.trace })
    | write_failed b s ↦ done false (record p { trace = file_data b ∷ p.trace })
    | stopped b ↦ killed (record p { trace = file_data b ∷ p.trace })
    | stalled b ↦ hung (record p { trace = file_data b ∷ p.trace })
  ]

  -- Where the file is written from, and the size that the reply shows. `restart_pos` is 64 bits, read
  -- as a signed number.
  unfoldable pub start_store : ℤ → Bool → ℕ → M ℕ
  unfolding signed64
  start_store fd is_appe offset =
      if is_appe
      then (do
        need env (seek_end fd)
        found ← ask (λ p. env.kernel.fstat p.trace fd)
        elim found [ none ↦ exit 1 | some s ↦ pure s.st_size ])
      else if offset == 0
      then (do _ ← sys env (ftruncate fd (pos 0)); pure 0)
      else (do
        _ ← sys env (ftruncate fd (signed64 offset))
        need env (seek_set fd (signed64 offset))
        pure offset)

  unfoldable pub upload_reply : Flag → M (Unit {0})
  upload_reply complete = ftp_reply env Codes.transfer_ok (codes "Transfer complete.")
  upload_reply network_failed =
      ftp_reply env Codes.bad_send_net (codes "Reading from Network Failed.")
  upload_reply file_failed = ftp_reply env Codes.bad_send_file (codes "Writing to File Failed.")

module _ {W : Type 0} (d : Double W) (env : Env) where
  -- Behind a `read` of at least one byte; `next` is the rest of the loop.
  unfoldable pub store_block : Bytes → M Flag → M Flag
  unfolding file_write
  store_block buf next = do
    ok ← file_write env buf
    if ok then (do limit_curr_rate d env (length buf) true; next) else pure file_failed

  -- The `while` of `upload_file`, on what arrives on the data connection.
  unfoldable pub upload_loop : List Arrival → Bytes → M Flag
  unfolding store_block
  upload_loop [] stream p = hung p
  upload_loop (Arrival.broken ∷ s) stream p = done network_failed p
  upload_loop (Arrival.interrupted ∷ s) stream p = upload_loop s stream p
  upload_loop (up_to k ∷ s) [] p = done complete p
  upload_loop (up_to k ∷ s) (c ∷ stream) p =
      let n = min (suc k) block in
      store_block (take n (c ∷ stream)) (upload_loop s (drop n (c ∷ stream))) p

  -- Behind the checks on the file.
  unfoldable pub receive_into : ℤ → Bool → M (Unit {0})
  unfolding upload_loop
  receive_into fd is_appe = do
    offset ← ask (λ p. p.sess.restart_pos)
    filesize ← start_store env fd is_appe offset
    args ← ask (λ p. p.sess.args)
    ascii ← ask (λ p. p.sess.ascii_mode == 1)
    ftp_reply env Codes.data_conn
        (upload_text (if ascii then codes "ASCII" else codes "Binary") args filesize)
    set_start_time env
    stream ← ask (λ p. env.kernel.data_in p.trace)
    schedule ← ask (λ p. env.kernel.data_arrivals p.trace)
    flag ← upload_loop schedule stream
    unlocked ← unlock_file env fd
    if unlocked then pure tt else exit 1
    _ ← sys env (close fd)
    data_fd ← ask (λ p. p.sess.data_fd)
    _ ← sys env (close data_fd)
    modify (λ s. record s { data_fd = minus_one })
    upload_reply env flag
    setup_signal_alarm_ctrl_fd env
    modify (λ s. record s { is_translating_data = 0 })

  -- The file is open. The data connection stays open where this returns early.
  unfoldable pub check_and_receive : ℤ → Bool → M (Unit {0})
  unfolding receive_into
  check_and_receive fd is_appe = do
    ok ← lock_file_write env fd
    if ok
        then (do
          found ← ask (λ p. env.kernel.fstat p.trace fd)
          elim found [
            | none ↦ exit 1
            | some s ↦
                if is_regular s
                then receive_into fd is_appe
                else ftp_reply env Codes.upload_fail (codes "Can only upload regular file.")
          ])
        else ftp_reply env Codes.upload_fail (codes "Failed to lock file.")

  unfoldable pub upload_file : Bool → M (Unit {0})
  unfolding check_and_receive
  upload_file is_appe = do
    modify (λ s. record s { is_translating_data = 1 })
    get_trans_data_fd env
    args ← ask (λ p. p.sess.args)
    fd ← open_fd env (open_write args)
    elim fd [
      | none ↦ ftp_reply env Codes.upload_fail (codes "Failed to open file.")
      | some n ↦ check_and_receive (pos n) is_appe
    ]

-- The count that `sendfile` is given: an `int`, and a huge number where it is negative.
abbrev pub block_size : ℕ → ℕ
block_size nleft =
    if ltb nleft (2 ^ 31)
    then (if ltb block nleft then block else nleft)
    else nleft + (2 ^ 64 - 2 ^ 32)

-- `nleft -= nwrite` on 32 bits.
abbrev pub less32 : ℕ → ℕ → ℕ
less32 nleft n = (nleft + 2 ^ 32 - n % 2 ^ 32) % 2 ^ 32

abbrev pub signed32 : ℕ → ℤ
signed32 n = let w = n % 2 ^ 32 in if ltb w (2 ^ 31) then pos w else negsuc (2 ^ 32 - w - 1)

unfoldable pub download_text : Bytes → Bytes → ℕ → Bytes
download_text mode name size = snprintf 1024 (
    codes "Opening "
    ++ (mode
        ++ (codes " mode data connection for "
            ++ (name ++ (b'(' ∷ (decimal size ++ codes " bytes)"))))))

-- The result of a failed transfer is said to be complete too.
unfoldable pub download_reply : Env → Bool → M (Unit {0})
download_reply env true = ftp_reply env Codes.transfer_ok (codes "Transfer complete.")
download_reply env false = ftp_reply env Codes.file_fail (codes "Transfer complete.")

module _ {W : Type 0} (d : Double W) (env : Env) where
  -- Behind a `sendfile` that did not fail; `next` is the rest of the loop.
  unfoldable pub after_send : Bytes → ℕ → M Bool → M Bool
  after_send sent nleft next = do
    log (sent_data sent)
    if nleft == 0 then pure true else (do limit_curr_rate d env (length sent) false; next)

  -- The `while` of `download_file`, on the bytes of the file behind its position: whether `flag` is 0.
  -- A `sendfile` on a connection whose other side is gone raises SIGPIPE.
  unfoldable pub download_loop : List Arrival → ℕ → Bytes → M Bool
  unfolding after_send
  download_loop [] nleft file p = hung p
  download_loop (Arrival.broken ∷ s) nleft file p =
      let failure : M Bool = if env.kernel.raises_sigpipe p.trace then killed else done false in
      failure p
  download_loop (Arrival.interrupted ∷ s) nleft file p = download_loop s nleft file p
  download_loop (up_to k ∷ s) nleft file p =
      let n = min (suc k) (block_size nleft) in
      let sent = take n file in
      let left = less32 nleft (length sent) in
      after_send sent left (download_loop s left (drop n file)) p

  -- Neither a lock that fails nor a file that is not regular ends the command.
  unfoldable pub check_file : ℤ → M Stat
  check_file fd = do
    locked ← lock_file_read env fd
    if locked then pure tt else ftp_reply env Codes.file_fail (codes "Failed to open file.")
    found ← ask (λ p. env.kernel.fstat p.trace fd)
    elim found [
      | none ↦ exit 1
      | some s ↦ do
        if is_regular s
            then pure tt
            else ftp_reply env Codes.file_fail (codes "Can only open regular file.")
        pure s
    ]

  unfoldable pub send_from : ℤ → Stat → M (Unit {0})
  unfolding download_loop download_reply
  send_from fd s = do
    args ← ask (λ p. p.sess.args)
    ascii ← ask (λ p. p.sess.ascii_mode == 1)
    ftp_reply env Codes.data_conn
        (download_text (if ascii then codes "ASCII" else codes "binary") args s.st_size)
    offset ← ask (λ p. p.sess.restart_pos)
    need env (seek_set fd (signed32 offset))
    set_start_time env
    schedule ← ask (λ p. env.kernel.sendfile p.trace)
    file ← ask (λ p. env.kernel.content p.trace fd)
    whole ← download_loop schedule (s.st_size % 2 ^ 32) (drop (offset % 2 ^ 32) file)
    unlocked ← unlock_file env fd
    if unlocked then pure tt else exit 1
    data_fd ← ask (λ p. p.sess.data_fd)
    _ ← sys env (close data_fd)
    _ ← sys env (close fd)
    download_reply env whole
    setup_signal_alarm_ctrl_fd env
    modify (λ s. record s { is_translating_data = 0 })

  abbrev pub descriptor : Option ℕ → ℤ
  descriptor none = minus_one
  descriptor (some n) = pos n

  unfoldable pub download_file : M (Unit {0})
  unfolding check_file send_from
  download_file = do
    modify (λ s. record s { is_translating_data = 1 })
    get_trans_data_fd env
    args ← ask (λ p. p.sess.args)
    fd ← open_fd env (open_read args)
    s ← check_file (descriptor fd)
    send_from (descriptor fd) s

  -- The commands on a data connection, as the table of the commands takes them.
  unfoldable pub transfers : Transfers
  unfolding upload_file download_file
  transfers = record {
    do_pasv = do_pasv env;
    do_retr = download_file;
    do_stor = upload_file d env false;
    do_appe = upload_file d env true;
    do_list = do_list env;
    do_nlst = do_nlst env;
  }
