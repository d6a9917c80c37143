-- ===== src/Proto/Sound.antt =====
-- What the loop of miniftpd/ftp_proto.c keeps, for any bytes that a client sends.
use mini_ftp.Base.{ℕ, zero, suc, List, Bytes, length, same_bytes}
use mini_ftp.Base.Text.{codes, c_str, terminated, zeros}
use mini_ftp.Commands.Codes
use mini_ftp.Commands.Reply.{Env}
use mini_ftp.Commands.Sound.{IsSound, ftp_reply-IsSound}
use mini_ftp.Commands.Sound.Table.{KeepSound, do_command_map-IsSound}
use mini_ftp.Commands.Table.{Transfers}
use mini_ftp.Proto.{
  greet_client, descriptor_bytes, split_command, take_command, clean_command, handle_line,
  proto_round, proto_loop, handle_proto,
}
use mini_ftp.Session.Invariant.{
  Keeps, bind-Leaves, if-Leaves, option-Leaves, done-Leaves, exited-Leaves, hung-Leaves,
  faulted-Leaves,
}
use mini_ftp.Session.{Session, M}
use mini_ftp.Strutil.{str_split, str_trim_crlf}
use mini_ftp.Sysutil.{Arrival, Line, line, ended, broke, readline}
use mini_ftp.TransCtrl.{Double}
use mini_ftp.TransCtrl.Sound.{
  setup_signal_alarm_ctrl_fd-IsSound, start_signal_alarm_ctrl_fd-IsSound,
}
use mini_ftp.TransData.Sound.Transfer.{transfers-KeepSound}
use mini_ftp.TransData.Transfer.{transfers}

module _ (env : Env) (t : Transfers) (s₀ : Session) (keep : KeepSound s₀ t) where
  split_command-IsSound : (text : Bytes) → Keeps (IsSound s₀) (split_command text)
  unfolding split_command
  split_command-IsSound text p h =
      option-Leaves (str_split text (zeros 512) (zeros 512) b' ') _ _ p (faulted-Leaves _ h)
        λ parts. if-Leaves (terminated parts.0) _ _ p (done-Leaves _ _ h) (faulted-Leaves _ h)

  take_command-IsSound : (buf : Bytes) → Keeps (IsSound s₀) (take_command buf)
  unfolding take_command
  take_command-IsSound buf p h =
      let before = descriptor_bytes p.sess.proto_fd in
      if-Leaves (same_bytes (str_trim_crlf before (c_str buf)).0 before) _ _ p
        (split_command-IsSound _ p h) (faulted-Leaves _ h)

  handle_line-IsSound : (buf : Bytes) → Keeps (IsSound s₀) (handle_line env t buf)
  unfolding handle_line clean_command
  handle_line-IsSound buf p h =
      bind-Leaves _ _ (take_command-IsSound buf p h) λ _ q k.
        bind-Leaves _ _ (do_command_map-IsSound env s₀ t keep q k) λ _ r l. done-Leaves _ _ l

  proto_round-IsSound :
      (l : Line) (next : List Arrival → Bytes → M (Unit {0}))
      → ((s : List Arrival) (rest : Bytes) → Keeps (IsSound s₀) (next s rest))
      → Keeps (IsSound s₀) (proto_round env t l next)
  unfolding proto_round
  proto_round-IsSound (line buf rest s) next k p h =
      bind-Leaves _ _ (handle_line-IsSound buf p h) λ _ q l. k s rest q l
  proto_round-IsSound ended next k p h = exited-Leaves _ _ h
  proto_round-IsSound broke next k p h = exited-Leaves _ _ h
  proto_round-IsSound Line.hung next k p h = hung-Leaves _ h

  proto_loop-IsSound :
      (fuel : ℕ) (schedule : List Arrival) (stream : Bytes)
      → Keeps (IsSound s₀) (proto_loop env t fuel schedule stream)
  unfolding proto_loop
  proto_loop-IsSound zero schedule stream p h = hung-Leaves _ h
  proto_loop-IsSound (suc fuel) schedule stream p h =
      bind-Leaves _ _ (start_signal_alarm_ctrl_fd-IsSound env s₀ p h)
        λ _ q k. proto_round-IsSound (readline schedule stream 1024) _ (proto_loop-IsSound fuel) q k

pub greet_client-IsSound : (env : Env) (s₀ : Session) → Keeps (IsSound s₀) (greet_client env)
unfolding greet_client
greet_client-IsSound env s₀ p h =
    bind-Leaves _ _ (ftp_reply-IsSound env s₀ Codes.greet (codes "FTP Server 1.0") p h)
      λ _ q k. setup_signal_alarm_ctrl_fd-IsSound env s₀ q k

-- For all bytes that a client sends, and however the kernel cuts them into pieces: in whatever state
-- the loop on its commands stops, in a command or between two, the descriptors of the control
-- connection and of the socket to the other process are those of the start, and the transfer mode
-- and the mark of a running transfer are 0 or 1, if they are at the start.
pub handle_proto-IsSound :
    {W : Type 0} (d : Double W) (env : Env) (s₀ : Session) (schedule : List Arrival)
    (stream : Bytes)
    → Keeps (IsSound s₀) (handle_proto env (transfers d env) schedule stream)
unfolding handle_proto
handle_proto-IsSound d env s₀ schedule stream p h =
    bind-Leaves _ _ (greet_client-IsSound env s₀ p h) λ _ q k.
      proto_loop-IsSound env (transfers d env) s₀ (transfers-KeepSound env s₀ d)
        (suc (length stream)) schedule stream q k
