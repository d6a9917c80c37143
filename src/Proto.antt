-- ===== src/Proto.antt =====
-- miniftpd/ftp_proto.c: `handle_proto`, which reads the lines of a client and runs their commands.
pub mod Lines
pub mod Sound
pub mod Serve
pub mod Script
pub mod Steps
pub mod Sessions
mod Tests
use mini_ftp.Base.{
  ℕ, zero, suc, ◌-◌, ◌/◌, ◌%◌, ◌^◌, Option, none, some, List, [], ◌∷◌, if◌then◌else◌, same_bytes,
  Bytes, length,
}
use mini_ftp.Base.Int.{ℤ, pos, negsuc}
use mini_ftp.Base.Text.{codes, c_str, terminated, zeros}
use mini_ftp.Commands.Codes
use mini_ftp.Commands.Reply.{Env, ftp_reply}
use mini_ftp.Commands.Table.{Transfers, do_command_map}
use mini_ftp.Session.{Session, Out, M, exit, ◌>>=◌, ◌>>◌, ask, modify, fault}
use mini_ftp.Strutil.{str_trim_crlf, str_split}
use mini_ftp.Sysutil.{Arrival, Line, line, ended, broke, readline}
use mini_ftp.TransCtrl.{setup_signal_alarm_ctrl_fd, start_signal_alarm_ctrl_fd}

-- The bytes of `proto_fd`, which lie in front of `command` in the session, the nearest first.
unfoldable pub descriptor_bytes : ℤ → Bytes
descriptor_bytes (pos n) =
    (n / 2 ^ 24 % 256) ∷ (n / 2 ^ 16 % 256) ∷ (n / 2 ^ 8 % 256) ∷ (n % 256) ∷ []
descriptor_bytes (negsuc n) =
    (255 - n / 2 ^ 24 % 256)
    ∷ (255 - n / 2 ^ 16 % 256)
    ∷ (255 - n / 2 ^ 8 % 256)
    ∷ (255 - n % 256)
    ∷ []

-- `comm` and `args` are clear. A verb that fills all of `comm` has no NUL, and a reader of it runs
-- into `args`: that is a fault too.
unfoldable pub split_command : Bytes → M (Unit {0})
split_command text = elim (str_split text (zeros 512) (zeros 512) b' ') [
  | none ↦ fault
  | some (comm, args) ↦
      if terminated comm
      then modify (λ s. record s { command = text; comm = c_str comm; args = c_str args })
      else fault
]

-- From the return of `readline`, with the bytes that it put into `command`, to `str_split`. A
-- trimming that changes `proto_fd` is a fault.
unfoldable pub take_command : Bytes → M (Unit {0})
unfolding split_command descriptor_bytes
take_command buf = do
  before ← ask (λ p. descriptor_bytes p.sess.proto_fd)
  if same_bytes (str_trim_crlf before (c_str buf)).0 before
      then split_command (str_trim_crlf before (c_str buf)).1
      else fault

unfoldable pub clean_command : M (Unit {0})
clean_command = modify (λ s. record s { command = []; comm = []; args = [] })

-- The body of the loop behind `readline`.
unfoldable pub handle_line : Env → Transfers → Bytes → M (Unit {0})
unfolding take_command clean_command
handle_line env transfers buf = do take_command buf; do_command_map env transfers; clean_command

-- One round of the `while`, on what `readline` came to; `next` is the rest of the loop.
unfoldable pub proto_round :
    Env → Transfers → Line → (List Arrival → Bytes → M (Unit {0})) → M (Unit {0})
proto_round env transfers (line buf rest s) next = do handle_line env transfers buf; next s rest
proto_round env transfers ended next = exit 0
proto_round env transfers broke next = exit 1
proto_round env transfers Line.hung next = λ p. Out.hung p

-- The control connection is what arrives, with the schedule of the kernel. A round that goes on has
-- taken at least one byte, so that one round more than bytes is enough fuel.
unfoldable pub proto_loop : Env → Transfers → ℕ → List Arrival → Bytes → M (Unit {0})
unfolding proto_round
proto_loop env transfers zero schedule stream = λ p. Out.hung p
proto_loop env transfers (suc fuel) schedule stream = do
  start_signal_alarm_ctrl_fd env
  proto_round env transfers (readline schedule stream 1024) (proto_loop env transfers fuel)

-- In front of the loop.
unfoldable pub greet_client : Env → M (Unit {0})
greet_client env = do
  ftp_reply env Codes.greet (codes "FTP Server 1.0")
  setup_signal_alarm_ctrl_fd env

unfoldable pub handle_proto : Env → Transfers → List Arrival → Bytes → M (Unit {0})
unfolding proto_loop greet_client
handle_proto env transfers schedule stream = do
  greet_client env
  proto_loop env transfers (suc (length stream)) schedule stream
