-- ===== src/Commands/Reply.antt =====
-- `ftp_reply` and `ftp_lreply` of miniftpd/command_map.c, and what the commands ask of the system.
use mini_ftp.Base.{ℕ, ◌-◌, Bool, Option, List, [], ◌∷◌, ◌++◌, Bytes, take}
use mini_ftp.Base.Decimal.{decimal}
use mini_ftp.Config.{Config}
use mini_ftp.Sysutil.{Departure, wrote, write_failed, stopped, stalled, writen}
use mini_ftp.Session.Kernel.{Kernel}
use mini_ftp.Session.{Call, Event, called, sent, done, killed, hung, M}

pub record Passwd : Type 0 where
  pub pw_name : Bytes
  pub pw_uid : ℕ
  pub pw_gid : ℕ
  pub pw_dir : Bytes

-- The tunables, and the answers of the system and of the C library. What can change over time is a
-- function of the events so far. `crypt` returns NULL for a salt that it does not know, and
-- `getcwd` for a path that does not fit its buffer.
pub record Env : Type 0 where
  pub config : Config
  pub departures : List Event → List Departure
  pub getpwnam : List Event → Bytes → Option Passwd
  pub getpwuid : List Event → ℕ → Option Passwd
  pub getspnam : List Event → Bytes → Option Bytes
  pub crypt : Bytes → Bytes → Option Bytes
  pub succeeds : List Event → Call → Bool
  pub getcwd : List Event → Option Bytes
  -- The 64 bits that `atoll` returns, and the six numbers that `sscanf` leaves in `v`.
  pub atoll : Bytes → ℕ
  pub scan_port : Bytes → ℕ → ℕ
  pub kernel : Kernel

-- `snprintf` into an array of `size` bytes.
abbrev pub snprintf : ℕ → Bytes → Bytes
snprintf size text = take (size - 1) text

abbrev pub crlf : Bytes
crlf = 13 ∷ 10 ∷ []

module _ (env : Env) where
  -- `writen` on the control connection. The commands do not read its result. SIGPIPE, which the
  -- server does not ignore, ends the process.
  unfoldable pub control_write : Bytes → M (Unit {0})
  control_write buf p = elim (writen (env.departures p.trace) buf) [
    | wrote b s ↦ done tt (record p { trace = sent b ∷ p.trace })
    | write_failed b s ↦ done tt (record p { trace = sent b ∷ p.trace })
    | stopped b ↦ killed (record p { trace = sent b ∷ p.trace })
    | stalled b ↦ hung (record p { trace = sent b ∷ p.trace })
  ]

  -- `%d %s\r\n` and `%d-%s\r\n`, through an array of 1024 bytes.
  unfoldable pub ftp_reply : ℕ → Bytes → M (Unit {0})
  ftp_reply status text = control_write (snprintf 1024 (decimal status ++ (b' ' ∷ (text ++ crlf))))

  unfoldable pub ftp_lreply : ℕ → Bytes → M (Unit {0})
  ftp_lreply status text = control_write (snprintf 1024 (decimal status ++ (b'-' ∷ (text ++ crlf))))

  -- A call that returns 0 or -1.
  unfoldable pub sys : Call → M Bool
  sys c p = done (env.succeeds p.trace c) (record p { trace = called c ∷ p.trace })
