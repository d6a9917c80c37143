-- ===== src/Session/Kernel.antt =====
-- What the processes of a client ask of the kernel and of the C library besides single calls. What
-- can change over time is a function of the events so far.
use mini_ftp.Base.{ℕ, Bool, Option, List, Bytes}
use mini_ftp.Base.Int.{ℤ}
use mini_ftp.Clients.{Tables}
use mini_ftp.Session.{Call, Event}
use mini_ftp.Sysutil.{Arrival, Departure}

-- What `select` on one descriptor returns: it is ready, the time is over, or the call fails.
pub data Selected : Type 0 where
  ready timed_out failed : Selected

pub data Wait : Type 0 where
  interrupted : Wait
  returns : Selected → Wait

pub data Connecting : Type 0 where
  connected in_progress refused : Connecting

-- One call of `fcntl` with F_SETLKW.
pub data Lock : Type 0 where
  interrupted locked refused : Lock

-- `struct stat`, the 16 bits of its mode and the numbers that the listing shows.
pub record Stat : Type 0 where
  pub st_mode : ℕ
  pub st_nlink : ℕ
  pub st_uid : ℕ
  pub st_gid : ℕ
  pub st_size : ℕ
  pub st_ctime : ℕ

pub record Kernel : Type 0 where
  -- The descriptor that a call returns, or -1.
  pub descriptor : List Event → Call → Option ℕ
  -- The two ends that `socketpair` returns.
  pub socketpair : List Event → Option (ℕ × ℕ)
  -- The results of `select`, until it is not interrupted.
  pub waits : List Event → List Wait
  pub connects : List Event → Connecting
  -- SO_ERROR of `getsockopt`, and the port of `getsockname`.
  pub socket_error : List Event → Option ℕ
  pub bound_port : List Event → Option ℕ
  -- F_SETLKW, until it is not interrupted.
  pub locks : List Event → List Lock
  -- The address of eth0, and the calls on addresses as texts.
  pub interface_addr : List Event → Bytes
  pub inet_ntoa : Bytes → Bytes
  pub inet_addr : Bytes → Bytes
  pub inet_aton : Bytes → Option Bytes
  pub gethostbyname : List Event → Bytes → Option Bytes
  -- The four numbers that `sscanf` finds in an address.
  pub scan_ip : Bytes → ℕ → ℕ
  -- `gettimeofday`.
  pub gettimeofday : List Event → Option (ℕ × ℕ)
  -- `nanosleep`, until it is not interrupted: `failed` is -1.
  pub naps : List Event → List Wait
  -- The names that `readdir` returns, the entries of the directory, and `strftime` of a time.
  pub readdir : List Event → List Bytes
  pub lstat : List Event → Bytes → Option Stat
  pub readlink : List Event → Bytes → Option Bytes
  pub date_text : ℕ → Option Bytes
  -- An open file, and its bytes.
  pub fstat : List Event → ℤ → Option Stat
  pub content : List Event → ℤ → Bytes
  -- What arrives on the data connection, and how the kernel lets it in; how it takes bytes for the
  -- data connection by `write` and by `sendfile`, and for a file.
  pub data_in : List Event → Bytes
  pub data_arrivals : List Event → List Arrival
  pub data_departures : List Event → List Departure
  pub sendfile : List Event → List Arrival
  -- Whether a `sendfile` or a `sendmsg` that fails raises SIGPIPE.
  pub raises_sigpipe : List Event → Bool
  pub file_departures : List Event → List Departure
  -- The tables that the process of the data connections has inherited from the server, and the
  -- children that `waitpid` returns there where SIGCHLD comes in front of the read of a command, with
  -- that many bytes still to be read; none where no signal comes.
  pub inherited : Tables
  pub reaped : List Event → ℕ → List ℕ
