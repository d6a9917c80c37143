-- ===== src/Session/Monad.antt =====
-- The session of miniftpd/session.h with the calls made so far, and computations on it.
use mini_ftp.Base.{ℕ, ◌≡◌, refl, Option, none, List, [], ◌∷◌, Bytes}
use mini_ftp.Base.Int.{ℤ, minus_one}
use mini_ftp.Config.{Config}
use mini_ftp.Sysutil.{Arrival, Departure}

-- `struct sockaddr_in`: the port as a number, and the four bytes of the address.
pub record SockAddr : Type 0 where
  pub port : ℕ
  pub addr : Bytes

-- `command`, `comm` and `args` are the C strings in the three arrays.
pub record Session : Type 0 where
  pub peerfd : ℤ
  pub nobody_fd : ℤ
  pub proto_fd : ℤ
  pub command : Bytes
  pub comm : Bytes
  pub args : Bytes
  pub user_uid : ℕ
  pub ascii_mode : ℕ
  pub p_addr : Option SockAddr
  pub data_fd : ℤ
  pub listen_fd : ℤ
  pub restart_pos : ℕ
  pub rnfr_name : Option Bytes
  pub limits_max_upload : ℕ
  pub limits_max_download : ℕ
  pub start_time_sec : ℕ
  pub start_time_usec : ℕ
  pub is_translating_data : ℕ
  pub curr_clients : ℕ
  pub curr_ip_clients : ℕ

unfoldable pub session_init : Config → Session
session_init c = record {
  peerfd = minus_one;
  nobody_fd = minus_one;
  proto_fd = minus_one;
  command = [];
  comm = [];
  args = [];
  user_uid = 0;
  ascii_mode = 0;
  p_addr = none;
  data_fd = minus_one;
  listen_fd = minus_one;
  restart_pos = 0;
  rnfr_name = none;
  limits_max_upload = c.upload_max_rate;
  limits_max_download = c.download_max_rate;
  start_time_sec = 0;
  start_time_usec = 0;
  is_translating_data = 0;
  curr_clients = 0;
  curr_ip_clients = 0;
}

-- The system calls of the two processes of a client. `umask` and `alarm` cannot fail.
pub data Call : Type 0 where
  setegid seteuid : ℕ → Call
  umask alarm : ℕ → Call
  chdir mkdir rmdir unlink : Bytes → Call
  rename : Bytes → Bytes → Call
  -- `getpwnam` of nobody is no call here; `capset` keeps CAP_NET_BIND_SERVICE.
  socket capset : Call
  socketpair : Call
  -- `signal` for SIGALRM, with one of the two handlers of miniftpd/trans_ctrl.c.
  signal_ctrl_fd signal_data_fd : Call
  setsockopt fcntl_getfl set_nonblock clear_nonblock ioctl listen accept close : ℤ → Call
  bind connect : ℤ → SockAddr → Call
  sendmsg : ℤ → Call
  shut_rd shut_wr : ℤ → Call
  open_write open_read : Bytes → Call
  lock_read lock_write unlock fstat seek_end : ℤ → Call
  ftruncate seek_set : ℤ → ℤ → Call
  opendir : Call
  lstat readlink : Bytes → Call

-- What the process has done: a call, or bytes that went out on the control connection.
pub data Event : Type 0 where
  called : Call → Event
  sent : Bytes → Event
  -- On the data connection, and into a file; a sleep, in seconds and nanoseconds.
  sent_data file_data : Bytes → Event
  slept : ℤ → ℤ → Event

-- One end of the socket between the two processes of a client: the bytes and the descriptors that
-- arrive, how the kernel lets them in and out, and what has been sent.
pub record Wire : Type 0 where
  pub inbox : Bytes
  pub passed : List ℕ
  pub arrivals : List Arrival
  -- What the calls of `recvmsg` come to.
  pub receipts : List Arrival
  pub outbox : Bytes
  pub handed : List ℤ
  pub departures : List Departure

-- The session, the events, the newest first, the end of the socket, and the static array `perms` of
-- miniftpd/trans_data.c.
pub record Proc : Type 0 where
  pub sess : Session
  pub trace : List Event
  pub wire : Wire
  pub perms : Bytes

-- A computation returns, leaves by `exit`, is ended by a signal (SIGPIPE), is stuck in a call that
-- does not return, or faults: a read through a null pointer, or a write past the end of an array.
pub data Out (A : Type 0) : Type 0 where
  done : A → Proc → Out A
  exited : ℕ → Proc → Out A
  killed : Proc → Out A
  hung : Proc → Out A
  faulted : Proc → Out A

abbrev pub M : Type 0 → Type 0
M A = Proc → Out A

abbrev pub pure : {A : Type 0} → A → M A
pure a p = done a p

infixl 5 ◌>>=◌ ◌>>◌
abbrev pub ◌>>=◌ : {A B : Type 0} → M A → (A → M B) → M B
◌>>=◌ m f p = elim (m p) [
  | done a q ↦ f a q
  | exited n q ↦ exited n q
  | killed q ↦ killed q
  | hung q ↦ hung q
  | faulted q ↦ faulted q
]

abbrev pub ◌>>◌ : {B : Type 0} → M (Unit {0}) → M B → M B
m >> k = m >>= λ _. k

abbrev pub modify : (Session → Session) → M (Unit {0})
modify f p = done tt (record p { sess = f p.sess })

-- What the state shows, with no effect.
abbrev pub ask : {A : Type 0} → (Proc → A) → M A
ask f p = done (f p) p

abbrev pub log : Event → M (Unit {0})
log e p = done tt (record p { trace = e ∷ p.trace })

abbrev pub exit : {A : Type 0} → ℕ → M A
exit n p = exited n p

abbrev pub fault : {A : Type 0} → M A
fault p = faulted p

-- A computation that returns hands its result on.
pub bind-done :
    {A B : Type 0} (m : M A) (k : A → M B) (p : Proc) {a : A} {q : Proc}
    → m p ≡ done a q
    → (m >>= k) p ≡ k a q
bind-done m k p e = rw (◌>>=◌, e) refl

pub seq-done :
    {B : Type 0} (m : M (Unit {0})) (k : M B) (p : Proc) {q : Proc}
    → m p ≡ done tt q
    → (m >> k) p ≡ k q
seq-done m k p e = bind-done m (λ _. k) p e
