-- ===== src/Commands/Sample.antt =====
-- A system with one user, to run the commands of miniftpd/command_map.c on.
use mini_ftp.Base.{
  ℕ, zero, suc, ◌≡◌, refl, true, false, none, some, List, [], ◌∷◌, arith, if◌then◌else◌, ◌==◌,
  Bytes, length, all, inr, ◌+◌,
}
use mini_ftp.Base.Text.{codes}
use mini_ftp.Clients.{init_hash}
use mini_ftp.Commands.Framing.{Delivers}
use mini_ftp.Commands.Login.{Succeeds}
use mini_ftp.Commands.Reply.{Passwd, Env}
use mini_ftp.Commands.Table.{Transfers}
use mini_ftp.Config.{default_config}
use mini_ftp.PrivSock.Transport.{Sends, Hears}
use mini_ftp.Session.Kernel.{Kernel, Stat, ready, returns, in_progress, locked}
use mini_ftp.Session.{Wire, Proc, pure, session_init}
use mini_ftp.Sockets.Connect.{Grants}
use mini_ftp.Sysutil.Reading.{read_ok, looks}
use mini_ftp.Sysutil.Writing.{write_ok, takes}
use mini_ftp.Sysutil.{Arrival, up_to, Departure, accepts}

-- A kernel that takes one byte at a time, `n` times.
abbrev pub one_by_one : ℕ → List Departure
one_by_one zero = []
one_by_one (suc n) = accepts 1 ∷ one_by_one n

abbrev pub byte_by_byte : ℕ → List Arrival
byte_by_byte zero = []
byte_by_byte (suc n) = up_to 0 ∷ byte_by_byte n

one_by_one_ok : (n : ℕ) → (all write_ok (one_by_one n) ≡ true) × (takes (one_by_one n) ≡ n)
one_by_one_ok zero = (refl, refl)
one_by_one_ok (suc n) = ground (arith, one_by_one_ok n)

pub one_by_one-Sends : (n : ℕ) → Sends n (one_by_one n)
one_by_one-Sends n =
    let (calm, all_taken) = one_by_one_ok n in
    record { calm = calm; enough = omega (arith, all_taken) }

byte_by_byte_ok : (n : ℕ) → (all read_ok (byte_by_byte n) ≡ true) × (looks (byte_by_byte n) ≡ n)
byte_by_byte_ok zero = (refl, refl)
byte_by_byte_ok (suc n) = ground (arith, byte_by_byte_ok n)

pub byte_by_byte-Hears : (n : ℕ) → Hears n (byte_by_byte n)
byte_by_byte-Hears n =
    let (calm, all_read) = byte_by_byte_ok n in
    record { calm = calm; enough = omega (arith, all_read) }

-- A file of five bytes, with mode 0644.
abbrev pub regular : Stat
regular = record {
  st_mode = 0o100644;
  st_nlink = 1;
  st_uid = 500;
  st_gid = 100;
  st_size = 5;
  st_ctime = 0;
}

-- Each new descriptor is one that was never there before, and a connection is waited for.
abbrev pub network : Kernel
network = record {
  descriptor = λ trace c. some (10 + length trace);
  socketpair = λ trace. some (8, 9);
  waits = λ trace. returns ready ∷ [];
  connects = λ trace. in_progress;
  socket_error = λ trace. some 0;
  bound_port = λ trace. some 20;
  locks = λ trace. locked ∷ [];
  interface_addr = λ trace. 192 ∷ 168 ∷ 44 ∷ 136 ∷ [];
  inet_ntoa = λ addr. addr;
  inet_addr = λ text. text;
  inet_aton = λ text. some text;
  gethostbyname = λ trace name. none;
  scan_ip = λ text i. 0;
  gettimeofday = λ trace. some (1000, 0);
  naps = λ trace. returns ready ∷ [];
  readdir = λ trace. codes "." ∷ codes "a" ∷ codes "b" ∷ [];
  lstat = λ trace name. some regular;
  readlink = λ trace name. none;
  date_text = λ time. some (codes "Jan  1 00:00");
  fstat = λ trace fd. some regular;
  content = λ trace fd. codes "hello";
  data_in = λ trace. codes "hello";
  data_arrivals = λ trace. byte_by_byte 1023;
  data_departures = λ trace. one_by_one 1023;
  sendfile = λ trace. byte_by_byte 1023;
  raises_sigpipe = λ trace. false;
  file_departures = λ trace. one_by_one 63356;
  inherited = init_hash;
  reaped = λ trace n. [];
}

-- A socket between the processes that carries a byte at a time, with bytes that have arrived.
abbrev pub wire_with : Bytes → List ℕ → Wire
wire_with inbox passed = record {
  inbox = inbox;
  passed = passed;
  arrivals = byte_by_byte 1023;
  receipts = byte_by_byte 1;
  outbox = [];
  handed = [];
  departures = one_by_one 1023;
}

abbrev pub alice : Passwd
alice = record { pw_name = codes "alice"; pw_uid = 500; pw_gid = 100; pw_dir = codes "/home/alice" }

-- Passwords of six bytes are right, and every call succeeds.
abbrev pub host : Env
host = record {
  config = default_config;
  departures = λ trace. one_by_one 1023;
  getpwnam = λ trace name. some alice;
  getpwuid = λ trace uid. some alice;
  getspnam = λ trace name. some (codes "stored");
  crypt = λ key salt. if length key == 6 then some salt else some [];
  succeeds = λ trace c. true;
  getcwd = λ trace. some (codes "/home/alice");
  atoll = λ text. 0;
  scan_port = λ text i. 0;
  kernel = network;
}

pub host-Delivers : Delivers host
host-Delivers = λ trace. let (calm, n) = one_by_one_ok 1023 in (calm, omega arith)

pub host-Succeeds : Succeeds host
host-Succeeds = λ trace c. refl

abbrev pub host-Grants : Grants host
host-Grants = record {
  calls_succeed = host-Succeeds;
  opens = λ trace c. 10 + length trace;
  opened = λ trace c. refl;
  connects = λ trace. inr refl;
  no_error = λ trace. refl;
  waits = λ trace. refl;
  lives = λ trace n. refl;
  resolves = λ name. (name, refl);
}

abbrev pub idle : Transfers
idle = record {
  do_pasv = pure tt;
  do_retr = pure tt;
  do_stor = pure tt;
  do_appe = pure tt;
  do_list = pure tt;
  do_nlst = pure tt;
}

-- A session with a verb and its argument.
abbrev pub with_command : Bytes → Bytes → Proc
with_command verb args = record {
  sess = record (session_init default_config) { comm = verb; args = args };
  trace = [];
  wire = wire_with [] [];
  perms = codes "----------";
}
