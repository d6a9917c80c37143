-- ===== src/Commands/Codes.antt =====
-- miniftpd/ftp_code.h: the reply codes that the commands use.
use mini_ftp.Base.{ℕ}

abbrev pub type_ok : ℕ
type_ok = 200

abbrev pub port_ok : ℕ
port_ok = 200

abbrev pub feat : ℕ
feat = 211

abbrev pub syst_ok : ℕ
syst_ok = 215

abbrev pub greet : ℕ
greet = 220

abbrev pub goodbye : ℕ
goodbye = 221

abbrev pub login_ok : ℕ
login_ok = 230

abbrev pub cwd_ok : ℕ
cwd_ok = 250

abbrev pub rmdir_ok : ℕ
rmdir_ok = 250

abbrev pub dele_ok : ℕ
dele_ok = 250

abbrev pub rename_ok : ℕ
rename_ok = 250

abbrev pub pwd_ok : ℕ
pwd_ok = 257

abbrev pub mkdir_ok : ℕ
mkdir_ok = 257

abbrev pub give_pword : ℕ
give_pword = 331

abbrev pub rest_ok : ℕ
rest_ok = 350

abbrev pub rnfr_ok : ℕ
rnfr_ok = 350

abbrev pub bad_cmd : ℕ
bad_cmd = 500

abbrev pub command_not_impl : ℕ
command_not_impl = 502

abbrev pub need_rnfr : ℕ
need_rnfr = 503

abbrev pub bad_mode : ℕ
bad_mode = 504

abbrev pub login_err : ℕ
login_err = 530

abbrev pub file_fail : ℕ
file_fail = 550

abbrev pub data_conn : ℕ
data_conn = 150

abbrev pub transfer_ok : ℕ
transfer_ok = 226

abbrev pub pasv_ok : ℕ
pasv_ok = 227

abbrev pub idle_timeout : ℕ
idle_timeout = 421

abbrev pub bad_send_conn : ℕ
bad_send_conn = 425

abbrev pub bad_send_net : ℕ
bad_send_net = 426

abbrev pub bad_send_file : ℕ
bad_send_file = 451

abbrev pub upload_fail : ℕ
upload_fail = 553

abbrev pub too_many_users : ℕ
too_many_users = 421

abbrev pub ip_limit : ℕ
ip_limit = 421
