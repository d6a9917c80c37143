-- ===== src/Config.antt =====
-- miniftpd/configure.c: the tunables, and their values before the file is read.
use mini_ftp.Base.{ℕ, Option, none}
use mini_ftp.Base.{Bytes}

pub record Config : Type 0 where
  pub pasv_enable : ℕ
  pub port_enable : ℕ
  pub listen_port : ℕ
  pub max_clients : ℕ
  pub max_per_ip : ℕ
  pub accept_timeout : ℕ
  pub connect_timeout : ℕ
  pub idle_session_timeout : ℕ
  pub data_connection_timeout : ℕ
  pub local_umask : ℕ
  pub upload_max_rate : ℕ
  pub download_max_rate : ℕ
  pub listen_address : Option Bytes

abbrev pub default_config : Config
default_config = record {
  pasv_enable = 1;
  port_enable = 1;
  listen_port = 21;
  max_clients = 2000;
  max_per_ip = 50;
  accept_timeout = 60;
  connect_timeout = 60;
  idle_session_timeout = 300;
  data_connection_timeout = 300;
  local_umask = 0o77;
  upload_max_rate = 0;
  download_max_rate = 0;
  listen_address = none;
}
