-- ===== src/Server/Start.antt =====
-- `server_init` of miniftpd/main.c, with the checks of miniftpd/ftp_assist.c.
use mini_ftp.Base.{
  ℕ, ◌≡◌, refl, Bool, true, false, Option, some, List, ◌==◌, if◌then◌else◌, Bytes, all,
}
use mini_ftp.Base.Run.{Run, ok, exited, ◌>>=◌}
use mini_ftp.Config.{Config, default_config}
use mini_ftp.ParseConf.Lines.{unlines, beside-bind, read_lines, parse_conf_load_file_lines, plain}
use mini_ftp.ParseConf.{parse_conf_load_file}
use mini_ftp.Server.{Server, server_init}

-- Whether `signal` set the handler.
unfoldable pub setup_signal_chld : Bool → Run (Unit {0})
setup_signal_chld set = if set then ok tt else exited 1

-- On what `getuid` returns.
unfoldable pub do_root : ℕ → Run (Unit {0})
do_root uid = if uid == 0 then ok tt else exited 1

-- The tunables and the state that `server_begin` starts with. The file is `ftp.conf` as `fopen` finds
-- it, and `before` the memory in front of the array for its lines.
unfoldable pub server_start : (Bytes → ℕ) → Bool → ℕ → Option Bytes → Bytes → Run (Config × Server)
unfolding setup_signal_chld do_root
server_start atoi signal_set uid file before = do
  _ ← setup_signal_chld signal_set
  _ ← do_root uid
  (_, config) ← parse_conf_load_file atoi file before default_config
  ok (config, server_init)

-- Without root the server reads no file, and exits.
server_start_refused :
    (atoi : Bytes → ℕ) (signal_set : Bool) (uid : ℕ) (file : Option Bytes) (before : Bytes)
    → (uid == 0) ≡ false
    → server_start atoi signal_set uid file before ≡ exited 1
unfolding server_start
server_start_refused atoi true uid file before h = rw (h, server_start) refl
server_start_refused atoi false uid file before h = refl

-- Root's server starts with what the lines of its file set over the initial values.
server_start_lines :
    (atoi : Bytes → ℕ) (before : Bytes) (ls : List Bytes)
    → all plain ls ≡ true
    → server_start atoi true 0 (some (unlines ls)) before
      ≡ (read_lines atoi ls default_config >>= λ c. ok (c, server_init))
unfolding server_start
server_start_lines atoi before ls h =
    rw (parse_conf_load_file_lines atoi before ls default_config h)
      (beside-bind before (read_lines atoi ls default_config) (λ _ c. ok (c, server_init)))
