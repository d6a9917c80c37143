-- ===== src/ParseConf.antt =====
-- miniftpd/parse_conf.c: the settings of the configuration file. A run that aborts writes or reads
-- past the end of an array; `atoi` is a parameter, and gives the 32 bits of its result.
pub mod Settings
pub mod Lines
mod Tests
use mini_ftp.Base.{
  ℕ, zero, suc, Bool, true, false, ◌||◌, Option, none, some, List, [], ◌∷◌, ltb, ◌==◌,
  if◌then◌else◌, same_bytes, Bytes, length,
}
use mini_ftp.Base.Run.{Run, ok, abort, exited, ◌>>=◌}
use mini_ftp.Base.Text.{terminated, codes, c_str, zeros}
use mini_ftp.Config.{Config}
use mini_ftp.Strutil.{str_split, str_trim_crlf, str_all_space, str_upper, str_octal_to_uint}

-- A name of one of the three arrays, with the store through its pointer.
pub record Setting (A : Type 0) : Type 0 where
  pub p_setting_name : Bytes
  pub p_variable : A → Config → Config

abbrev setting : {A : Type 0} → Bytes → (A → Config → Config) → Setting A
setting name store = record { p_setting_name = name; p_variable = store }

abbrev pub parseconf_bool_array : List (Setting ℕ)
parseconf_bool_array =
    setting (codes "pasv_enable") (λ n c. record c { pasv_enable = n })
    ∷ setting (codes "port_enable") (λ n c. record c { port_enable = n })
    ∷ []

abbrev pub parseconf_uint_array : List (Setting ℕ)
parseconf_uint_array =
    setting (codes "listen_port") (λ n c. record c { listen_port = n })
    ∷ setting (codes "max_clients") (λ n c. record c { max_clients = n })
    ∷ setting (codes "max_per_ip") (λ n c. record c { max_per_ip = n })
    ∷ setting (codes "accept_timeout") (λ n c. record c { accept_timeout = n })
    ∷ setting (codes "connect_timeout") (λ n c. record c { connect_timeout = n })
    ∷ setting (codes "idle_session_timeout") (λ n c. record c { idle_session_timeout = n })
    ∷ setting (codes "data_connection_timeout") (λ n c. record c { data_connection_timeout = n })
    ∷ setting (codes "local_umask") (λ n c. record c { local_umask = n })
    ∷ setting (codes "upload_max_rate") (λ n c. record c { upload_max_rate = n })
    ∷ setting (codes "download_max_rate") (λ n c. record c { download_max_rate = n })
    ∷ []

abbrev pub parseconf_str_array : List (Setting Bytes)
parseconf_str_array =
    setting (codes "listen_address") (λ s c. record c { listen_address = some s }) ∷ []

-- The `while` over an array, to the first name that is the key.
unfoldable pub find_setting : {A : Type 0} → List (Setting A) → Bytes → Option (A → Config → Config)
find_setting [] key = none
find_setting (s ∷ ss) key =
    let rest = find_setting ss key in
    if same_bytes key s.p_setting_name then some s.p_variable else rest

unfoldable pub bool_value : Bytes → Option ℕ
bool_value value =
    if same_bytes value (codes "YES")
      || (same_bytes value (codes "TRUE") || same_bytes value (codes "1"))
    then some 1
    else if same_bytes value (codes "NO")
        || (same_bytes value (codes "FALSE") || same_bytes value (codes "0"))
    then some 0
    else none

abbrev pub starts_with : ℕ → Bytes → Bool
starts_with c [] = false
starts_with c (x ∷ xs) = x == c

-- The `while` with `isSpace`.
unfoldable pub skip_spaces : Bytes → Bytes
skip_spaces [] = []
skip_spaces (c ∷ cs) = let rest = skip_spaces cs in if c == b' ' then rest else c ∷ cs

-- What `fgets` reads, through an array of `n + 1` bytes, and the rest of the file.
unfoldable pub fgets : ℕ → Bytes → Bytes × Bytes
fgets zero s = ([], s)
fgets (suc n) [] = ([], [])
fgets (suc n) (c ∷ s) =
    let rest = fgets n s in if c == 10 then (c ∷ [], s) else (c ∷ rest.0, rest.1)

unfoldable pub skipped : Bytes → Bool
skipped line = length line == 0 || (starts_with b'#' line || str_all_space line)

module _ (atoi : Bytes → ℕ) where
  unfoldable pub uint_value : Bytes → ℕ
  uint_value value = if starts_with b'0' value then str_octal_to_uint value else atoi value

  -- The three searches, with a key and a value that is not empty. An unknown key is passed over.
  unfoldable pub store_setting : Bytes → Bytes → Config → Run Config
  unfolding find_setting bool_value uint_value
  store_setting key value c = elim (find_setting parseconf_str_array key) [
    | some store ↦ ok (store value c)
    | none ↦ elim (find_setting parseconf_bool_array key) [
      | some store ↦ elim (bool_value (str_upper value)) [
        | some n ↦ ok (store n c)
        | none ↦ exited 1
      ]
      | none ↦ elim (find_setting parseconf_uint_array key) [
        | some store ↦ ok (store (uint_value value) c)
        | none ↦ ok c
      ]
    ]
  ]

  -- Behind `str_split`, with the arrays `key` and `value`.
  unfoldable pub check_setting : Bytes → Bytes → Config → Run Config
  unfolding store_setting
  check_setting key value c =
      if terminated key
      then (if length (c_str value) == 0
          then exited 1
          else store_setting (c_str key) (c_str value) c)
      else abort

  unfoldable pub parseconf_load_setting : Bytes → Config → Run Config
  unfolding check_setting skip_spaces
  parseconf_load_setting text c = elim (str_split (skip_spaces text) (zeros 128) (zeros 128) b'=') [
    | none ↦ abort
    | some (key, value) ↦ check_setting key value c
  ]

  -- The body of the `while`, for a line that `fgets` read. `before` is the memory in front of the
  -- array, nearest byte first.
  unfoldable pub load_line : Bytes → Bytes → Config → Run (Bytes × Config)
  unfolding parseconf_load_setting skipped
  load_line before line c = if skipped (c_str line) then ok (before, c) else (do
    let trimmed : Bytes × Bytes = str_trim_crlf before (c_str line)
    c' ← parseconf_load_setting trimmed.1 c
    ok (trimmed.0, c'))

  -- Each round reads at least one byte, so that the length of the file is enough fuel.
  unfoldable pub load_lines : ℕ → Bytes → Bytes → Config → Run (Bytes × Config)
  unfolding load_line fgets
  load_lines fuel before [] c = ok (before, c)
  load_lines zero before (x ∷ file) c = abort
  load_lines (suc fuel) before (x ∷ file) c = do
    (before', c') ← load_line before (fgets 1023 (x ∷ file)).0 c
    load_lines fuel before' (fgets 1023 (x ∷ file)).1 c'

  -- The file as `fopen` finds it.
  unfoldable pub parse_conf_load_file : Option Bytes → Bytes → Config → Run (Bytes × Config)
  unfolding load_lines
  parse_conf_load_file none before c = exited 1
  parse_conf_load_file (some file) before c = load_lines (length file) before file c
