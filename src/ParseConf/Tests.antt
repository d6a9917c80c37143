-- ===== src/ParseConf/Tests.antt =====
-- The parser of miniftpd/parse_conf.c on a small file.
use mini_ftp.Base.{ℕ, ◌≡◌, refl, some, [], ◌∷◌, Bytes, List, same_bytes, ◌%◌}
use mini_ftp.Base.Run.{ok}
use mini_ftp.Base.Text.{codes, c_str}
use mini_ftp.Config.{default_config}
use mini_ftp.ParseConf.Lines.{unlines, beside, read_lines, parse_conf_load_file_lines}
use mini_ftp.ParseConf.{
  skip_spaces, fgets, skipped, find_setting, bool_value, uint_value, store_setting, check_setting,
  parseconf_load_setting, load_line, load_lines, parse_conf_load_file,
}
use mini_ftp.Strutil.{str_split, str_trim_crlf, str_all_space, str_upper, str_octal_to_uint}

-- In place of `atoi`, for texts of one digit.
abbrev digit : Bytes → ℕ
digit [] = 0
digit (c ∷ cs) = c % 48

abbrev lines : List Bytes
lines =
    codes "# limits"
    ∷ codes " max_per_ip=3\r"
    ∷ codes ""
    ∷ codes "local_umask=022"
    ∷ codes "port_enable=no"
    ∷ []

small_file :
    parse_conf_load_file digit (some (unlines lines)) [] default_config
    ≡ ok ([], record default_config { max_per_ip = 3; local_umask = 18; port_enable = 0 })
unfolding parse_conf_load_file load_lines load_line fgets skipped parseconf_load_setting
    check_setting store_setting find_setting bool_value uint_value skip_spaces str_split
    str_trim_crlf str_all_space str_upper str_octal_to_uint same_bytes c_str
small_file = refl

parse_conf_load_file_lines_example :
    parse_conf_load_file digit (some (unlines lines)) (7 ∷ []) default_config
    ≡ beside (7 ∷ []) (read_lines digit lines default_config)
parse_conf_load_file_lines_example =
    parse_conf_load_file_lines digit (7 ∷ []) lines default_config refl
