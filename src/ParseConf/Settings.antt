-- ===== src/ParseConf/Settings.antt =====
-- One setting of miniftpd/parse_conf.c, through its two arrays of 128 bytes.
use mini_ftp.Base.{
  ℕ, ◌<◌, ◌≡◌, refl, true, [], ◌∷◌, arith, lt→ltb, ◌==◌, if◌then◌else◌, Bytes, length,
}
use mini_ftp.Base.Run.{exited}
use mini_ftp.Base.Text.{terminated, c_str, no_nul}
use mini_ftp.Config.{Config}
use mini_ftp.ParseConf.{skip_spaces, store_setting, check_setting, parseconf_load_setting}
use mini_ftp.Strutil.Split.{before_char, after_char, Holds, str_split-parts}

skip_spaces-no_nul : (s : Bytes) → no_nul s ≡ true → no_nul (skip_spaces s) ≡ true
unfolding skip_spaces
skip_spaces-no_nul [] h = refl
skip_spaces-no_nul (c ∷ s) h = ground (arith, skip_spaces-no_nul s)

module _ (atoi : Bytes → ℕ) where
  check_setting_lem :
      (key value k v : Bytes) (c : Config)
      → Holds key 128 k
      → length k < 128
      → c_str value ≡ v
      → check_setting atoi key value c
        ≡ (if length v == 0 then exited 1 else store_setting atoi k v c)
  unfolding check_setting
  check_setting_lem key value k v c h l e =
      let inside : terminated key ≡ true = rw (h.0, h.1) (lt→ltb (length k) 128 l) in
      rw (inside, check_setting, h.0, e) refl

  -- A setting without NUL is the key in front of the first `=`, behind leading blanks, and the value
  -- behind it. Where both are shorter than 128 bytes, it is stored under its key; without a value
  -- the process exits.
  parseconf_load_setting_lem :
      (text : Bytes) (c : Config)
      → no_nul text ≡ true
      → length (before_char b'=' (skip_spaces text)) < 128
      → length (after_char b'=' (skip_spaces text)) < 128
      → parseconf_load_setting atoi text c ≡ (
          if length (after_char b'=' (skip_spaces text)) == 0
          then exited 1
          else store_setting atoi
              (before_char b'=' (skip_spaces text))
              (after_char b'=' (skip_spaces text))
              c)
  unfolding parseconf_load_setting
  parseconf_load_setting_lem text c clean k v =
      let (l, r, e, hl, hr) =
        str_split-parts (skip_spaces text) b'=' 128 128 (skip_spaces-no_nul text clean) k v in
      rw (e, parseconf_load_setting) (check_setting_lem l r _ _ c hl k hr.0)
