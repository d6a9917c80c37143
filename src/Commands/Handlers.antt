-- ===== src/Commands/Handlers.antt =====
-- The commands of miniftpd/command_map.c that need no data connection.
use mini_ftp.Base.{
  ℕ, ◌+◌, ◌-◌, ◌*◌, ◌%◌, ◌^◌, Bool, false, Option, none, some, [], ◌∷◌, ◌++◌, ltb, ◌==◌,
  if◌then◌else◌, same_bytes, Bytes,
}
use mini_ftp.Base.Text.{codes}
use mini_ftp.Base.Decimal.{decimal}
use mini_ftp.Commands.Codes
use mini_ftp.Commands.Reply.{Passwd, Env, snprintf, control_write, ftp_reply, ftp_lreply, sys}
use mini_ftp.Session.{
  Call, setegid, seteuid, umask, chdir, mkdir, rmdir, unlink, rename, M, pure, ◌>>=◌, ◌>>◌, ask,
  modify, exit, fault,
}

-- The string behind the bits of a `long long`.
unfoldable pub longlong_text : ℕ → Bytes
longlong_text n = if ltb n (2 ^ 63) then decimal n else b'-' ∷ decimal (2 ^ 64 - n)

unfoldable pub starts_with_slash : Bytes → Bool
starts_with_slash [] = false
starts_with_slash (c ∷ cs) = c == b'/'

module _ (env : Env) where
  -- ERR_EXIT where a call returns -1.
  unfoldable pub must : Call → M (Unit {0})
  must c = do ok ← sys env c; if ok then pure tt else exit 1

  unfoldable pub do_user : M (Unit {0})
  do_user = do
    found ← ask (λ p. env.getpwnam p.trace p.sess.args)
    elim found [
      | none ↦ ftp_reply env Codes.login_err (codes "Login incorrect.")
      | some pw ↦ do
        modify (λ s. record s { user_uid = pw.pw_uid })
        ftp_reply env Codes.give_pword (codes "Please specify the password.")
    ]

  -- Behind the comparison of the passwords. The last call is on the text `sess->args` itself.
  unfoldable pub log_in : Passwd → M (Unit {0})
  unfolding must
  log_in pw = do
    must (setegid pw.pw_gid)
    must (seteuid pw.pw_uid)
    must (chdir pw.pw_dir)
    _ ← sys env (umask env.config.local_umask)
    ftp_reply env Codes.login_ok (codes "Login successful.")
    _ ← sys env (chdir (codes "sess->args"))
    pure tt

  -- `strcmp` faults on a null pointer.
  unfoldable pub check_password : Passwd → Bytes → M (Unit {0})
  check_password pw stored = do
    encrypted ← ask (λ p. env.crypt p.sess.args stored)
    elim encrypted [
      | none ↦ fault
      | some text ↦
          if same_bytes text stored
          then log_in pw
          else ftp_reply env Codes.login_err (codes "Login incorrect.")
    ]

  unfoldable pub do_pass : M (Unit {0})
  unfolding check_password
  do_pass = do
    found ← ask (λ p. env.getpwuid p.trace p.sess.user_uid)
    elim found [
      | none ↦ ftp_reply env Codes.login_err (codes "Login incorrect.")
      | some pw ↦ do
        shadow ← ask (λ p. env.getspnam p.trace pw.pw_name)
        elim shadow [
          | none ↦ ftp_reply env Codes.login_err (codes "Login incorrect.")
          | some stored ↦ check_password pw stored
        ]
    ]

  -- A call on a path, and one of two replies.
  unfoldable pub call_or_fail : Call → Bytes → ℕ → Bytes → M (Unit {0})
  call_or_fail c failure status success = do
    ok ← sys env c
    if ok then ftp_reply env status success else ftp_reply env Codes.file_fail failure

  unfoldable pub args_of : M Bytes
  args_of = ask (λ p. p.sess.args)

  unfoldable pub do_cwd : M (Unit {0})
  unfolding call_or_fail args_of
  do_cwd = do
    args ← args_of
    call_or_fail (chdir args) (codes "Failed to change directory.") Codes.cwd_ok
        (codes "Directory successfully changed")

  unfoldable pub do_cdup : M (Unit {0})
  unfolding call_or_fail
  do_cdup =
      call_or_fail (chdir (codes "..")) (codes "Failed to change directory.") Codes.cwd_ok
        (codes "Directory successfully changed")

  unfoldable pub do_quit : M (Unit {0})
  do_quit = do ftp_reply env Codes.goodbye (codes "Good bye!"); exit 0

  -- The bytes of the port and of the address are stored through `char *`.
  unfoldable pub do_port : M (Unit {0})
  unfolding args_of
  do_port = do
    args ← args_of
    let v : ℕ → ℕ = λ i. env.scan_port args i % 256
    modify (λ s. record s {
      p_addr = some (record { port = v 4 * 256 + v 5; addr = v 0 ∷ v 1 ∷ v 2 ∷ v 3 ∷ [] });
    })
    ftp_reply env Codes.port_ok (codes "PORT command sucessful")

  unfoldable pub set_mode : ℕ → Bytes → M (Unit {0})
  set_mode mode text = do
    modify (λ s. record s { ascii_mode = mode })
    ftp_reply env Codes.type_ok text

  unfoldable pub do_type : M (Unit {0})
  unfolding args_of set_mode
  do_type = do
    args ← args_of
    if same_bytes args (codes "A")
        then set_mode 1 (codes "Switching to ASCII mode.")
        else if same_bytes args (codes "I")
        then set_mode 0 (codes "Switching to Binary mode.")
        else ftp_reply env Codes.bad_cmd (codes "Unrecognised TYPE command.")

  unfoldable pub do_rest : M (Unit {0})
  unfolding args_of longlong_text
  do_rest = do
    args ← args_of
    modify (λ s. record s { restart_pos = env.atoll args })
    ftp_reply env Codes.rest_ok (
        snprintf 1024
          (codes "Restart position accepted (" ++ (longlong_text (env.atoll args) ++ codes ").")))

  unfoldable pub do_pwd : M (Unit {0})
  do_pwd = do
    cwd ← ask (λ p. env.getcwd p.trace)
    elim cwd [
      | none ↦ ftp_reply env Codes.bad_mode (codes "error")
      | some path ↦ ftp_reply env Codes.pwd_ok (snprintf 1024 (b'"' ∷ (path ++ codes "\"")))
    ]

  -- The reply of MKD, with the path as the client gave it or behind the working directory.
  unfoldable pub created : Bytes → M (Unit {0})
  unfolding starts_with_slash
  created args =
      if starts_with_slash args
      then ftp_reply env Codes.mkdir_ok (snprintf 1024 (args ++ codes " created."))
      else (do
        cwd ← ask (λ p. env.getcwd p.trace)
        elim cwd [
          | none ↦ exit 1
          | some path ↦
              ftp_reply env Codes.mkdir_ok
                (snprintf 1024 (path ++ (b'/' ∷ (args ++ codes " created."))))
        ])

  unfoldable pub do_mkd : M (Unit {0})
  unfolding args_of created
  do_mkd = do
    args ← args_of
    ok ← sys env (mkdir args)
    if ok
        then created args
        else ftp_reply env Codes.file_fail (codes "Create directory operation failed.")

  unfoldable pub do_rmd : M (Unit {0})
  unfolding call_or_fail args_of
  do_rmd = do
    args ← args_of
    call_or_fail (rmdir args) (codes "Remove operation failed.") Codes.rmdir_ok
        (codes "Remove directory successful.")

  unfoldable pub do_dele : M (Unit {0})
  unfolding call_or_fail args_of
  do_dele = do
    args ← args_of
    call_or_fail (unlink args) (codes "Delete operation failed.") Codes.dele_ok
        (codes "Delete operation sucessfully.")

  unfoldable pub do_rnfr : M (Unit {0})
  do_rnfr = do
    modify (λ s. record s { rnfr_name = some s.args })
    ftp_reply env Codes.rnfr_ok (codes "Ready for RNTO.")

  unfoldable pub renamed : M (Unit {0})
  renamed = do
    modify (λ s. record s { rnfr_name = none })
    ftp_reply env Codes.rename_ok (codes "Rename successful.")

  -- The body of RNTO, on `rnfr_name` and `args`.
  unfoldable pub rename_to : Option Bytes → Bytes → M (Unit {0})
  unfolding renamed
  rename_to none args = ftp_reply env Codes.need_rnfr (codes "RNFR required first.")
  rename_to (some name) args = do
    ok ← sys env (rename name args)
    if ok then renamed else ftp_reply env Codes.file_fail (codes "Rename failed.")

  unfoldable pub do_rnto : M (Unit {0})
  do_rnto = do
    from ← ask (λ p. p.sess.rnfr_name)
    args ← ask (λ p. p.sess.args)
    rename_to from args

  unfoldable pub do_syst : M (Unit {0})
  do_syst = ftp_reply env Codes.syst_ok (codes "UNIX Type: L8")

  unfoldable pub do_feat : M (Unit {0})
  do_feat = do
    ftp_lreply env Codes.feat (codes "Features:")
    control_write env (codes " EPRT\r\n")
    control_write env (codes " EPSV\r\n")
    control_write env (codes " MDTM\r\n")
    control_write env (codes " PASV\r\n")
    control_write env (codes " REST STREAM\r\n")
    control_write env (codes " SIZE\r\n")
    control_write env (codes " TVFS\r\n")
    control_write env (codes " UTF8\r\n")
    ftp_reply env Codes.feat (codes "End")

  unfoldable pub do_noop : M (Unit {0})
  do_noop = ftp_reply env Codes.greet (codes "(FtpServer 1.0)")

-- STRU, MODE, ABOR, SITE, SIZE, STAT and HELP have an empty body.
module _ where
  abbrev pub do_stru : M (Unit {0})
  do_stru = pure tt

  abbrev pub do_mode : M (Unit {0})
  do_mode = pure tt

  abbrev pub do_abor : M (Unit {0})
  do_abor = pure tt

  abbrev pub do_site : M (Unit {0})
  do_site = pure tt

  abbrev pub do_size : M (Unit {0})
  do_size = pure tt

  abbrev pub do_stat : M (Unit {0})
  do_stat = pure tt

  abbrev pub do_help : M (Unit {0})
  do_help = pure tt
