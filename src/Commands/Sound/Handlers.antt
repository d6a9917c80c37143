-- ===== src/Commands/Sound/Handlers.antt =====
-- The commands of miniftpd/command_map.c that need no data connection keep the session sound.
use mini_ftp.Base.{ℕ, ◌≤◌, Option, none, some, Bytes, same_bytes, arith}
use mini_ftp.Base.Text.{codes}
use mini_ftp.Commands.Handlers.{
  must, do_user, log_in, check_password, do_pass, call_or_fail, do_cwd, do_cdup, do_quit, do_port,
  set_mode, do_type, do_rest, do_pwd, starts_with_slash, created, do_mkd, do_rmd, do_dele, do_rnfr,
  renamed, rename_to, do_rnto, do_syst, do_feat, do_noop,
}
use mini_ftp.Commands.Reply.{Passwd, Env}
use mini_ftp.Session.Invariant.{
  Keeps, faulted-Leaves, bind-Leaves, if-Leaves, option-Leaves, done-Leaves, exited-Leaves,
}
use mini_ftp.Session.{Session, Call}
use mini_ftp.Commands.Sound.{
  IsSound, control_write-IsSound, sys-IsSound, ftp_reply-IsSound, ftp_lreply-IsSound,
}

module _ (env : Env) (s₀ : Session) where
  pub must-IsSound : (c : Call) → Keeps (IsSound s₀) (must env c)
  unfolding must
  must-IsSound c p h =
      bind-Leaves _ _ (sys-IsSound env s₀ c p h)
        λ ok q k. if-Leaves ok _ _ q (done-Leaves _ _ k) (exited-Leaves _ _ k)

  pub do_user-IsSound : Keeps (IsSound s₀) (do_user env)
  unfolding do_user
  do_user-IsSound p h =
      option-Leaves (env.getpwnam p.trace p.sess.args) _ _ p (ftp_reply-IsSound env s₀ _ _ p h)
        λ pw. ftp_reply-IsSound env s₀ _ _ _ h

  pub log_in-IsSound : (pw : Passwd) → Keeps (IsSound s₀) (log_in env pw)
  unfolding log_in
  log_in-IsSound pw p h = bind-Leaves _ _ (must-IsSound _ p h) λ _ q h.
      bind-Leaves _ _ (must-IsSound _ q h) λ _ q h. bind-Leaves _ _ (must-IsSound _ q h) λ _ q h.
        bind-Leaves _ _ (sys-IsSound env s₀ _ q h) λ _ q h.
          bind-Leaves _ _ (ftp_reply-IsSound env s₀ _ _ q h)
            λ _ q h. bind-Leaves _ _ (sys-IsSound env s₀ _ q h) λ _ q h. done-Leaves _ _ h

  pub check_password-IsSound :
      (pw : Passwd) (stored : Bytes) → Keeps (IsSound s₀) (check_password env pw stored)
  unfolding check_password
  check_password-IsSound pw stored p h =
      option-Leaves (env.crypt p.sess.args stored) _ _ p (faulted-Leaves _ h) λ text.
        if-Leaves (same_bytes text stored) _ _ p (log_in-IsSound pw p h)
          (ftp_reply-IsSound env s₀ _ _ p h)

  pub do_pass-IsSound : Keeps (IsSound s₀) (do_pass env)
  unfolding do_pass
  do_pass-IsSound p h =
      option-Leaves (env.getpwuid p.trace p.sess.user_uid) _ _ p (ftp_reply-IsSound env s₀ _ _ p h)
        λ pw.
          option-Leaves (env.getspnam p.trace pw.pw_name) _ _ p (ftp_reply-IsSound env s₀ _ _ p h)
            λ stored. check_password-IsSound pw stored p h

  pub call_or_fail-IsSound :
      (c : Call) (failure : Bytes) (n : ℕ) (text : Bytes)
      → Keeps (IsSound s₀) (call_or_fail env c failure n text)
  unfolding call_or_fail
  call_or_fail-IsSound c failure n text p h = bind-Leaves _ _ (sys-IsSound env s₀ c p h) λ ok q k.
      if-Leaves ok _ _ q (ftp_reply-IsSound env s₀ _ _ q k) (ftp_reply-IsSound env s₀ _ _ q k)

  pub do_quit-IsSound : Keeps (IsSound s₀) (do_quit env)
  unfolding do_quit
  do_quit-IsSound p h =
      bind-Leaves _ _ (ftp_reply-IsSound env s₀ _ _ p h) λ _ q k. exited-Leaves _ _ k

  pub do_port-IsSound : Keeps (IsSound s₀) (do_port env)
  unfolding do_port
  do_port-IsSound p h = ftp_reply-IsSound env s₀ _ _ _ h

  pub set_mode-IsSound :
      (mode : ℕ) (text : Bytes) → mode ≤ 1 → Keeps (IsSound s₀) (set_mode env mode text)
  unfolding set_mode
  set_mode-IsSound mode text small p (a, b, c, m, t) =
      ftp_reply-IsSound env s₀ _ _ _ (a, b, c, small, t)

  pub do_type-IsSound : Keeps (IsSound s₀) (do_type env)
  unfolding do_type
  do_type-IsSound p h =
      if-Leaves (same_bytes p.sess.args (codes "A")) _ _ p (set_mode-IsSound 1 _ (omega arith) p h)
        (if-Leaves (same_bytes p.sess.args (codes "I")) _ _ p
          (set_mode-IsSound 0 _ (omega arith) p h) (ftp_reply-IsSound env s₀ _ _ p h))

  pub do_rest-IsSound : Keeps (IsSound s₀) (do_rest env)
  unfolding do_rest
  do_rest-IsSound p h = ftp_reply-IsSound env s₀ _ _ _ h

  pub do_pwd-IsSound : Keeps (IsSound s₀) (do_pwd env)
  unfolding do_pwd
  do_pwd-IsSound p h =
      option-Leaves (env.getcwd p.trace) _ _ p (ftp_reply-IsSound env s₀ _ _ p h)
        λ path. ftp_reply-IsSound env s₀ _ _ p h

  pub created-IsSound : (args : Bytes) → Keeps (IsSound s₀) (created env args)
  unfolding created
  created-IsSound args p h =
      if-Leaves (starts_with_slash args) _ _ p (ftp_reply-IsSound env s₀ _ _ p h) (
        option-Leaves (env.getcwd p.trace) _ _ p (exited-Leaves _ _ h)
          λ path. ftp_reply-IsSound env s₀ _ _ p h)

  pub do_mkd-IsSound : Keeps (IsSound s₀) (do_mkd env)
  unfolding do_mkd
  do_mkd-IsSound p h = bind-Leaves _ _ (sys-IsSound env s₀ _ p h) λ ok q k.
      if-Leaves ok _ _ q (created-IsSound p.sess.args q k) (ftp_reply-IsSound env s₀ _ _ q k)

  pub do_rnfr-IsSound : Keeps (IsSound s₀) (do_rnfr env)
  unfolding do_rnfr
  do_rnfr-IsSound p h = ftp_reply-IsSound env s₀ _ _ _ h

  pub renamed-IsSound : Keeps (IsSound s₀) (renamed env)
  unfolding renamed
  renamed-IsSound p h = ftp_reply-IsSound env s₀ _ _ _ h

  pub rename_to-IsSound :
      (from : Option Bytes) (args : Bytes) → Keeps (IsSound s₀) (rename_to env from args)
  unfolding rename_to
  rename_to-IsSound none args p h = ftp_reply-IsSound env s₀ _ _ p h
  rename_to-IsSound (some name) args p h =
      bind-Leaves _ _ (sys-IsSound env s₀ _ p h)
        λ ok q k. if-Leaves ok _ _ q (renamed-IsSound q k) (ftp_reply-IsSound env s₀ _ _ q k)

  pub do_rnto-IsSound : Keeps (IsSound s₀) (do_rnto env)
  unfolding do_rnto
  do_rnto-IsSound p h = rename_to-IsSound p.sess.rnfr_name p.sess.args p h

  pub do_feat-IsSound : Keeps (IsSound s₀) (do_feat env)
  unfolding do_feat
  do_feat-IsSound p h = bind-Leaves _ _ (ftp_lreply-IsSound env s₀ _ _ p h) λ _ q h.
      bind-Leaves _ _ (control_write-IsSound env s₀ _ q h) λ _ q h.
        bind-Leaves _ _ (control_write-IsSound env s₀ _ q h) λ _ q h.
          bind-Leaves _ _ (control_write-IsSound env s₀ _ q h) λ _ q h.
            bind-Leaves _ _ (control_write-IsSound env s₀ _ q h) λ _ q h.
              bind-Leaves _ _ (control_write-IsSound env s₀ _ q h) λ _ q h.
                bind-Leaves _ _ (control_write-IsSound env s₀ _ q h) λ _ q h.
                  bind-Leaves _ _ (control_write-IsSound env s₀ _ q h) λ _ q h.
                    bind-Leaves _ _ (control_write-IsSound env s₀ _ q h)
                      λ _ q h. ftp_reply-IsSound env s₀ _ _ q h

  -- CWD, RMD and DELE, each one call on the argument.
  pub do_cwd-IsSound : Keeps (IsSound s₀) (do_cwd env)
  unfolding do_cwd
  do_cwd-IsSound p h = call_or_fail-IsSound _ _ _ _ p h

  pub do_cdup-IsSound : Keeps (IsSound s₀) (do_cdup env)
  unfolding do_cdup
  do_cdup-IsSound p h = call_or_fail-IsSound _ _ _ _ p h

  pub do_rmd-IsSound : Keeps (IsSound s₀) (do_rmd env)
  unfolding do_rmd
  do_rmd-IsSound p h = call_or_fail-IsSound _ _ _ _ p h

  pub do_dele-IsSound : Keeps (IsSound s₀) (do_dele env)
  unfolding do_dele
  do_dele-IsSound p h = call_or_fail-IsSound _ _ _ _ p h

  pub do_syst-IsSound : Keeps (IsSound s₀) (do_syst env)
  unfolding do_syst
  do_syst-IsSound p h = ftp_reply-IsSound env s₀ _ _ p h

  pub do_noop-IsSound : Keeps (IsSound s₀) (do_noop env)
  unfolding do_noop
  do_noop-IsSound p h = ftp_reply-IsSound env s₀ _ _ p h
