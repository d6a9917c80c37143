-- ===== src/Commands/Sound/Table.antt =====
-- `do_command_map` of miniftpd/command_map.c keeps the session sound, whatever the client sends.
use mini_ftp.Base.{List, [], ◌∷◌, Option, none, some, same_bytes}
use mini_ftp.Commands.Reply.{Env}
use mini_ftp.Session.Invariant.{Keeps, if-Leaves, done-Leaves}
use mini_ftp.Session.{pure, Session, M}
use mini_ftp.Base.{Each}
use mini_ftp.Commands.Sound.{IsSound, ftp_reply-IsSound}
use mini_ftp.Commands.Sound.Handlers.{
  do_user-IsSound, do_pass-IsSound, do_cwd-IsSound, do_cdup-IsSound, do_quit-IsSound,
  do_port-IsSound, do_type-IsSound, do_rest-IsSound, do_pwd-IsSound, do_mkd-IsSound, do_rmd-IsSound,
  do_dele-IsSound, do_rnfr-IsSound, do_rnto-IsSound, do_syst-IsSound, do_feat-IsSound,
  do_noop-IsSound,
}
use mini_ftp.Commands.Table.{
  Transfers, Command, ctrl_cmds, run_handler, command_loop, do_command_map,
}
use mini_ftp.Strutil.{str_upper}

-- The commands on a data connection keep the session sound.
pub record KeepSound (s₀ : Session) (t : Transfers) : Type 0 where
  pub pasv : Keeps (IsSound s₀) t.do_pasv
  pub retr : Keeps (IsSound s₀) t.do_retr
  pub stor : Keeps (IsSound s₀) t.do_stor
  pub appe : Keeps (IsSound s₀) t.do_appe
  pub list : Keeps (IsSound s₀) t.do_list
  pub nlst : Keeps (IsSound s₀) t.do_nlst

abbrev HandlerIsSound : Session → Option (M (Unit {0})) → Type 0
HandlerIsSound s₀ none = Unit {0}
HandlerIsSound s₀ (some m) = Keeps (IsSound s₀) m

module _ (env : Env) (s₀ : Session) where
  run_handler-IsSound :
      (h : Option (M (Unit {0}))) → HandlerIsSound s₀ h → Keeps (IsSound s₀) (run_handler env h)
  unfolding run_handler
  run_handler-IsSound none sound p h = ftp_reply-IsSound env s₀ _ _ p h
  run_handler-IsSound (some m) sound p h = sound p h

  command_loop-IsSound :
      (cs : List Command)
      → Each (λ c. HandlerIsSound s₀ c.cmd_handler) cs
      → Keeps (IsSound s₀) (command_loop env cs)
  unfolding command_loop
  command_loop-IsSound [] sound p h = ftp_reply-IsSound env s₀ _ _ p h
  command_loop-IsSound (c ∷ cs) (now, later) p h =
      if-Leaves (same_bytes c.name (str_upper p.sess.comm)) _ _ _
        (run_handler-IsSound c.cmd_handler now _ h) (command_loop-IsSound cs later _ h)

  silent-IsSound : Keeps (IsSound s₀) (pure tt)
  silent-IsSound p h = done-Leaves _ _ h

  ctrl_cmds-IsSound :
      (t : Transfers)
      → KeepSound s₀ t
      → Each (λ c. HandlerIsSound s₀ c.cmd_handler) (ctrl_cmds env t)
  unfolding ctrl_cmds
  ctrl_cmds-IsSound t k = (
    do_user-IsSound env s₀,
    (
      do_pass-IsSound env s₀,
      (
        do_cwd-IsSound env s₀,
        (
          do_cwd-IsSound env s₀,
          (
            do_cdup-IsSound env s₀,
            (
              do_cdup-IsSound env s₀,
              (
                do_quit-IsSound env s₀,
                (
                  tt,
                  (
                    tt,
                    (
                      tt,
                      (
                        do_port-IsSound env s₀,
                        (
                          k.pasv,
                          (
                            do_type-IsSound env s₀,
                            (
                              silent-IsSound,
                              (
                                silent-IsSound,
                                (
                                  k.retr,
                                  (
                                    k.stor,
                                    (
                                      k.appe,
                                      (
                                        k.list,
                                        (
                                          k.nlst,
                                          (
                                            do_rest-IsSound env s₀,
                                            (
                                              silent-IsSound,
                                              (
                                                silent-IsSound,
                                                (
                                                  do_pwd-IsSound env s₀,
                                                  (
                                                    do_pwd-IsSound env s₀,
                                                    (
                                                      do_mkd-IsSound env s₀,
                                                      (
                                                        do_mkd-IsSound env s₀,
                                                        (
                                                          do_rmd-IsSound env s₀,
                                                          (
                                                            do_rmd-IsSound env s₀,
                                                            (
                                                            do_dele-IsSound env s₀,
                                                            (
                                                            do_rnfr-IsSound env s₀,
                                                            (
                                                            do_rnto-IsSound env s₀,
                                                            (
                                                            silent-IsSound,
                                                            (
                                                            do_syst-IsSound env s₀,
                                                            (
                                                            do_feat-IsSound env s₀,
                                                            (
                                                            silent-IsSound,
                                                            (
                                                            silent-IsSound,
                                                            (
                                                            do_noop-IsSound env s₀,
                                                            (silent-IsSound, (tt, (tt, tt))),
                                                            ),
                                                            ),
                                                            ),
                                                            ),
                                                            ),
                                                            ),
                                                            ),
                                                            ),
                                                            ),
                                                          ),
                                                        ),
                                                      ),
                                                    ),
                                                  ),
                                                ),
                                              ),
                                            ),
                                          ),
                                        ),
                                      ),
                                    ),
                                  ),
                                ),
                              ),
                            ),
                          ),
                        ),
                      ),
                    ),
                  ),
                ),
              ),
            ),
          ),
        ),
      ),
    ),
  )

  -- From a sound session, any verb and argument leave a sound session, on every branch of every
  -- command, whatever the system answers.
  pub do_command_map-IsSound :
      (t : Transfers) → KeepSound s₀ t → Keeps (IsSound s₀) (do_command_map env t)
  unfolding do_command_map
  do_command_map-IsSound t k = command_loop-IsSound (ctrl_cmds env t) (ctrl_cmds-IsSound t k)
