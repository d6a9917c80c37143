-- ===== src/Commands/Table.antt =====
-- The table of miniftpd/command_map.c and `do_command_map`.
use mini_ftp.Base.{Option, none, some, List, [], ◌∷◌, if◌then◌else◌, same_bytes, Bytes}
use mini_ftp.Base.Text.{codes}
use mini_ftp.Commands.Codes
use mini_ftp.Commands.Handlers.{
  do_user, do_pass, do_cwd, do_cdup, do_quit, do_port, do_type, do_stru, do_mode, do_rest, do_abor,
  do_pwd, do_mkd, do_rmd, do_dele, do_rnfr, do_rnto, do_site, do_syst, do_feat, do_size, do_stat,
  do_noop, do_help,
}
use mini_ftp.Commands.Reply.{Env, ftp_reply}
use mini_ftp.Session.{M, ◌>>=◌, ◌>>◌, ask, modify}
use mini_ftp.Strutil.{str_upper}

-- The commands that use a data connection, which miniftpd/trans_data.c implements.
pub record Transfers : Type 0 where
  pub do_pasv : M (Unit {0})
  pub do_retr : M (Unit {0})
  pub do_stor : M (Unit {0})
  pub do_appe : M (Unit {0})
  pub do_list : M (Unit {0})
  pub do_nlst : M (Unit {0})

-- `ftpcmd_t`; a null handler is a command that is not implemented.
pub record Command : Type 0 where
  pub name : Bytes
  pub cmd_handler : Option (M (Unit {0}))

abbrev handled : Bytes → M (Unit {0}) → Command
handled name handler = record { name = name; cmd_handler = some handler }

abbrev unimplemented : Bytes → Command
unimplemented name = record { name = name; cmd_handler = none }

module _ (env : Env) where
  unfoldable pub ctrl_cmds : Transfers → List Command
  ctrl_cmds transfers =
      handled (codes "USER") (do_user env)
      ∷ handled (codes "PASS") (do_pass env)
      ∷ handled (codes "CWD") (do_cwd env)
      ∷ handled (codes "XCWD") (do_cwd env)
      ∷ handled (codes "CDUP") (do_cdup env)
      ∷ handled (codes "XCUP") (do_cdup env)
      ∷ handled (codes "QUIT") (do_quit env)
      ∷ unimplemented (codes "ACCT")
      ∷ unimplemented (codes "SMNT")
      ∷ unimplemented (codes "REIN")
      ∷ handled (codes "PORT") (do_port env)
      ∷ handled (codes "PASV") transfers.do_pasv
      ∷ handled (codes "TYPE") (do_type env)
      ∷ handled (codes "STRU") do_stru
      ∷ handled (codes "MODE") do_mode
      ∷ handled (codes "RETR") transfers.do_retr
      ∷ handled (codes "STOR") transfers.do_stor
      ∷ handled (codes "APPE") transfers.do_appe
      ∷ handled (codes "LIST") transfers.do_list
      ∷ handled (codes "NLST") transfers.do_nlst
      ∷ handled (codes "REST") (do_rest env)
      ∷ handled (codes "ABOR") do_abor
      ∷ handled (0o377 ∷ 0o364 ∷ 0o377 ∷ 0o362 ∷ codes "ABOR") do_abor
      ∷ handled (codes "PWD") (do_pwd env)
      ∷ handled (codes "XPWD") (do_pwd env)
      ∷ handled (codes "MKD") (do_mkd env)
      ∷ handled (codes "XMKD") (do_mkd env)
      ∷ handled (codes "RMD") (do_rmd env)
      ∷ handled (codes "XRMD") (do_rmd env)
      ∷ handled (codes "DELE") (do_dele env)
      ∷ handled (codes "RNFR") (do_rnfr env)
      ∷ handled (codes "RNTO") (do_rnto env)
      ∷ handled (codes "SITE") do_site
      ∷ handled (codes "SYST") (do_syst env)
      ∷ handled (codes "FEAT") (do_feat env)
      ∷ handled (codes "SIZE") do_size
      ∷ handled (codes "STAT") do_stat
      ∷ handled (codes "NOOP") (do_noop env)
      ∷ handled (codes "HELP") do_help
      ∷ unimplemented (codes "STOU")
      ∷ unimplemented (codes "ALLO")
      ∷ []

  unfoldable pub run_handler : Option (M (Unit {0})) → M (Unit {0})
  run_handler none = ftp_reply env Codes.command_not_impl (codes "Unimplement command.")
  run_handler (some handler) = handler

  -- The `for` over the table: the verb is made upper case in every round.
  unfoldable pub command_loop : List Command → M (Unit {0})
  command_loop [] = ftp_reply env Codes.bad_cmd (codes "Unknow command.")
  command_loop (c ∷ cs) =
      let next = command_loop cs in
      do
        modify (λ s. record s { comm = str_upper s.comm })
        comm ← ask (λ p. p.sess.comm)
        if same_bytes c.name comm then run_handler c.cmd_handler else next

  unfoldable pub do_command_map : Transfers → M (Unit {0})
  unfolding command_loop ctrl_cmds run_handler
  do_command_map transfers = command_loop (ctrl_cmds transfers)
