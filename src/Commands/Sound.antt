-- ===== src/Commands/Sound.antt =====
-- What the commands of miniftpd/command_map.c never change in the session, in replies and calls.
pub mod Handlers
pub mod Table
use mini_ftp.Base.{
  List, [], ◌∷◌, ℕ, ◌≤◌, ◌≡◌, Bool, true, false, Option, none, some, if◌then◌else◌, Bytes,
  same_bytes, arith,
}
use mini_ftp.Base.Text.{codes}
use mini_ftp.Commands.Handlers.{
  must, do_user, log_in, check_password, do_pass, call_or_fail, do_cwd, do_cdup, do_quit, do_port,
  set_mode, do_type, do_rest, do_pwd, starts_with_slash, created, do_mkd, do_rmd, do_dele, do_rnfr,
  renamed, rename_to, do_rnto, do_syst, do_feat, do_noop,
}
use mini_ftp.Commands.Reply.{Passwd, Env, ftp_reply, ftp_lreply, control_write, sys}
use mini_ftp.Session.Invariant.{
  Keeps, Leaves, faulted-Leaves, bind-Leaves, if-Leaves, option-Leaves, done-Leaves, exited-Leaves,
}
use mini_ftp.Session.{Session, Call, Proc, Out, done, killed, hung, Event, sent, M, ◌>>=◌, ◌>>◌}
use mini_ftp.Sysutil.{Put, wrote, write_failed, stopped, stalled, writen}

-- What no command changes, against the session `s₀` of the start.
abbrev pub IsSound : Session → Session → Type 0
IsSound s₀ s =
    (s.peerfd ≡ s₀.peerfd)
    × (s.nobody_fd ≡ s₀.nobody_fd)
    × (s.proto_fd ≡ s₀.proto_fd)
    × (s.ascii_mode ≤ 1)
    × (s.is_translating_data ≤ 1)

module _ (env : Env) (s₀ : Session) where
  pub put-IsSound :
      (r : Put) (p : Proc)
      → IsSound s₀ p.sess
      → Leaves {A = Unit {0}} (IsSound s₀) (elim r [
        | wrote b s ↦ done tt (record p { trace = sent b ∷ p.trace })
        | write_failed b s ↦ done tt (record p { trace = sent b ∷ p.trace })
        | stopped b ↦ killed (record p { trace = sent b ∷ p.trace })
        | stalled b ↦ hung (record p { trace = sent b ∷ p.trace })
      ])
  put-IsSound (wrote b s) p h = record { holds = h }
  put-IsSound (write_failed b s) p h = record { holds = h }
  put-IsSound (stopped b) p h = record { holds = h }
  put-IsSound (stalled b) p h = record { holds = h }

  pub control_write-IsSound : (b : Bytes) → Keeps (IsSound s₀) (control_write env b)
  unfolding control_write
  control_write-IsSound b p h = put-IsSound (writen (env.departures p.trace) b) p h

  pub sys-IsSound : (c : Call) → Keeps (IsSound s₀) (sys env c)
  unfolding sys
  sys-IsSound c p h = record { holds = h }

  pub ftp_reply-IsSound : (n : ℕ) (b : Bytes) → Keeps (IsSound s₀) (ftp_reply env n b)
  unfolding ftp_reply
  ftp_reply-IsSound n b = control_write-IsSound _

  pub ftp_lreply-IsSound : (n : ℕ) (b : Bytes) → Keeps (IsSound s₀) (ftp_lreply env n b)
  unfolding ftp_lreply
  ftp_lreply-IsSound n b = control_write-IsSound _
