-- ===== src/Commands/Tests.antt =====
-- The commands of miniftpd/command_map.c for one user of a concrete system.
use mini_ftp.Base.{Each, ℕ, zero, suc, ◌≡◌, refl, false, [], ◌∷◌, arith, Bytes}
use mini_ftp.Base.Text.{codes, zeros, length-zeros}
use mini_ftp.Commands.Answers.{Answers, answering, answering-Answers}
use mini_ftp.Commands.Dispatch.{handler_of, answer, upper_comm, do_command_map_lem}
use mini_ftp.Commands.Framing.{framed, ftp_reply_whole, ftp_reply_cut}
use mini_ftp.Commands.Handlers.{do_pass}
use mini_ftp.Commands.Login.{calls, proc_of, logged_in, do_pass_refused, do_pass_granted}
use mini_ftp.Commands.Renaming.{rename_pair, ready, renamed_by, rename_pair_lem}
use mini_ftp.Commands.Reply.{ftp_reply}
use mini_ftp.Commands.Sample.{alice, host, host-Delivers, host-Succeeds, idle, with_command}
use mini_ftp.Commands.Table.{ctrl_cmds, do_command_map}
use mini_ftp.Session.{done, sent}
use mini_ftp.Strutil.Split.{has_char}
use mini_ftp.Strutil.{str_upper}

do_pass_refused_example :
    (calls (proc_of (do_pass host (with_command [] (codes "wrong")))).trace ≡ [])
    × ((proc_of (do_pass host (with_command [] (codes "wrong")))).sess
        ≡ (with_command [] (codes "wrong")).sess)
do_pass_refused_example =
    do_pass_refused host (with_command [] (codes "wrong")) (λ pw stored (e, f, g). cc)

do_pass_granted_example :
    do_pass host (with_command [] (codes "secret"))
    ≡ done tt (record (with_command [] (codes "secret")) { trace = logged_in host alice [] })
do_pass_granted_example =
    do_pass_granted host (with_command [] (codes "secret")) alice (codes "stored") host-Delivers
      host-Succeeds (refl, refl, refl)

rename_pair_lem_example :
    rename_pair host (codes "a") (codes "b") (with_command [] [])
    ≡ done tt (
        renamed_by host
          (codes "a")
          (codes "b")
          (ready (codes "a") (codes "b") (with_command [] [])))
rename_pair_lem_example =
    rename_pair_lem host (codes "a") (codes "b") (with_command [] []) host-Delivers

ftp_reply_whole_example :
    ftp_reply host 230 (codes "Login successful.") (with_command [] [])
    ≡ done tt
        (record (with_command [] []) { trace = sent (framed 230 (codes "Login successful.")) ∷ [] })
ftp_reply_whole_example =
    ftp_reply_whole host 230 (codes "Login successful.") (with_command [] []) host-Delivers
      (omega arith) (omega arith) (omega arith)

no_newline_zeros : (n : ℕ) → has_char 10 (zeros n) ≡ false
unfolding has_char
no_newline_zeros zero = refl
no_newline_zeros (suc n) = no_newline_zeros n

ftp_reply_cut_example :
    (cut : Bytes) × (ftp_reply host 257 (zeros 1018) (with_command [] [])
      ≡ done tt (record (with_command [] []) { trace = sent cut ∷ [] }))
    × (has_char 10 cut ≡ false)
ftp_reply_cut_example =
    ftp_reply_cut host 257 (zeros 1018) (with_command [] []) host-Delivers (omega arith)
      (omega arith) (no_newline_zeros 1018) (omega (arith, length-zeros 1018))

do_command_map_lem_example :
    do_command_map host idle (with_command (codes "Acct") [])
    ≡ answer host
        (handler_of (ctrl_cmds host idle) (str_upper (codes "Acct")))
        (upper_comm (with_command (codes "Acct") []))
do_command_map_lem_example = do_command_map_lem host idle (with_command (codes "Acct") [])

answering-Answers_example : Each Answers (answering host)
answering-Answers_example = answering-Answers host host-Delivers
