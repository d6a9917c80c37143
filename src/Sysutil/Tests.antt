-- ===== src/Sysutil/Tests.antt =====
-- The calls of miniftpd/sysutil.c on concrete schedules of the kernel.
use mini_ftp.Base.{◌≡◌, refl, none, some, List, [], ◌∷◌, arith, drop, ◌-◌}
use mini_ftp.Base.Text.{codes}
use mini_ftp.Sysutil.Readline.{next_line, readline-next_line}
use mini_ftp.Sysutil.Writing.{writen-wrote}
use mini_ftp.Sysutil.{
  Arrival, up_to, readn, recv_peek, line, ended, readline, Departure, accepts, wrote, writen,
}

-- Two bytes at a time at most, with an interruption; and a byte at a time.
abbrev pieces : List Arrival
pieces =
    up_to 1
    ∷ Arrival.interrupted
    ∷ up_to 0
    ∷ up_to 1
    ∷ up_to 1
    ∷ up_to 5
    ∷ up_to 1
    ∷ up_to 1
    ∷ up_to 2
    ∷ up_to 1
    ∷ up_to 1
    ∷ up_to 1
    ∷ up_to 1
    ∷ []

abbrev slow : List Departure
slow = accepts 1 ∷ Departure.interrupted ∷ accepts 0 ∷ accepts 2 ∷ accepts 1 ∷ []

two_lines :
    readline pieces (codes "ab\ncd\n") 6 ≡ line (codes "ab\n") (codes "cd\n") (drop 6 pieces)
unfolding readline recv_peek readn
two_lines = refl

readline-next_line_example :
    (s : List Arrival) × (readline pieces (codes "ab\ncd\n") 6
      ≡ elim (next_line (6 - 1) (codes "ab\ncd\n")) [
        | none ↦ ended
        | some (l, rest) ↦ line l rest s
      ])
readline-next_line_example = readline-next_line pieces (codes "ab\ncd\n") 6 refl (omega arith)

writen-wrote_example : (s : List Departure) × (writen slow (codes "ok\n") ≡ wrote (codes "ok\n") s)
writen-wrote_example = writen-wrote slow (codes "ok\n") refl (omega arith)
