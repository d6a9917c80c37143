-- ===== src/TransCtrl/Sample.antt =====
-- Numbers in the place of `double`, to run miniftpd/trans_ctrl.c on: seconds are whole numbers.
use mini_ftp.Base.{ℕ, ◌+◌, ◌-◌, ◌*◌, ◌/◌, refl, ltb}
use mini_ftp.Base.Int.{ℤ, pos, negsuc}
use mini_ftp.Commands.Sample.{host}
use mini_ftp.TransCtrl.Rate.{Steady}
use mini_ftp.TransCtrl.{Double}

abbrev magnitude : ℤ → ℕ
magnitude (pos n) = n
magnitude (negsuc n) = 0

abbrev pub whole_numbers : Double ℕ
whole_numbers = record {
  from_int = ◌-◌;
  to_int = pos;
  plus = ◌+◌;
  minus = ◌-◌;
  times = ◌*◌;
  over = ◌/◌;
  less = ltb;
  from_ℤ = magnitude;
  nought = 0;
  one = 1;
  tiny = 1;
  milli = 1;
  million = 1000000;
  billion = 1000000000;
}

abbrev pub host-Steady : Steady host
host-Steady = record { clock = λ trace. ((1000, 0), refl); naps = λ trace. refl }
