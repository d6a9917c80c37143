-- ===== src/TransCtrl/Alarms.antt =====
-- The handlers of SIGALRM of miniftpd/trans_ctrl.c, where `signal` sets them.
use mini_ftp.Base.{◌≡◌, ◌∷◌}
use mini_ftp.Commands.Login.{Succeeds}
use mini_ftp.Commands.Reply.{Env}
use mini_ftp.Session.{called, signal_ctrl_fd, signal_data_fd, Proc, done}
use mini_ftp.Sockets.Calls.{need-Succeeds}
use mini_ftp.TransCtrl.{setup_signal_alarm_ctrl_fd, setup_signal_alarm_data_fd}

pub setup_ctrl_lem :
    (env : Env) (p : Proc)
    → Succeeds env
    → setup_signal_alarm_ctrl_fd env p
      ≡ done tt (record p { trace = called signal_ctrl_fd ∷ p.trace })
unfolding setup_signal_alarm_ctrl_fd
setup_ctrl_lem env p s = need-Succeeds env signal_ctrl_fd p s

pub setup_data_lem :
    (env : Env) (p : Proc)
    → Succeeds env
    → setup_signal_alarm_data_fd env p
      ≡ done tt (record p { trace = called signal_data_fd ∷ p.trace })
unfolding setup_signal_alarm_data_fd
setup_data_lem env p s = need-Succeeds env signal_data_fd p s
