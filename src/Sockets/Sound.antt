-- ===== src/Sockets/Sound.antt =====
-- The calls of miniftpd/sysutil.c on sockets, files and the clock keep the session sound.
pub mod Opening
use mini_ftp.Base.{ℕ, Bool, true, false, Option, none, some, List, [], ◌∷◌, Bytes, if◌then◌else◌}
use mini_ftp.Base.Int.{ℤ}
use mini_ftp.Commands.Reply.{Env, sys}
use mini_ftp.Commands.Sound.{IsSound, sys-IsSound}
use mini_ftp.Session.Invariant.{
  Keeps, Leaves, bind-Leaves, if-Leaves, option-Leaves, done-Leaves, exited-Leaves, hung-Leaves,
}
use mini_ftp.Session.Kernel.{Lock, locked}
use mini_ftp.Session.{Session, Call, M, ◌>>=◌, ◌>>◌}
use mini_ftp.Sockets.{
  open_fd, need, need_fd, get_local_ip, lock_loop, lock_file_read, lock_file_write, unlock_file,
  get_curr_time,
}

module _ (env : Env) (s₀ : Session) where
  pub open_fd-IsSound : (c : Call) → Keeps (IsSound s₀) (open_fd env c)
  unfolding open_fd
  open_fd-IsSound c p h = done-Leaves _ _ h

  pub need-IsSound : (c : Call) → Keeps (IsSound s₀) (need env c)
  unfolding need
  need-IsSound c p h =
      bind-Leaves _ _ (sys-IsSound env s₀ c p h)
        λ ok q k. if-Leaves ok _ _ q (done-Leaves _ _ k) (exited-Leaves _ _ k)

  pub need_fd-IsSound : (c : Call) → Keeps (IsSound s₀) (need_fd env c)
  unfolding need_fd
  need_fd-IsSound c p h =
      option-Leaves (env.kernel.descriptor p.trace c) _ _ _ (exited-Leaves _ _ h)
        λ n. done-Leaves _ _ h

  pub get_local_ip-IsSound : Keeps (IsSound s₀) (get_local_ip env)
  unfolding get_local_ip
  get_local_ip-IsSound p h = bind-Leaves _ _ (need_fd-IsSound _ p h) λ fd q h.
      bind-Leaves _ _ (need-IsSound _ q h)
        λ _ q h. bind-Leaves _ _ (sys-IsSound env s₀ _ q h) λ _ q h. done-Leaves _ _ h

  lock_loop-IsSound : (fd : ℤ) (ls : List Lock) → Keeps (IsSound s₀) (lock_loop env fd ls)
  unfolding lock_loop
  lock_loop-IsSound fd [] p h = hung-Leaves _ h
  lock_loop-IsSound fd (Lock.interrupted ∷ ls) p h = lock_loop-IsSound fd ls _ h
  lock_loop-IsSound fd (locked ∷ ls) p h = done-Leaves _ _ h
  lock_loop-IsSound fd (Lock.refused ∷ ls) p h = done-Leaves _ _ h

  pub lock_file_read-IsSound : (fd : ℤ) → Keeps (IsSound s₀) (lock_file_read env fd)
  unfolding lock_file_read
  lock_file_read-IsSound fd p h = lock_loop-IsSound fd (env.kernel.locks p.trace) p h

  pub lock_file_write-IsSound : (fd : ℤ) → Keeps (IsSound s₀) (lock_file_write env fd)
  unfolding lock_file_write
  lock_file_write-IsSound fd p h = sys-IsSound env s₀ _ p h

  pub unlock_file-IsSound : (fd : ℤ) → Keeps (IsSound s₀) (unlock_file env fd)
  unfolding unlock_file
  unlock_file-IsSound fd p h = sys-IsSound env s₀ _ p h

  pub get_curr_time-IsSound : Keeps (IsSound s₀) (get_curr_time env)
  unfolding get_curr_time
  get_curr_time-IsSound p h =
      option-Leaves (env.kernel.gettimeofday p.trace) _ _ p (exited-Leaves _ _ h)
        λ now. done-Leaves _ _ h
