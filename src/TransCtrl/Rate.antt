-- ===== src/TransCtrl/Rate.antt =====
-- What `limit_curr_rate` of miniftpd/trans_ctrl.c does to the process.
use mini_ftp.Base.{ℕ, ◌≡◌, refl, ◌∙◌, Bool, true, false, some, List, [], ◌∷◌, ◌&&◌, if◌then◌else◌}
use mini_ftp.Base.Int.{ℤ}
use mini_ftp.Commands.Reply.{Env}
use mini_ftp.Session.Kernel.{ready, returns}
use mini_ftp.Session.{Event, slept, Proc, Out, done, M, bind-done}
use mini_ftp.Sockets.{get_curr_time}
use mini_ftp.TransCtrl.{
  Double, is_limit, elapsed_time, nap_loop, nano_sleep, set_start_time, slow_down, limit_curr_rate,
}

-- The clock can be read, and no sleep fails or is interrupted.
pub record Steady (env : Env) : Type 0 where
  pub clock : (trace : List Event) → (now : ℕ × ℕ) × (env.kernel.gettimeofday trace ≡ some now)
  pub naps : (trace : List Event) → env.kernel.naps trace ≡ returns ready ∷ []

-- The state with the time of the clock as the start time.
abbrev pub restarted : Proc → ℕ × ℕ → Proc
restarted p now = record p {
  sess = record p.sess { start_time_sec = now.0; start_time_usec = now.1 };
}

branches :
    {B : Type 0} (b : Bool) (m n : M B) (p : Proc) (f : Bool → Out B)
    → m p ≡ f true
    → n p ≡ f false
    → (if b then m else n) p ≡ f b
branches true m n p f h k = h
branches false m n p f h k = k

module _ (env : Env) (steady : Steady env) where
  time_lem : (p : Proc) → get_curr_time env p ≡ done (steady.clock p.trace).0 p
  unfolding get_curr_time
  time_lem p = rw ((steady.clock p.trace).1, get_curr_time) refl

  pub set_start_time_lem :
      (p : Proc) → set_start_time env p ≡ done tt (restarted p (steady.clock p.trace).0)
  unfolding set_start_time
  set_start_time_lem p = bind-done (get_curr_time env) _ p (time_lem p)

  module _ {W : Type 0} (d : Double W) where
    -- The test of the limit: the rate since the start time is over it.
    abbrev pub over_limit : ℕ → Bool → Proc → Bool
    over_limit nbytes is_up p =
        let limit = if is_up then p.sess.limits_max_upload else p.sess.limits_max_download in
        is_limit limit
        && d.less (d.from_int limit 0) (
            d.over (d.from_int nbytes 0) (
              elapsed_time d (steady.clock p.trace).0
                (p.sess.start_time_sec, p.sess.start_time_usec)))

    nano_sleep_lem :
        (t : W) (p : Proc)
        → (sec nsec : ℤ) × (nano_sleep d env t p
            ≡ done true (record p { trace = slept sec nsec ∷ p.trace }))
    unfolding nano_sleep nap_loop
    nano_sleep_lem t p =
        let sec : ℤ = d.to_int t in
        let nsec : ℤ = d.to_int (d.times (d.minus t (d.from_ℤ sec)) d.billion) in
        (sec, nsec, rw (steady.naps p.trace) refl)

    slow_down_lem :
        (elapsed rate : W) (limit : ℕ) (p : Proc)
        → (sec nsec : ℤ) × (slow_down d env elapsed rate limit p
            ≡ done tt (
                restarted
                  (record p { trace = slept sec nsec ∷ p.trace })
                  (steady.clock (slept sec nsec ∷ p.trace)).0))
    unfolding slow_down
    slow_down_lem elapsed rate limit p =
        let t : W = d.times (d.minus (d.over rate (d.from_int limit 0)) d.one) elapsed in
        let (sec, nsec, e) = nano_sleep_lem t p in
        (
          sec,
          nsec,
          bind-done (nano_sleep d env t) _ p e
              ∙ set_start_time_lem (record p { trace = slept sec nsec ∷ p.trace }),
        )

    -- Where the clock can be read and a sleep goes through, the function returns. It has slept once if
    -- the limit is above 0 as an `int` and the rate since the start time was over it, and not at all
    -- otherwise. In both cases the start time is the time at the end, and nothing else has changed.
    pub limit_curr_rate_lem :
        (nbytes : ℕ) (is_up : Bool) (p : Proc)
        → (sec nsec : ℤ) × (let t =
              if over_limit nbytes is_up p then slept sec nsec ∷ p.trace else p.trace in
            limit_curr_rate d env nbytes is_up p
            ≡ done tt (restarted (record p { trace = t }) (steady.clock t).0))
    unfolding limit_curr_rate
    limit_curr_rate_lem nbytes is_up p =
        let limit : ℕ = if is_up then p.sess.limits_max_upload else p.sess.limits_max_download in
        let elapsed : W =
          elapsed_time d (steady.clock p.trace).0 (p.sess.start_time_sec, p.sess.start_time_usec) in
        let rate : W = d.over (d.from_int nbytes 0) elapsed in
        let (sec, nsec, e) = slow_down_lem elapsed rate limit p in
        (
          sec,
          nsec,
          bind-done (get_curr_time env) _ p (time_lem p)
              ∙ branches (over_limit nbytes is_up p) (slow_down d env elapsed rate limit)
                  (set_start_time env) p
                  (λ b.
                    let t = if b then slept sec nsec ∷ p.trace else p.trace in
                    done tt (restarted (record p { trace = t }) (steady.clock t).0))
                  e (set_start_time_lem p),
        )
