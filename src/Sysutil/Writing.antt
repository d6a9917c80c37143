-- ===== src/Sysutil/Writing.antt =====
-- `writen` of miniftpd/sysutil.c.
use mini_ftp.Base.{
  ℕ, zero, suc, ◌+◌, ◌≤◌, ◌≡◌, ◌≢◌, refl, ◌∙◌, Bool, true, false, List, [], ◌∷◌, ◌++◌, arith, Bytes,
  length, take, drop, append_assoc, append-nil, take-append-drop, length-drop, all,
}
use mini_ftp.Sysutil.{
  Departure, reset, accepts, Put, wrote, write_failed, stopped, stalled, writen_loop, writen,
}

-- No call fails, and the number of calls that take a byte.
abbrev pub write_ok : Departure → Bool
write_ok Departure.broken = false
write_ok reset = false
write_ok Departure.interrupted = true
write_ok (accepts k) = true

abbrev pub takes : List Departure → ℕ
takes [] = 0
takes (Departure.broken ∷ s) = takes s
takes (reset ∷ s) = takes s
takes (Departure.interrupted ∷ s) = takes s
takes (accepts zero ∷ s) = takes s
takes (accepts (suc k) ∷ s) = suc (takes s)

-- What a write of `spent` bytes at most leaves of a schedule.
pub record Kept (spent : ℕ) (before after : List Departure) : Type 0 where
  pub calm : all write_ok after ≡ true
  pub enough : takes before ≤ takes after + spent

writen_loop-wrote :
    (schedule : List Departure) (buf sent : Bytes)
    → all write_ok schedule ≡ true
    → length buf ≤ takes schedule
    → (s : List Departure) × (writen_loop schedule buf sent ≡ wrote (sent ++ buf) s)
      × Kept (length buf) schedule s
unfolding writen_loop
writen_loop-wrote schedule [] sent h l =
    (schedule, rw append-nil, record { calm = h; enough = omega arith })
writen_loop-wrote [] (c ∷ buf) sent h l = absurd (omega arith)
writen_loop-wrote (Departure.broken ∷ s) (c ∷ buf) sent h l = cc
writen_loop-wrote (reset ∷ s) (c ∷ buf) sent h l = cc
writen_loop-wrote (Departure.interrupted ∷ s) (c ∷ buf) sent h l =
    let (s', e, k) = writen_loop-wrote s (c ∷ buf) sent h l in
    (s', e, record { calm = k.calm; enough = k.enough })
writen_loop-wrote (accepts zero ∷ s) (c ∷ buf) sent h l =
    let (s', e, k) = writen_loop-wrote s (c ∷ buf) (sent ++ []) h l in
    (s', e ∙ rw append-nil, record { calm = k.calm; enough = k.enough })
writen_loop-wrote (accepts (suc k) ∷ s) (c ∷ buf) sent h l =
    let (s', e, kept) =
      writen_loop-wrote s (drop k buf) (sent ++ (c ∷ take k buf)) h
        (omega (arith, length-drop k buf)) in
    (
      s',
      e ∙ rw (append_assoc, take-append-drop),
      record { calm = kept.calm; enough = omega (arith, kept.enough, length-drop k buf) },
    )

-- The same, with what is left of the schedule.
pub writen-Kept :
    (schedule : List Departure) (buf : Bytes)
    → all write_ok schedule ≡ true
    → length buf ≤ takes schedule
    → (s : List Departure) × (writen schedule buf ≡ wrote buf s) × Kept (length buf) schedule s
unfolding writen
writen-Kept schedule buf h l = writen_loop-wrote schedule buf [] h l

-- If no call of `write` fails and the kernel keeps taking bytes, the count is returned and the
-- whole buffer went out, in order, however the kernel cuts it up.
pub writen-wrote :
    (schedule : List Departure) (buf : Bytes)
    → all write_ok schedule ≡ true
    → length buf ≤ takes schedule
    → (s : List Departure) × (writen schedule buf ≡ wrote buf s)
writen-wrote schedule buf h l = let (s, e, k) = writen-Kept schedule buf h l in (s, e)

-- The bytes that went out, and whether the count was returned.
abbrev pub sent_of : Put → Bytes
sent_of (wrote b s) = b
sent_of (write_failed b s) = b
sent_of (stopped b) = b
sent_of (stalled b) = b

abbrev pub Unsent : Put → Bytes → Type 0
Unsent (wrote b s) rest = rest ≡ []
Unsent (write_failed b s) rest = rest ≢ []
Unsent (stopped b) rest = rest ≢ []
Unsent (stalled b) rest = rest ≢ []

writen_loop-prefix :
    (schedule : List Departure) (buf sent : Bytes)
    → (rest : Bytes) × (sent_of (writen_loop schedule buf sent) ++ rest ≡ sent ++ buf)
      × Unsent (writen_loop schedule buf sent) rest
unfolding writen_loop
writen_loop-prefix schedule [] sent = ([], refl, refl)
writen_loop-prefix [] (c ∷ buf) sent = (c ∷ buf, refl, λ e. cc)
writen_loop-prefix (Departure.broken ∷ s) (c ∷ buf) sent = (c ∷ buf, refl, λ e. cc)
writen_loop-prefix (reset ∷ s) (c ∷ buf) sent = (c ∷ buf, refl, λ e. cc)
writen_loop-prefix (Departure.interrupted ∷ s) (c ∷ buf) sent = writen_loop-prefix s (c ∷ buf) sent
writen_loop-prefix (accepts k ∷ s) (c ∷ buf) sent =
    let (rest, e, u) = writen_loop-prefix s (drop k (c ∷ buf)) (sent ++ take k (c ∷ buf)) in
    (rest, e ∙ rw (append_assoc, take-append-drop), u)

-- On every schedule, failures included, the bytes that went out are the front of the buffer, and
-- the count is returned exactly when nothing is left.
writen-prefix :
    (schedule : List Departure) (buf : Bytes)
    → (rest : Bytes) × (sent_of (writen schedule buf) ++ rest ≡ buf)
      × Unsent (writen schedule buf) rest
unfolding writen
writen-prefix schedule buf = writen_loop-prefix schedule buf []
