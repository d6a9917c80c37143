-- ===== src/TransData/Transfer/Events.antt =====
-- What a transfer of miniftpd/trans_data.c did: the bytes on the data connection and in the file, the
-- replies and the system calls.
use mini_ftp.Base.{◌≡◌, refl, ◌∙◌, Bool, true, false, List, [], ◌∷◌, ◌++◌, Bytes, if◌then◌else◌}
use mini_ftp.Base.Int.{ℤ}
use mini_ftp.Commands.Login.{calls}
use mini_ftp.Session.{Event, called, sent, sent_data, file_data, slept, Proc}

-- The bytes that went into the file, the first ones first.
abbrev pub into_file : List Event → Bytes
into_file [] = []
into_file (called c ∷ es) = into_file es
into_file (sent b ∷ es) = into_file es
into_file (sent_data b ∷ es) = into_file es
into_file (file_data b ∷ es) = into_file es ++ b
into_file (slept s n ∷ es) = into_file es

-- The bytes that went out on the data connection, the first ones first.
abbrev pub on_data : List Event → Bytes
on_data [] = []
on_data (called c ∷ es) = on_data es
on_data (sent b ∷ es) = on_data es
on_data (sent_data b ∷ es) = on_data es ++ b
on_data (file_data b ∷ es) = on_data es
on_data (slept s n ∷ es) = on_data es

-- The replies on the control connection, the last one first.
abbrev pub sent_replies : List Event → List Bytes
sent_replies [] = []
sent_replies (called c ∷ es) = sent_replies es
sent_replies (sent b ∷ es) = b ∷ sent_replies es
sent_replies (sent_data b ∷ es) = sent_replies es
sent_replies (file_data b ∷ es) = sent_replies es
sent_replies (slept s n ∷ es) = sent_replies es

-- From one state to another there is no reply, no call, and no other data connection.
pub record Keeps (p q : Proc) : Type 0 where
  pub same_replies : sent_replies q.trace ≡ sent_replies p.trace
  pub same_calls : calls q.trace ≡ calls p.trace
  pub same_data_fd : q.sess.data_fd ≡ p.sess.data_fd

pub Keeps-refl : {p : Proc} → Keeps p p
Keeps-refl = record { same_replies = refl; same_calls = refl; same_data_fd = refl }

pub Keeps-trans : {p q r : Proc} → Keeps p q → Keeps q r → Keeps p r
Keeps-trans h k = record {
  same_replies = k.same_replies ∙ h.same_replies;
  same_calls = k.same_calls ∙ h.same_calls;
  same_data_fd = k.same_data_fd ∙ h.same_data_fd;
}

-- A sleep, or none, shows in none of them.
pub record Quiet (t u : List Event) : Type 0 where
  pub into : into_file u ≡ into_file t
  pub on : on_data u ≡ on_data t
  pub replies : sent_replies u ≡ sent_replies t
  pub made : calls u ≡ calls t

pub Quiet-slept :
    (b : Bool) (sec nsec : ℤ) (t : List Event) → Quiet t (if b then slept sec nsec ∷ t else t)
Quiet-slept true sec nsec t = record { into = refl; on = refl; replies = refl; made = refl }
Quiet-slept false sec nsec t = record { into = refl; on = refl; replies = refl; made = refl }
