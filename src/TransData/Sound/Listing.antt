-- ===== src/TransData/Sound/Listing.antt =====
-- LIST and NLST of miniftpd/trans_data.c keep the session sound.
use mini_ftp.Base.{List, [], ◌∷◌, ltb, Bytes, length}
use mini_ftp.Commands.Reply.{Env}
use mini_ftp.Commands.Sound.{IsSound, sys-IsSound, ftp_reply-IsSound}
use mini_ftp.Session.Invariant.{
  Keeps, Leaves, bind-Leaves, if-Leaves, option-Leaves, done-Leaves, exited-Leaves, killed-Leaves,
  hung-Leaves, faulted-Leaves,
}
use mini_ftp.Session.Kernel.{Stat}
use mini_ftp.Session.{Session, sent_data, Proc, Out, done, killed, hung, M}
use mini_ftp.Sockets.Sound.{need-IsSound}
use mini_ftp.Sysutil.{Put, wrote, write_failed, stopped, stalled, writen}
use mini_ftp.TransData.Sound.{get_trans_data_fd-IsSound}
use mini_ftp.TransData.Listing.{
  in_array, is_link, statbuf_get_date, link_text, statbuf_get_filename, data_write, stat_entry,
  list_entry, name_entry, hidden, entries_loop, trans_entries, trans_list, trans_list_simple,
  do_listing, do_list, do_nlst,
}

module _ (env : Env) (s₀ : Session) where
  put-IsSound :
      (r : Put) (p : Proc)
      → IsSound s₀ p.sess
      → Leaves (IsSound s₀) (
          let out : Out (Unit {0}) = elim r [
            | wrote b s ↦ done tt (record p { trace = sent_data b ∷ p.trace })
            | write_failed b s ↦ done tt (record p { trace = sent_data b ∷ p.trace })
            | stopped b ↦ killed (record p { trace = sent_data b ∷ p.trace })
            | stalled b ↦ hung (record p { trace = sent_data b ∷ p.trace })
          ] in
          out)
  put-IsSound (wrote b s) p h = done-Leaves _ _ h
  put-IsSound (write_failed b s) p h = done-Leaves _ _ h
  put-IsSound (stopped b) p h = killed-Leaves _ h
  put-IsSound (stalled b) p h = hung-Leaves _ h

  data_write-IsSound : (b : Bytes) → Keeps (IsSound s₀) (data_write env b)
  unfolding data_write
  data_write-IsSound b p h = put-IsSound (writen (env.kernel.data_departures p.trace) b) p h

  in_array-IsSound : (text : Bytes) → Keeps (IsSound s₀) (in_array text)
  unfolding in_array
  in_array-IsSound text p h =
      if-Leaves (ltb (length text) 1024) _ _ p (done-Leaves _ _ h) (faulted-Leaves _ h)

  statbuf_get_date-IsSound : (s : Stat) → Keeps (IsSound s₀) (statbuf_get_date env s)
  unfolding statbuf_get_date
  statbuf_get_date-IsSound s p h =
      option-Leaves (env.kernel.date_text s.st_ctime) _ _ p (exited-Leaves _ _ h)
        λ text. done-Leaves _ _ h

  link_text-IsSound : (name : Bytes) → Keeps (IsSound s₀) (link_text env name)
  unfolding link_text
  link_text-IsSound name p h =
      option-Leaves (env.kernel.readlink p.trace name) _ _ _ (exited-Leaves _ _ h)
        λ text. bind-Leaves _ _ (in_array-IsSound text _ h) λ linkfile q k. done-Leaves _ _ k

  statbuf_get_filename-IsSound :
      (s : Stat) (name : Bytes) → Keeps (IsSound s₀) (statbuf_get_filename env s name)
  unfolding statbuf_get_filename
  statbuf_get_filename-IsSound s name p h =
      if-Leaves (is_link s.st_mode) _ _ p (link_text-IsSound name p h) (in_array-IsSound name p h)

  stat_entry-IsSound : (name : Bytes) → Keeps (IsSound s₀) (stat_entry env name)
  unfolding stat_entry
  stat_entry-IsSound name p h =
      option-Leaves (env.kernel.lstat p.trace name) _ _ _ (exited-Leaves _ _ h)
        λ s. done-Leaves _ _ h

  list_entry-IsSound : (name : Bytes) → Keeps (IsSound s₀) (list_entry env name)
  unfolding list_entry
  list_entry-IsSound name p h = bind-Leaves _ _ (stat_entry-IsSound name p h) λ s q h.
      bind-Leaves _ _ (statbuf_get_date-IsSound s _ h) λ date q h.
        bind-Leaves _ _ (statbuf_get_filename-IsSound s name q h) λ filename q h.
          bind-Leaves _ _ (in_array-IsSound _ q h) λ line q h. data_write-IsSound line q h

  name_entry-IsSound : (name : Bytes) → Keeps (IsSound s₀) (name_entry env name)
  unfolding name_entry
  name_entry-IsSound name p h = bind-Leaves _ _ (stat_entry-IsSound name p h) λ s q h.
      bind-Leaves _ _ (statbuf_get_filename-IsSound s name q h) λ filename q h.
        bind-Leaves _ _ (in_array-IsSound _ q h) λ line q h. data_write-IsSound line q h

  entries_loop-IsSound :
      (entry : Bytes → M (Unit {0}))
      → ((name : Bytes) → Keeps (IsSound s₀) (entry name))
      → (names : List Bytes) → Keeps (IsSound s₀) (entries_loop env entry names)
  unfolding entries_loop
  entries_loop-IsSound entry sound [] p h = done-Leaves _ _ h
  entries_loop-IsSound entry sound (name ∷ names) p h =
      bind-Leaves _ _ (if-Leaves (hidden env name) _ _ p (done-Leaves _ _ h) (sound name p h))
        λ _ q k. entries_loop-IsSound entry sound names q k

  trans_entries-IsSound :
      (entry : Bytes → M (Unit {0}))
      → ((name : Bytes) → Keeps (IsSound s₀) (entry name))
      → Keeps (IsSound s₀) (trans_entries env entry)
  unfolding trans_entries
  trans_entries-IsSound entry sound p h =
      bind-Leaves _ _ (need-IsSound env s₀ _ p h)
        λ _ q k. entries_loop-IsSound entry sound (env.kernel.readdir q.trace) q k

  do_listing-IsSound :
      (m : M (Unit {0})) → Keeps (IsSound s₀) m → Keeps (IsSound s₀) (do_listing env m)
  unfolding do_listing
  do_listing-IsSound m sound p h = bind-Leaves _ _ (get_trans_data_fd-IsSound env s₀ p h) λ _ q h.
      bind-Leaves _ _ (ftp_reply-IsSound env s₀ _ _ q h) λ _ q h.
        bind-Leaves _ _ (sound q h) λ _ q h.
          bind-Leaves _ _ (sys-IsSound env s₀ _ q h) λ _ q h. ftp_reply-IsSound env s₀ _ _ _ h

  pub do_list-IsSound : Keeps (IsSound s₀) (do_list env)
  unfolding do_list trans_list
  do_list-IsSound = do_listing-IsSound _ (trans_entries-IsSound _ list_entry-IsSound)

  pub do_nlst-IsSound : Keeps (IsSound s₀) (do_nlst env)
  unfolding do_nlst trans_list_simple
  do_nlst-IsSound = do_listing-IsSound _ (trans_entries-IsSound _ name_entry-IsSound)
