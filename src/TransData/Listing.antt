-- ===== src/TransData/Listing.antt =====
-- The listings of miniftpd/trans_data.c: LIST and NLST.
pub mod Perms
use mini_ftp.Base.{
  ℕ, zero, suc, ◌+◌, ◌-◌, ◌/◌, ◌%◌, ◌^◌, Bool, true, false, Option, none, some, List, [], ◌∷◌, ◌++◌,
  ltb, leb, ◌==◌, if◌then◌else◌, Bytes, length, take, set, get_or, replicate,
}
use mini_ftp.Base.Decimal.{decimal}
use mini_ftp.Base.Int.{ℤ, minus_one}
use mini_ftp.Base.Text.{codes}
use mini_ftp.Commands.Codes
use mini_ftp.Commands.Reply.{Env, snprintf, crlf, ftp_reply, sys}
use mini_ftp.Session.Kernel.{Stat}
use mini_ftp.Session.{
  Session, Call, opendir, close, Event, called, lstat, readlink, sent_data, Proc, Out, done, killed,
  hung, M, pure, ◌>>=◌, ◌>>◌, ask, modify, log, exit, fault,
}
use mini_ftp.Sockets.{need}
use mini_ftp.Sysutil.{wrote, write_failed, stopped, stalled, writen}
use mini_ftp.TransData.{get_trans_data_fd}

-- Bit `i` of a mode, and its four bits for the type.
abbrev pub bit : ℕ → ℕ → Bool
bit mode i = mode / 2 ^ i % 2 == 1

-- S_IFSOCK, S_IFLNK, S_IFREG, S_IFBLK, S_IFDIR, S_IFCHR and S_IFIFO.
unfoldable pub type_letter : ℕ → Option ℕ
type_letter kind =
    if kind == 12
    then some b's'
    else if kind == 10
    then some b'l'
    else if kind == 8
    then some b'-'
    else if kind == 6
    then some b'b'
    else if kind == 4
    then some b'd'
    else if kind == 2
    then some b'c'
    else if kind == 1
    then some b'p'
    else none

abbrev pub set_type : Option ℕ → Bytes → Bytes
set_type none perms = perms
set_type (some c) perms = set perms 0 c

unfoldable pub set_if : Bool → Bytes → ℕ → ℕ → Bytes
set_if b perms i c = if b then set perms i c else perms

-- The static array is changed in place: no letter is taken out of it.
unfoldable pub statbuf_get_perms : ℕ → Bytes → Bytes
unfolding type_letter
statbuf_get_perms mode p =
    let p₀ = set_type (type_letter (mode / 2 ^ 12 % 16)) p in
    let p₁ = set_if (bit mode 8) p₀ 1 b'r' in
    let p₂ = set_if (bit mode 7) p₁ 2 b'w' in
    let p₃ = set_if (bit mode 6) p₂ 3 b'x' in
    let p₄ = set_if (bit mode 5) p₃ 4 b'r' in
    let p₅ = set_if (bit mode 4) p₄ 5 b'w' in
    let p₆ = set_if (bit mode 3) p₅ 6 b'x' in
    let p₇ = set_if (bit mode 2) p₆ 7 b'r' in
    let p₈ = set_if (bit mode 1) p₇ 8 b'w' in
    let p₉ = set_if (bit mode 0) p₈ 9 b'x' in
    let q₃ = set_if (bit mode 11) p₉ 3 (if get_or p₉ 3 0 == b'x' then b's' else b'S') in
    let q₆ = set_if (bit mode 10) q₃ 6 (if get_or q₃ 6 0 == b'x' then b's' else b'S') in
    set_if (bit mode 9) q₆ 9 (if get_or q₆ 9 0 == b'x' then b't' else b'T')

abbrev pub is_link : ℕ → Bool
is_link mode = mode / 2 ^ 12 % 16 == 10

-- `%d` of 32 bits, and a text that is filled up with blanks on its left.
unfoldable pub int_text : ℕ → Bytes
int_text n = let w = n % 2 ^ 32 in if ltb w (2 ^ 31) then decimal w else b'-' ∷ decimal (2 ^ 32 - w)

abbrev pub padded : ℕ → Bytes → Bytes
padded width text = replicate (width - length text) b' ' ++ text

unfoldable pub statbuf_get_user_info : Stat → Bytes
unfolding int_text
statbuf_get_user_info s = snprintf 1024 (
    padded 3 (int_text s.st_nlink)
    ++ (b' ' ∷ (padded 8 (int_text s.st_uid) ++ (b' ' ∷ padded 8 (int_text s.st_gid)))))

unfoldable pub statbuf_get_size : Stat → Bytes
statbuf_get_size s = snprintf 100 (padded 8 (decimal s.st_size))

-- A string in an array of 1024 bytes: a longer one is a fault.
unfoldable pub in_array : Bytes → M Bytes
in_array text = if ltb (length text) 1024 then pure text else fault

module _ (env : Env) where
  unfoldable pub statbuf_get_date : Stat → M Bytes
  statbuf_get_date s = elim (env.kernel.date_text s.st_ctime) [
    | none ↦ exit 1
    | some text ↦ pure text
  ]

  -- `readlink` writes no NUL, so that a target of 1024 bytes or more is read past its array.
  unfoldable pub link_text : Bytes → M Bytes
  unfolding in_array
  link_text name = do
    target ← ask (λ p. env.kernel.readlink p.trace name)
    log (called (readlink name))
    elim target [
      | none ↦ exit 1
      | some text ↦ do
        linkfile ← in_array text
        pure (snprintf 1024 (b' ' ∷ (name ++ (codes " -> " ++ linkfile))))
    ]

  unfoldable pub statbuf_get_filename : Stat → Bytes → M Bytes
  unfolding link_text in_array
  statbuf_get_filename s name = if is_link s.st_mode then link_text name else in_array name

  -- `writen` on the data connection, whose result is not read.
  unfoldable pub data_write : Bytes → M (Unit {0})
  data_write buf p = elim (writen (env.kernel.data_departures p.trace) buf) [
    | wrote b s ↦ done tt (record p { trace = sent_data b ∷ p.trace })
    | write_failed b s ↦ done tt (record p { trace = sent_data b ∷ p.trace })
    | stopped b ↦ killed (record p { trace = sent_data b ∷ p.trace })
    | stalled b ↦ hung (record p { trace = sent_data b ∷ p.trace })
  ]

  unfoldable pub stat_entry : Bytes → M Stat
  stat_entry name = do
    found ← ask (λ p. env.kernel.lstat p.trace name)
    log (called (lstat name))
    elim found [ none ↦ exit 1 | some s ↦ pure s ]

  unfoldable pub update_perms : ℕ → M Bytes
  update_perms mode p =
      done (statbuf_get_perms mode p.perms) (record p { perms = statbuf_get_perms mode p.perms })

  -- One line of LIST. The pieces go to an array of 1024 bytes one behind another.
  unfoldable pub list_entry : Bytes → M (Unit {0})
  unfolding stat_entry update_perms statbuf_get_date statbuf_get_filename data_write
  list_entry name = do
    s ← stat_entry name
    perms ← update_perms s.st_mode
    date ← statbuf_get_date s
    filename ← statbuf_get_filename s name
    line ← in_array (
        perms
        ++ (b' '
            ∷ (statbuf_get_user_info s
                ++ (b' '
                    ∷ (statbuf_get_size s ++ (b' ' ∷ (date ++ (b' ' ∷ (filename ++ crlf)))))))))
    data_write line

  -- One line of NLST.
  unfoldable pub name_entry : Bytes → M (Unit {0})
  unfolding stat_entry statbuf_get_filename data_write
  name_entry name = do
    s ← stat_entry name
    filename ← statbuf_get_filename s name
    line ← in_array (filename ++ crlf)
    data_write line

  abbrev pub hidden : Bytes → Bool
  hidden [] = false
  hidden (c ∷ cs) = c == b'.'

  -- The `while` over the entries, with the line of one of them.
  unfoldable pub entries_loop : (Bytes → M (Unit {0})) → List Bytes → M (Unit {0})
  entries_loop entry [] = pure tt
  entries_loop entry (name ∷ names) =
      let rest = entries_loop entry names in do if hidden name then pure tt else entry name; rest

  unfoldable pub trans_entries : (Bytes → M (Unit {0})) → M (Unit {0})
  unfolding entries_loop
  trans_entries entry = do
    need env opendir
    names ← ask (λ p. env.kernel.readdir p.trace)
    entries_loop entry names

  unfoldable pub trans_list : M (Unit {0})
  unfolding trans_entries list_entry
  trans_list = trans_entries list_entry

  unfoldable pub trans_list_simple : M (Unit {0})
  unfolding trans_entries name_entry
  trans_list_simple = trans_entries name_entry

  -- LIST and NLST, with the loop over the directory.
  unfoldable pub do_listing : M (Unit {0}) → M (Unit {0})
  do_listing listing = do
    get_trans_data_fd env
    ftp_reply env Codes.data_conn (codes "Here comes the directory listing.")
    listing
    data_fd ← ask (λ p. p.sess.data_fd)
    _ ← sys env (close data_fd)
    modify (λ s. record s { data_fd = minus_one })
    ftp_reply env Codes.transfer_ok (codes "Directory send OK.")

  unfoldable pub do_list : M (Unit {0})
  unfolding do_listing trans_list
  do_list = do_listing trans_list

  unfoldable pub do_nlst : M (Unit {0})
  unfolding do_listing trans_list_simple
  do_nlst = do_listing trans_list_simple
