-- ===== src/Hash/Tests.antt =====
-- The hash table of miniftpd/hash.c on numbers, with four buckets.
use mini_ftp.Base.{ℕ, ◌+◌, ◌%◌, ◌≡◌, refl, Option, none, some, [], ◌∷◌, arith, ◌==◌, ==_iff}
use mini_ftp.Base.Run.{Run, ok, abort, ◌>>=◌, Returns}
use mini_ftp.Hash.{
  Key, Table, hash_alloc, hash_lookup_value_by_key, hash_store, hash_add_entry, hash_free_entry,
}
use mini_ftp.Hash.Laws.{
  Models, update, table_total, hash_alloc-Models, hash_lookup-Models, hash_add_entry-Models,
  hash_free_entry-Models, hash_free_entry_missing,
}

instance abbrev number_key : Key ℕ
number_key = record { equal = λ a b. a == b; equal_iff = ==_iff }

abbrev modulo : ℕ → ℕ → ℕ
modulo buckets k = k % buckets

abbrev start : Table ℕ ℕ
start = hash_alloc 4 modulo

-- 1 and 5 share a bucket; the second entry under 1 hides the first until it is freed.
abbrev session : Run (Option ℕ × Option ℕ × Option ℕ)
session = do
  a ← hash_add_entry start 1 10
  b ← hash_add_entry a 5 50
  c ← hash_add_entry b 1 11
  d ← hash_store c 5 51
  e ← hash_free_entry d 1
  x ← hash_lookup_value_by_key d 1
  y ← hash_lookup_value_by_key e 1
  z ← hash_lookup_value_by_key e 5
  ok (x, y, z)

session_prints : session ≡ ok (some 11, some 10, some 51)
unfolding hash_alloc hash_add_entry hash_store hash_free_entry hash_lookup_value_by_key
session_prints = refl

hash_alloc-Models_example : Models (λ _. []) (hash_alloc {V = ℕ} 4 modulo)
hash_alloc-Models_example = hash_alloc-Models 4 modulo (λ k. omega arith)

hash_lookup-Models_example : hash_lookup_value_by_key start 9 ≡ ok none
hash_lookup-Models_example = hash_lookup-Models hash_alloc-Models_example 9

hash_add_entry-Models_example : Returns (hash_add_entry start 1 10) λ t.
    Models (update (λ _. []) 1 (10 ∷ [])) t
    × ((w : ℕ → ℕ → ℕ) → table_total w t ≡ table_total w start + w 1 10)
hash_add_entry-Models_example = hash_add_entry-Models hash_alloc-Models_example 1 10

abbrev one_entry : Table ℕ ℕ
one_entry = hash_add_entry-Models_example.0

hash_free_entry-Models_example : Returns (hash_free_entry one_entry 1) λ t.
    Models (update (update (λ _. []) 1 (10 ∷ [])) 1 []) t
    × ((w : ℕ → ℕ → ℕ) → table_total w t + w 1 10 ≡ table_total w one_entry)
hash_free_entry-Models_example =
    hash_free_entry-Models hash_add_entry-Models_example.2.0 1 10 [] refl

hash_free_entry_missing_example : hash_free_entry one_entry 5 ≡ abort
hash_free_entry_missing_example = hash_free_entry_missing hash_add_entry-Models_example.2.0 5 refl
