-- ===== src/Hash.antt =====
-- miniftpd/hash.c: the chained hash table behind `void *` keys and values.
-- A chain is the list of the nodes that `next` leads through, and `prev` is the place in it. A
-- pointer that the lookup returns is read and written through the key.
pub mod Chain
pub mod Laws
mod Tests
use mini_ftp.Base.{
  ℕ, zero, suc, ◌≡◌, ◌↔◌, Bool, true, Option, none, some, List, [], ◌∷◌, ltb, if◌then◌else◌, set,
  get_or, replicate,
}
use mini_ftp.Base.Run.{Run, ok, abort, ◌>>=◌}

-- `memcmp(a, b, key_size) == 0` on keys of one size.
pub record Key {ℓ} (K : Type ℓ) : Type ℓ where
  pub equal : K → K → Bool
  pub equal_iff : (a b : K) → (equal a b ≡ true) ↔ (a ≡ b)

abbrev pub Chain {ℓ} : Type ℓ → Type ℓ → Type ℓ
Chain K V = List (K × V)

pub record Table {ℓ} (K V : Type ℓ) : Type ℓ where
  pub buckets : ℕ
  pub hash_func : ℕ → K → ℕ
  pub nodes : List (Chain K V)

unfoldable pub hash_alloc {ℓ} : {K V : Type ℓ} → ℕ → (ℕ → K → ℕ) → Table K V
hash_alloc buckets hash_func = record {
  buckets = buckets;
  hash_func = hash_func;
  nodes = replicate buckets [];
}

-- The index of the bucket; the assertion is `pos < hash->buckets`.
pub hash_get_bucket {ℓ} : {K V : Type ℓ} → Table K V → K → Run ℕ
hash_get_bucket t k =
    let pos = t.hash_func t.buckets k in if ltb pos t.buckets then ok pos else abort

-- `hash_clear_bucket` on the array.
hash_clear_bucket {ℓ} : {K V : Type ℓ} → ℕ → List (Chain K V) → ℕ → Run (List (Chain K V))
hash_clear_bucket buckets nodes index = if ltb index buckets then ok (set nodes index []) else abort

-- The `for` of `hash_clear_entry`, on the rounds left.
clear_loop {ℓ} : {K V : Type ℓ} → ℕ → ℕ → ℕ → List (Chain K V) → Run (List (Chain K V))
clear_loop buckets zero i nodes = ok nodes
clear_loop buckets (suc left) i nodes = do
  cleared ← hash_clear_bucket buckets nodes i
  clear_loop buckets left (suc i) (set cleared i [])

unfoldable pub hash_clear_entry {ℓ} : {K V : Type ℓ} → Table K V → Run (Table K V)
unfolding hash_clear_bucket clear_loop
hash_clear_entry t = do
  nodes ← clear_loop t.buckets t.buckets 0 t.nodes
  ok (record t { nodes = nodes })

module _ {ℓ} {K V : Type ℓ} ⦃key : Key K⦄ where
  -- The `while` of `hash_get_node_by_key`, and `node->value`.
  pub find : K → Chain K V → Option V
  find k [] = none
  find k ((j, v) ∷ c) = if key.equal j k then some v else find k c

  -- The node that the loop stops at is written.
  pub assign : K → V → Chain K V → Chain K V
  assign k v [] = []
  assign k v ((j, w) ∷ c) = if key.equal j k then (j, v) ∷ c else (j, w) ∷ assign k v c

  -- The node that the loop stops at is unlinked and freed.
  pub erase : K → Chain K V → Chain K V
  erase k [] = []
  erase k ((j, w) ∷ c) = if key.equal j k then c else (j, w) ∷ erase k c

  unfoldable pub hash_lookup_value_by_key : Table K V → K → Run (Option V)
  unfolding hash_get_bucket find
  hash_lookup_value_by_key t k = do i ← hash_get_bucket t k; ok (find k (get_or t.nodes i []))

  -- `*p = v`, through the pointer that the lookup of `k` returned.
  unfoldable pub hash_store : Table K V → K → V → Run (Table K V)
  unfolding hash_get_bucket assign
  hash_store t k v = do
    i ← hash_get_bucket t k
    ok (record t { nodes = set t.nodes i (assign k v (get_or t.nodes i [])) })

  unfoldable pub hash_add_entry : Table K V → K → V → Run (Table K V)
  unfolding hash_get_bucket
  hash_add_entry t k v = do
    i ← hash_get_bucket t k
    ok (record t { nodes = set t.nodes i ((k, v) ∷ get_or t.nodes i []) })

  -- The assertion is that the node is there.
  unfoldable pub hash_free_entry : Table K V → K → Run (Table K V)
  unfolding hash_get_bucket find erase
  hash_free_entry t k = do
    i ← hash_get_bucket t k
    elim (find k (get_or t.nodes i [])) [
      | none ↦ abort
      | some v ↦ ok (record t { nodes = set t.nodes i (erase k (get_or t.nodes i [])) })
    ]
