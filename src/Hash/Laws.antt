-- ===== src/Hash/Laws.antt =====
-- The table of miniftpd/hash.c against its abstract view: for each key a stack of values.
use mini_ftp.Base.{
  ℕ, zero, suc, ◌+◌, ◌<◌, ◌≡◌, refl, ap, ◌∙◌, true, false, none, some, List, [], ◌∷◌, arith,
  if◌then◌else◌, ltb, lt→ltb, set, get_or, length, replicate, length-set, length-replicate,
  get_or-replicate, get_or-set, ◌==◌, Bool-cases, ==_iff, ◌⊎◌, inl, inr,
}
use mini_ftp.Base.Run.{ok, abort, ◌>>=◌, Returns}
use mini_ftp.Hash.{
  Key, Chain, Table, hash_alloc, hash_get_bucket, hash_clear_bucket, clear_loop, hash_clear_entry,
  find, assign, erase, hash_lookup_value_by_key, hash_store, hash_add_entry, hash_free_entry,
}
use mini_ftp.Hash.Chain.{
  chain_total, nodes_total, nodes_total-set, values, head?, find-values, values-erase,
  values-assign, chain_total-erase, chain_total-assign,
}

apart : (a b : ℕ) → (a == b) ≡ false → a ≡ b → ⊥
apart a b n e = ground arith

ltb_zero : (n : ℕ) → ltb n 0 ≡ false
ltb_zero n = ground arith

-- A cell at the round's own index, one in front of it, and one that later rounds clear.
round_cases :
    (i j : ℕ)
    → ((ltb j (suc i) ≡ true) × ((i == j) ≡ true) × (ltb j i ≡ false))
      ⊎ (((ltb j (suc i) ≡ true) × ((i == j) ≡ false) × (ltb j i ≡ true))
          ⊎ ((ltb j (suc i) ≡ false) × (ltb j i ≡ false)))
round_cases i j = ground arith

module _ {ℓ} {K V : Type ℓ} ⦃key : Key K⦄ where
  -- The table has its array, the hash function stays below `buckets`, and the nodes of each key,
  -- newest first, hold the values that `f` gives.
  pub record Models (f : K → List V) (t : Table K V) : Type ℓ where
    pub width : length t.nodes ≡ t.buckets
    pub hashed : (k : K) → t.hash_func t.buckets k < t.buckets
    pub reads : (k : K) → values k (get_or t.nodes (t.hash_func t.buckets k) []) ≡ f k

  abbrev pub update : (K → List V) → K → List V → K → List V
  update f k vs q = if key.equal k q then vs else f q

  abbrev pub table_total : (K → V → ℕ) → Table K V → ℕ
  table_total w t = nodes_total w t.nodes

  -- A new table is empty.
  pub hash_alloc-Models :
      (buckets : ℕ) (hash_func : ℕ → K → ℕ)
      → ((k : K) → hash_func buckets k < buckets)
      → Models (λ _. []) (hash_alloc {V = V} buckets hash_func)
  unfolding hash_alloc
  hash_alloc-Models buckets hash_func h = record {
    width = length-replicate buckets [];
    hashed = h;
    reads = λ k. ap (values k) (get_or-replicate buckets (hash_func buckets k) []);
  }

  nodes_total-replicate : (w : K → V → ℕ) (n : ℕ) → nodes_total w (replicate n []) ≡ 0
  nodes_total-replicate w zero = refl
  nodes_total-replicate w (suc n) = omega (arith, nodes_total-replicate w n)

  pub hash_alloc-total :
      (w : K → V → ℕ) (buckets : ℕ) (hash_func : ℕ → K → ℕ)
      → table_total w (hash_alloc buckets hash_func) ≡ 0
  unfolding hash_alloc
  hash_alloc-total w buckets hash_func = nodes_total-replicate w buckets

  module _ {f : K → List V} {t : Table K V} (m : Models f t) where
    home : K → ℕ
    home k = t.hash_func t.buckets k

    chain_of : K → Chain K V
    unfolding home
    chain_of k = get_or t.nodes (home k) []

    bucket : (k : K) → hash_get_bucket t k ≡ ok (home k)
    unfolding hash_get_bucket home
    bucket k = rw (lt→ltb _ _ (m.hashed k))

    -- The lookup returns the newest value of the key, and NULL exactly when there is none.
    pub hash_lookup-Models : (k : K) → hash_lookup_value_by_key t k ≡ ok (head? (f k))
    unfolding hash_lookup_value_by_key home
    hash_lookup-Models k = rw (bucket k, find-values, m.reads k)

    home_lt : (k : K) → home k < length t.nodes
    unfolding home
    home_lt k = omega (arith, m.hashed k, m.width)

    -- The three writes replace the chain of `k`.
    write :
        (k : K) (vs : List V) (c : Chain K V)
        → ((q : K) → values q c ≡ (if key.equal k q then vs else values q (chain_of k)))
        → Models (update f k vs) (record t { nodes = set t.nodes (home k) c })
    unfolding home chain_of
    write k vs c h = record {
      width = length-set t.nodes (home k) c ∙ m.width;
      hashed = m.hashed;
      reads = λ q.
          rw (get_or-set t.nodes (home k) (home q) c [] (home_lt k))
            (elim (Bool-cases (home k == home q)) [
              | inl e ↦
                  let same : home k ≡ home q = (==_iff (home k) (home q)).0 e in
                  rw (e, h q, same, m.reads q)
              | inr n ↦ elim (Bool-cases (key.equal k q)) [
                | inl e ↦ absurd (apart (home k) (home q) n (ap home ((key.equal_iff k q).0 e)))
                | inr d ↦ rw (n, d, m.reads q)
              ]
            ]);
    }

    total-write :
        (w : K → V → ℕ) (k : K) (c : Chain K V)
        → nodes_total w (set t.nodes (home k) c) + chain_total w (chain_of k)
          ≡ table_total w t + chain_total w c
    unfolding chain_of
    total-write w k c = nodes_total-set w t.nodes (home k) c (home_lt k)

    -- The new value stands in front of the older ones of its key, and other keys keep theirs.
    pub hash_add_entry-Models :
        (k : K) (v : V)
        → Returns (hash_add_entry t k v) λ t'.
          Models (update f k (v ∷ f k)) t'
          × ((w : K → V → ℕ) → table_total w t' ≡ table_total w t + w k v)
    unfolding hash_add_entry chain_of home
    hash_add_entry-Models k v = (
      record t { nodes = set t.nodes (home k) ((k, v) ∷ chain_of k) },
      rw (bucket k),
      (
        write k (v ∷ f k) ((k, v) ∷ chain_of k) (λ q. elim (Bool-cases (key.equal k q)) [
          | inl e ↦ rw (e, ← m.reads k, (key.equal_iff k q).0 e)
          | inr d ↦ rw d
        ]),
        λ w. omega (arith, total-write w k ((k, v) ∷ chain_of k)),
      ),
    )

    -- A removal takes the newest value of a key that has one, and leaves the rest.
    pub hash_free_entry-Models :
        (k : K) (v : V) (vs : List V)
        → f k ≡ v ∷ vs
        → Returns (hash_free_entry t k) λ t'.
          Models (update f k vs) t' × ((w : K → V → ℕ) → table_total w t' + w k v ≡ table_total w t)
    unfolding hash_free_entry chain_of home
    hash_free_entry-Models k v vs e =
        let found : find k (chain_of k) ≡ some v = rw (find-values, m.reads k, e) in
        (
          record t { nodes = set t.nodes (home k) (erase k (chain_of k)) },
          rw (bucket k, ◌>>=◌, found),
          (
            write k vs (erase k (chain_of k)) (λ q.
                rw (values-erase k q (chain_of k)) (elim (Bool-cases (key.equal k q)) [
                  | inl d ↦ rw (d, ← (key.equal_iff k q).0 d, m.reads k, e)
                  | inr d ↦ rw d
                ])),
            λ w. omega (
              arith,
              total-write w k (erase k (chain_of k)),
              chain_total-erase w k (chain_of k) found,
            ),
          ),
        )

    -- A removal of a key with no node fails its assertion.
    pub hash_free_entry_missing : (k : K) → f k ≡ [] → hash_free_entry t k ≡ abort
    unfolding hash_free_entry chain_of home
    hash_free_entry_missing k e =
        let missing : find k (chain_of k) ≡ none = rw (find-values, m.reads k, e) in
        rw (bucket k, ◌>>=◌, missing)

    -- A write through the pointer of a lookup changes the newest value of the key.
    pub hash_store-Models :
        (k : K) (u v : V) (vs : List V)
        → f k ≡ v ∷ vs
        → Returns (hash_store t k u) λ t'.
          Models (update f k (u ∷ vs)) t'
          × ((w : K → V → ℕ) → table_total w t' + w k v ≡ table_total w t + w k u)
    unfolding hash_store chain_of home
    hash_store-Models k u v vs e =
        let found : find k (chain_of k) ≡ some v = rw (find-values, m.reads k, e) in
        (
          record t { nodes = set t.nodes (home k) (assign k u (chain_of k)) },
          rw (bucket k),
          (
            write k (u ∷ vs) (assign k u (chain_of k)) (λ q.
                rw (values-assign k q u (chain_of k)) (elim (Bool-cases (key.equal k q)) [
                  | inl d ↦ rw (d, ← (key.equal_iff k q).0 d, m.reads k, e)
                  | inr d ↦ rw d
                ])),
            λ w. omega (
              arith,
              total-write w k (assign k u (chain_of k)),
              chain_total-assign w k u (chain_of k) found,
            ),
          ),
        )

  clear_loop-Returns :
      (buckets left i : ℕ) (nodes : List (Chain K V))
      → i + left ≡ buckets
      → length nodes ≡ buckets
      → Returns (clear_loop buckets left i nodes) λ r.
        (length r ≡ buckets)
        × ((j : ℕ) → j < buckets → get_or r j [] ≡ (if ltb j i then get_or nodes j [] else []))
  unfolding clear_loop hash_clear_bucket
  clear_loop-Returns buckets zero i nodes e w = (nodes, refl, (w, λ j h. ground arith))
  clear_loop-Returns buckets (suc left) i nodes e w =
      let once = set nodes i [] in
      let twice = set once i [] in
      let one : length once ≡ buckets = length-set nodes i [] ∙ w in
      let two : length twice ≡ buckets = length-set once i [] ∙ one in
      let (r, run, (wr, cells)) = clear_loop-Returns buckets left (suc i) twice (omega arith) two in
      (
        r,
        rw (lt→ltb i buckets (omega arith)) run,
        (
          wr,
          λ j h. cells j h ∙ elim (round_cases i j) [
            | inl (below, here, past) ↦
                rw (below, past, get_or-set once i j [] [] (omega (arith, one)), here)
            | inr (inl (below, apart, past)) ↦ rw (
              below,
              past,
              get_or-set once i j [] [] (omega (arith, one)),
              apart,
              get_or-set nodes i j [] [] (omega arith),
              apart,
            )
            | inr (inr (below, past)) ↦ rw (below, past)
          ],
        ),
      )

  -- Clearing runs through every bucket with no failed assertion, and leaves an empty table.
  hash_clear_entry-Models :
      {f : K → List V} {t : Table K V}
      → Models f t
      → Returns (hash_clear_entry t) (Models (λ _. []))
  unfolding hash_clear_entry
  hash_clear_entry-Models {f} {t} m =
      let (r, run, (w, cells)) =
        clear_loop-Returns t.buckets t.buckets 0 t.nodes (omega arith) m.width in
      (
        record t { nodes = r },
        rw run,
        record {
          width = w;
          hashed = m.hashed;
          reads = λ k.
              rw (cells (t.hash_func t.buckets k) (m.hashed k), ltb_zero (t.hash_func t.buckets k));
        },
      )
