-- ===== src/Hash/Chain.antt =====
-- One bucket of miniftpd/hash.c: what a key's nodes hold, front first, and sums over the nodes.
use mini_ftp.Base.{
  ℕ, zero, suc, ◌+◌, ◌<◌, ◌≡◌, refl, Option, none, some, List, [], ◌∷◌, arith, if◌then◌else◌, set,
  get_or, length,
}
use mini_ftp.Hash.{Key, Chain, find, assign, erase}

module _ {ℓ} {K V : Type ℓ} where
  -- A weight summed over a chain, and over all the chains of a table.
  abbrev pub chain_total : (K → V → ℕ) → Chain K V → ℕ
  chain_total w [] = 0
  chain_total w ((k, v) ∷ c) = w k v + chain_total w c

  abbrev pub nodes_total : (K → V → ℕ) → List (Chain K V) → ℕ
  nodes_total w [] = 0
  nodes_total w (c ∷ cs) = chain_total w c + nodes_total w cs

  pub nodes_total-set :
      (w : K → V → ℕ) (nodes : List (Chain K V)) (i : ℕ) (c : Chain K V)
      → i < length nodes
      → nodes_total w (set nodes i c) + chain_total w (get_or nodes i [])
        ≡ nodes_total w nodes + chain_total w c
  nodes_total-set w [] i c h = absurd (omega arith)
  nodes_total-set w (x ∷ nodes) zero c h = omega arith
  nodes_total-set w (x ∷ nodes) (suc i) c h =
      omega (arith, nodes_total-set w nodes i c (omega arith))

module _ {ℓ} {V : Type ℓ} where
  abbrev pub head? : List V → Option V
  head? [] = none
  head? (v ∷ vs) = some v

  abbrev pub tail : List V → List V
  tail [] = []
  tail (v ∷ vs) = vs

  abbrev pub set_head : V → List V → List V
  set_head v [] = []
  set_head v (w ∷ vs) = v ∷ vs

module _ {ℓ} {K V : Type ℓ} ⦃key : Key K⦄ where
  -- The values of all the nodes of a key, the newest first.
  abbrev pub values : K → Chain K V → List V
  values k [] = []
  values k ((j, v) ∷ c) = if key.equal j k then v ∷ values k c else values k c

  pub find-values : (k : K) (c : Chain K V) → find k c ≡ head? (values k c)
  unfolding find
  find-values k [] = refl
  find-values k ((j, v) ∷ c) = ground (arith, find-values k c)

  module _ (k q : K) where
    pub values-erase :
        (c : Chain K V)
        → values q (erase k c) ≡ (if key.equal k q then tail (values q c) else values q c)
    unfolding erase
    values-erase [] = ground arith
    values-erase ((j, v) ∷ c) =
        ground (arith, values-erase c, key.equal_iff j k, key.equal_iff j q, key.equal_iff k q)

    pub values-assign :
        (u : V) (c : Chain K V)
        → values q (assign k u c) ≡ (if key.equal k q then set_head u (values q c) else values q c)
    unfolding assign
    values-assign u [] = ground arith
    values-assign u ((j, v) ∷ c) =
        ground (arith, values-assign u c, key.equal_iff j k, key.equal_iff j q, key.equal_iff k q)

  module _ (w : K → V → ℕ) (k : K) {v : V} where
    pub chain_total-erase :
        (c : Chain K V) → find k c ≡ some v → chain_total w (erase k c) + w k v ≡ chain_total w c
    unfolding find erase
    chain_total-erase [] h = cc
    chain_total-erase ((j, u) ∷ c) h = ground (arith, chain_total-erase c, key.equal_iff j k)

    pub chain_total-assign :
        (u : V) (c : Chain K V)
        → find k c ≡ some v
        → chain_total w (assign k u c) + w k v ≡ chain_total w c + w k u
    unfolding find assign
    chain_total-assign u [] h = cc
    chain_total-assign u ((j, x) ∷ c) h = ground (arith, chain_total-assign u c, key.equal_iff j k)
