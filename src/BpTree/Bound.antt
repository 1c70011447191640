-- ===== src/BpTree/Bound.antt =====
-- Base/BPTree_impls/IndexBlock_Impl.hpp and DataBlock_Impl.hpp: `lower_bound` against a scan.
use tiny_backend.Prelude.{
  ℕ, zero, suc, ◌+◌, ◌-◌, ◌/◌, ◌≤◌, ◌<◌, ◌≡◌, refl, List, [], ◌∷◌, length, ltb, if◌then◌else◌,
  arith, ap,
}
use tiny_backend.BpTree.Pairs.{key_at, lower_bound_loop, lower_bound}

suc_inj : (i j : ℕ) → suc i ≡ suc j → i ≡ j
suc_inj i j h = omega arith

module _ {ℓ} {A : Type ℓ} where
  -- Every key is above `k`, or below it.
  abbrev pub Above : ℕ → List (ℕ × A) → Type 0
  Above k [] = Unit
  Above k (x ∷ es) = (k < x.0) × Above k es

  abbrev pub IsSorted : List (ℕ × A) → Type 0
  IsSorted [] = Unit
  IsSorted (x ∷ es) = Above x.0 es × IsSorted es

  -- How many pairs at the start have a key below `k`.
  abbrev pub rank : List (ℕ × A) → ℕ → ℕ
  rank [] k = 0
  rank (x ∷ es) k = let rest = rank es k in if ltb x.0 k then suc rest else 0

  pub rank-le : (es : List (ℕ × A)) (k : ℕ) → rank es k ≤ length es
  rank-le [] k = omega arith
  rank-le (x ∷ es) k = ground (arith, rank-le es k)

  pub rank_step :
      (x : ℕ × A) (es : List (ℕ × A)) (k : ℕ) → x.0 < k → rank (x ∷ es) k ≡ suc (rank es k)
  rank_step x es k h = ground arith

  pub key_at-Above : (es : List (ℕ × A)) (k i : ℕ) → Above k es → i < length es → k < key_at es i
  key_at-Above [] k i h h' = absurd (omega arith)
  key_at-Above (x ∷ es) k zero h h' = h.0
  key_at-Above (x ∷ es) k (suc i) h h' = key_at-Above es k i h.1 (omega arith)

  pub key_at_next :
      (es : List (ℕ × A)) (j : ℕ)
      → IsSorted es
      → suc j < length es
      → key_at es j < key_at es (suc j)
  key_at_next [] j s h = absurd (omega arith)
  key_at_next (x ∷ []) j s h = absurd (omega arith)
  key_at_next (x ∷ y ∷ es) zero s h = s.0.0
  key_at_next (x ∷ y ∷ es) (suc j) s h = key_at_next (y ∷ es) j s.1 (omega arith)

  -- A place is the rank when the key before it is below `k` and the one at it is not.
  pub rank_unique :
      (es : List (ℕ × A)) (k p : ℕ)
      → IsSorted es
      → p ≤ length es
      → ((j : ℕ) → suc j ≡ p → key_at es j < k)
      → (p < length es → k ≤ key_at es p)
      → p ≡ rank es k
  rank_unique [] k p s h lo hi = omega arith
  rank_unique (x ∷ es) k zero s h lo hi = ground (arith, hi (omega arith))
  rank_unique (x ∷ es) k (suc zero) s h lo hi = ground (
    arith,
    lo 0 refl,
    rank_unique es k zero s.1 (omega arith) (λ j h. absurd (omega arith)) (λ h. hi (omega arith)),
  )
  rank_unique (x ∷ es) k (suc (suc p)) s h lo hi = ground (
    arith,
    lo (suc p) refl,
    key_at-Above es x.0 p s.0 (omega arith),
    rank_unique es k (suc p) s.1 (omega arith) (λ j h. lo (suc j) (ap suc h))
        (λ h. hi (omega arith)),
  )

  lower_bound_loop-rank :
      (fuel : ℕ) (es : List (ℕ × A)) (k b e : ℕ)
      → IsSorted es
      → b ≤ e
      → e ≤ length es
      → e - b < fuel
      → ((j : ℕ) → suc j ≡ b → key_at es j < k)
      → (e < length es → k ≤ key_at es e)
      → lower_bound_loop fuel es k b e ≡ rank es k
  unfolding lower_bound_loop
  lower_bound_loop-rank zero es k b e s h h' hf lo hi = absurd (omega arith)
  lower_bound_loop-rank (suc fuel) es k b e s h h' hf lo hi =
      let mid : ℕ = b + (e - b) / 2 in
      let out : (e ≤ b → e ≡ rank es k) =
        λ q. rank_unique es k e s h' (λ j r. lo j (omega arith)) hi in
      let above : (b < e → key_at es mid < k → lower_bound_loop fuel es k (suc mid) e ≡ rank es k) =
        λ q l.
          lower_bound_loop-rank fuel es k (suc mid) e s (omega arith) h' (omega arith)
            (λ j r. ground (arith, ap (key_at es) (suc_inj j mid r))) hi in
      let below : (b < e → k ≤ key_at es mid → lower_bound_loop fuel es k b mid ≡ rank es k) =
        λ q l.
          lower_bound_loop-rank fuel es k b mid s (omega arith) (omega arith) (omega arith) lo
            (λ _. l) in
      let found : (b < e → key_at es mid ≡ k → mid ≡ rank es k) = λ q l.
        rank_unique es k mid s (omega arith)
          (λ j r. ground (arith, key_at_next es j s (omega arith), ap (key_at es) r))
          (λ _. omega arith) in
      ground arith

  lower_bound_loop-le :
      (fuel : ℕ) (es : List (ℕ × A)) (k b e : ℕ)
      → b ≤ e
      → e ≤ length es
      → e - b < fuel
      → lower_bound_loop fuel es k b e ≤ length es
  unfolding lower_bound_loop
  lower_bound_loop-le zero es k b e h h' hf = absurd (omega arith)
  lower_bound_loop-le (suc fuel) es k b e h h' hf =
      let mid : ℕ = b + (e - b) / 2 in
      let behind : (b < e → lower_bound_loop fuel es k (suc mid) e ≤ length es) =
        λ q. lower_bound_loop-le fuel es k (suc mid) e (omega arith) h' (omega arith) in
      let before : (b < e → lower_bound_loop fuel es k b mid ≤ length es) =
        λ q. lower_bound_loop-le fuel es k b mid (omega arith) (omega arith) (omega arith) in
      ground arith

  -- The binary search of `lower_bound` ends on every block, in order or not, before its fuel, one test
  -- more than there are pairs, is used up: the place that it gives is none past the end, as the fuel
  -- gives when it runs out.
  pub lower_bound-le : (es : List (ℕ × A)) (k : ℕ) → lower_bound es k ≤ length es
  unfolding lower_bound
  lower_bound-le es k =
      lower_bound_loop-le (suc (length es)) es k 0 (length es) (omega arith) (omega arith)
        (omega arith)

  -- On pairs in the order of their keys `lower_bound` finds the place after the pairs with a smaller
  -- key, as a scan does, which is never the place past the end that running out of fuel gives.
  pub lower_bound-rank : (es : List (ℕ × A)) (k : ℕ) → IsSorted es → lower_bound es k ≡ rank es k
  unfolding lower_bound
  lower_bound-rank es k s =
      lower_bound_loop-rank (suc (length es)) es k 0 (length es) s (omega arith) (omega arith)
        (omega arith) (λ j q. absurd (omega arith)) (λ q. absurd (omega arith))
