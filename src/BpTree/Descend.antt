-- ===== src/BpTree/Descend.antt =====
-- Base/BPTree_impls/BPTree.hpp: the child that a descent takes for a key.
use tiny_backend.Prelude.{
  ℕ, zero, suc, ◌≤◌, ◌<◌, ◌≡◌, refl, sym, ap, ◌∙◌, some, List, [], ◌∷◌, ◌++◌, length, ltb,
  if◌then◌else◌, arith, Bool-cases, inl, inr, ltb→lt,
}
use tiny_backend.BpTree.Pairs.{first_key, lower_bound}
use tiny_backend.BpTree.Bound.{Above, IsSorted, rank, rank-le, rank_step, lower_bound-rank}
use tiny_backend.BpTree.Sorted.{
  Below, Below-le, Below-append, IsSorted-right, IsSorted-Below, first_key-Above, first_key-append,
}
use tiny_backend.BpTree.Search.{step_back}
use tiny_backend.BpTree.Shape.{concat_map, All}

module _ {κ} {C : Type κ} where
  -- The last child whose keys begin at or before `k`, or the first child.
  abbrev pub pick : List (ℕ × C) → ℕ → ℕ
  pick [] k = 0
  pick (c ∷ []) k = 0
  pick (c ∷ d ∷ cs) k = let rest = pick (d ∷ cs) k in if ltb k d.0 then 0 else suc rest

module _ {ℓ κ} {C : Type κ} {A : Type ℓ} (f : C → List (ℕ × A)) where
  abbrev pub Heads : List (ℕ × C) → Type 0
  Heads cs = All (λ c. first_key (f c.1) ≡ some c.0) cs

  pub record Picked (cs : List (ℕ × C)) (k : ℕ) : Type κ where
    pub before : List (ℕ × C)
    pub child : ℕ × C
    pub after : List (ℕ × C)
    pub whole : cs ≡ before ++ child ∷ after
    pub place : length before ≡ pick cs k
    pub start : 0 < length before → child.0 ≤ k
    pub low : Below k (concat_map (λ c. f c.1) before)
    pub high : Above k (concat_map (λ c. f c.1) after)

  cons_head : {x y : ℕ × C} {xs ys : List (ℕ × C)} → x ∷ xs ≡ y ∷ ys → x.0 ≡ y.0
  cons_head e = ground arith

  -- The picked child starts at or before `k` if the first child does.
  Picked-start :
      (d : ℕ × C) (cs : List (ℕ × C)) (k : ℕ) (r : Picked (d ∷ cs) k) → d.0 ≤ k → r.child.0 ≤ k
  Picked-start d cs k r h = go r.before r.whole r.start
    where
      go :
          (xs : List (ℕ × C))
          → d ∷ cs ≡ xs ++ r.child ∷ r.after
          → (0 < length xs → r.child.0 ≤ k)
          → r.child.0 ≤ k
      go [] e st = omega (arith, cons_head e)
      go (x ∷ xs) e st = st (omega arith)

  pub pick-Picked :
      (c : ℕ × C) (cs : List (ℕ × C)) (k : ℕ)
      → Heads (c ∷ cs)
      → IsSorted (concat_map (λ c. f c.1) (c ∷ cs))
      → Picked (c ∷ cs) k
  pick-Picked c [] k hs s = record {
    before = [];
    child = c;
    after = [];
    whole = refl;
    place = refl;
    start = λ h. absurd (omega arith);
    low = tt;
    high = tt;
  }
  pick-Picked c (d ∷ cs) k hs s =
      let low = IsSorted-Below (f c.1) _ s (first_key-append (f d.1) _ hs.1.0) in
      elim (Bool-cases (ltb k d.0)) [
        | inl l ↦ record {
          before = [];
          child = c;
          after = d ∷ cs;
          whole = refl;
          place = ground arith;
          start = λ h. absurd (omega arith);
          low = tt;
          high =
              first_key-Above _ (IsSorted-right (f c.1) _ s) (first_key-append (f d.1) _ hs.1.0)
                (ltb→lt k d.0 l);
        }
        | inr l ↦
            let r = pick-Picked d cs k hs.1 (IsSorted-right (f c.1) _ s) in
            record {
              before = c ∷ r.before;
              child = r.child;
              after = r.after;
              whole = ap (λ x. c ∷ x) r.whole;
              place = ground (arith, r.place);
              start = λ _. Picked-start d cs k r (ground arith);
              low = Below-append (f c.1) _ k (Below-le (f c.1) (ground arith) low) r.low;
              high = r.high;
            }
      ]

step_back-suc :
    (e e' : ℕ × ℕ) (es : List (ℕ × ℕ)) (k r : ℕ)
    → e.0 < k
    → r ≤ length (e' ∷ es)
    → (r ≡ 0 → k ≤ e'.0)
    → (0 < r → e'.0 < k)
    → step_back (e' ∷ es) k r ≡ pick (e' ∷ es) k
    → step_back (e ∷ e' ∷ es) k (suc r) ≡ pick (e ∷ e' ∷ es) k
unfolding step_back
step_back-suc e e' [] k zero h h' z p i = ground (arith, z refl)
step_back-suc e e' (x ∷ es) k zero h h' z p i = ground (arith, z refl)
step_back-suc e e' es k (suc r) h h' z p i = ground (arith, p (omega arith))

step_back-rank :
    (e : ℕ × ℕ) (es : List (ℕ × ℕ)) (k : ℕ)
    → IsSorted (e ∷ es)
    → step_back (e ∷ es) k (rank (e ∷ es) k) ≡ pick (e ∷ es) k
unfolding step_back
step_back-rank e [] k s = ground arith
step_back-rank e (e' ∷ es) k s = elim (Bool-cases (ltb e.0 k)) [
  | inl l ↦
      ap (step_back (e ∷ e' ∷ es) k) (rank_step e (e' ∷ es) k (ltb→lt e.0 k l))
      ∙ step_back-suc e e' es k (rank (e' ∷ es) k) (ltb→lt e.0 k l) (rank-le (e' ∷ es) k)
          (λ z. ground arith) (λ z. ground arith) (step_back-rank e' es k s.1)
  | inr l ↦ ground (arith, s.0.0)
]

-- A lower bound and a step back lead to that child.
pub step_back-pick :
    (e : ℕ × ℕ) (es : List (ℕ × ℕ)) (k : ℕ)
    → IsSorted (e ∷ es)
    → step_back (e ∷ es) k (lower_bound (e ∷ es) k) ≡ pick (e ∷ es) k
step_back-pick e es k s = rw (lower_bound-rank (e ∷ es) k s) (step_back-rank e es k s)

step_back_stays :
    (e e' : ℕ × ℕ) (es : List (ℕ × ℕ)) (k q : ℕ)
    → e'.0 ≤ k
    → q < length (e' ∷ es)
    → step_back (e' ∷ es) k q ≡ q
    → step_back (e ∷ e' ∷ es) k (suc q) ≡ suc q
unfolding step_back
step_back_stays e e' es k zero h h' i = ground arith
step_back_stays e e' es k (suc q) h h' i = ground arith

pick-lt : (e : ℕ × ℕ) (es : List (ℕ × ℕ)) (k : ℕ) → pick (e ∷ es) k < length (e ∷ es)
pick-lt e [] k = omega arith
pick-lt e (e' ∷ es) k = ground (arith, pick-lt e' es k)

pick_step :
    (e e' : ℕ × ℕ) (es : List (ℕ × ℕ)) (k : ℕ)
    → e'.0 ≤ k
    → pick (e ∷ e' ∷ es) k ≡ suc (pick (e' ∷ es) k)
pick_step e e' es k h = ground arith

-- A second step back stays there.
pub step_back-pick_again :
    (e : ℕ × ℕ) (es : List (ℕ × ℕ)) (k : ℕ)
    → step_back (e ∷ es) k (pick (e ∷ es) k) ≡ pick (e ∷ es) k
unfolding step_back
step_back-pick_again e [] k = refl
step_back-pick_again e (e' ∷ es) k = elim (Bool-cases (ltb k e'.0)) [
  | inl l ↦ ground arith
  | inr l ↦
      let same = pick_step e e' es k (ground arith) in
      ap (step_back (e ∷ e' ∷ es) k) same
      ∙ step_back_stays e e' es k _ (ground arith) (pick-lt e' es k) (step_back-pick_again e' es k)
      ∙ sym same
]
