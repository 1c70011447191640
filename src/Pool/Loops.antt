-- ===== src/Pool/Loops.antt =====
-- The loops of `get` and `put` of Base/Buffer/src/BufferPool.cpp, which restore the entries above a
-- node whose entry has changed.
use tiny_backend.Prelude.{
  ℕ, zero, suc, ◌*◌, ◌≤◌, ◌<◌, max, ◌≡◌, ◌≢◌, inl, inr, refl, sym, ◌∙◌, false, ◌&&◌, Option, some,
  List, length, set, ltb, ◌==◌, arith, Bool-cases, ==_iff, lt→ltb, length-set, if◌then◌else◌,
}
use tiny_backend.Pool.{at, parent_sibling, take_up, put_up}
use tiny_backend.Pool.Tree.{
  block, block-suc, OnLevel, FitsBut, block_positive, is_joined_fall, is_joined_rise,
  parent_sibling-OnLevel,
}
use tiny_backend.Pool.Climb.{
  Climb, Climb-inside, Climb-settled, Climb-risen, at-set_self, at-set_ne,
}

-- Every node above has something free below it.
unfoldable pub Alive : List ℕ → (n i : ℕ) → Type 0
Alive rest zero i = Unit {0}
Alive rest (suc n) i = let p = (parent_sibling i).0 in (0 < at rest p) × Alive rest n p

-- A node that does not stand above node `i`.
unfoldable pub Outside : ℕ → (n i : ℕ) → Type 0
Outside j zero i = Unit {0}
Outside j (suc n) i = let p = (parent_sibling i).0 in (j ≢ p) × Outside j n p

module _ (depth : ℕ) where
  -- The loop returned, all nodes fit, and the entries are as before but for those above `i`.
  pub record Settled (rest : List ℕ) (n i : ℕ) (result : Option (List ℕ)) : Type 0 where
    pub after : List ℕ
    pub returned : result ≡ some after
    pub fits : FitsBut depth after 0
    pub room : length after ≡ length rest
    pub same : (j : ℕ) → Outside j n i → at after j ≡ at rest j

  -- At the root all nodes fit.
  root-Settled :
      {rest : List ℕ} {d i o : ℕ} (result : Option (List ℕ))
      → Climb depth rest zero d i o
      → (ltb 0 i ≡ false → result ≡ some rest)
      → Settled rest zero i result
  root-Settled {rest} {d} {i} result c e = record {
    after = rest;
    returned = e (grind (arith, c.level));
    fits = λ m e j sum level _. c.fits m e j sum level (λ h. absurd (omega (arith, c.level)));
    room = refl;
    same = λ j h. refl;
  }

  -- The loop goes on from the node above.
  onward-Settled :
      {rest : List ℕ} {n d i o : ℕ} (v : ℕ) {result : Option (List ℕ)}
      → Climb depth rest (suc n) d i o
      → Settled (set rest (parent_sibling i).0 v) n (parent_sibling i).0 result
      → Settled rest (suc n) i result
  unfolding Outside
  onward-Settled {rest} {n} {d} {i} v c s =
      let (p_is, on, sides) = parent_sibling-OnLevel n i c.level in
      let p = (parent_sibling i).0 in
      record {
        after = s.after;
        returned = s.returned;
        fits = s.fits;
        room = s.room ∙ length-set rest p v;
        same = λ j (ne, out).
            s.same j out
            ∙ at-set_ne rest p v j (grind (arith, sides, Climb-inside depth c)) (λ e. ne (sym e));
      }

  pub Alive-set :
      (rest : List ℕ) (n i k v : ℕ)
      → k < length rest
      → i ≤ k
      → OnLevel n i
      → Alive rest n i
      → Alive (set rest k v) n i
  unfolding Alive
  Alive-set rest zero i k v inside h level a = tt
  Alive-set rest (suc n) i k v inside h level (a, a') =
      let (p_is, on, sides) = parent_sibling-OnLevel n i level in
      let below : (parent_sibling i).0 < k = grind (arith, sides) in
      (
        rw (at-set_ne rest k v (parent_sibling i).0 inside (omega arith)) a,
        Alive-set rest n (parent_sibling i).0 k v inside (omega arith) on a',
      )

  pub take_up-Settled :
      (fuel n d i o : ℕ) (rest : List ℕ)
      → n < fuel
      → Climb depth rest n d i o
      → Alive rest n i
      → at rest i < block d
      → at rest i ≤ o
      → Settled rest n i (take_up fuel rest i)
  unfolding take_up Alive
  take_up-Settled zero n d i o rest h c a small fell = absurd (omega arith)
  take_up-Settled (suc fuel) zero d i o rest h c a small fell =
      root-Settled (take_up (suc fuel) rest i) c (λ e. rw e refl)
  take_up-Settled (suc fuel) (suc n) d i o rest h c (a, a') small fell =
      let (p_is, on, sides) = parent_sibling-OnLevel n i c.level in
      let p = (parent_sibling i).0 in
      let s = (parent_sibling i).1 in
      let inner : 0 < i = grind (arith, sides) in
      let ms = max (at rest i) (at rest s) in
      let room : p < length rest = grind (arith, sides, Climb-inside depth c) in
      let (joined, le, small', le') =
        is_joined_fall (block d) (at rest p) o (at rest i) (at rest s) (c.joined inner)
          (block_positive d) a small fell in
      elim (Bool-cases (at rest p == ms)) [
        | inl same ↦
            let e : at rest p ≡ ms = (==_iff (at rest p) ms).0 same in
            record {
              after = rest;
              returned = rw (lt→ltb 0 i inner, le, same) refl;
              fits = Climb-settled depth c (rw e joined);
              room = refl;
              same = λ j h. refl;
            }
        | inr other ↦
            let climbed = Climb-risen depth c ms joined in
            let at_p = at-set_self rest p ms room in
            rw (lt→ltb 0 i inner, le, other)
              (onward-Settled ms c (
                take_up-Settled fuel n (suc d) p (at rest p) (set rest p ms) (omega arith) climbed
                  (Alive-set rest n p p ms room (omega arith) on a') (rw (at_p, block-suc d) small')
                  (rw at_p le')))
      ]

  pub put_up-Settled :
      (fuel n d i o : ℕ) (rest : List ℕ)
      → n < fuel
      → Climb depth rest n d i o
      → at rest i ≤ block d
      → o < block d
      → o ≤ at rest i
      → Settled rest n i (put_up fuel rest i (block d))
  unfolding put_up block
  put_up-Settled zero n d i o rest h c bounded small rose = absurd (omega arith)
  put_up-Settled (suc fuel) zero d i o rest h c bounded small rose =
      root-Settled (put_up (suc fuel) rest i (block d)) c (λ e. rw e refl)
  put_up-Settled (suc fuel) (suc n) d i o rest h c bounded small rose =
      let (p_is, on, sides) = parent_sibling-OnLevel n i c.level in
      let p = (parent_sibling i).0 in
      let s = (parent_sibling i).1 in
      let inner : 0 < i = grind (arith, sides) in
      let ms =
        if at rest i == block d && block d == at rest s
        then block d * 2
        else max (at rest i) (at rest s) in
      let room : p < length rest = grind (arith, sides, Climb-inside depth c) in
      let (joined, le, small', le', bounded') =
        is_joined_rise (block d) (at rest p) o (at rest i) (at rest s) (c.joined inner)
          (block_positive d) small rose bounded in
      elim (Bool-cases (at rest p == ms)) [
        | inl same ↦
            let e : at rest p ≡ ms = (==_iff (at rest p) ms).0 same in
            record {
              after = rest;
              returned = rw (lt→ltb 0 i inner, le, same) refl;
              fits = Climb-settled depth c (rw e joined);
              room = refl;
              same = λ j h. refl;
            }
        | inr other ↦
            let climbed = Climb-risen depth c ms joined in
            let at_p = at-set_self rest p ms room in
            rw (lt→ltb 0 i inner, le, other)
              (onward-Settled ms c (
                put_up-Settled fuel n (suc d) p (at rest p) (set rest p ms) (omega arith) climbed
                  (rw (at_p, block-suc d) bounded') (rw (block-suc d) small') (rw at_p le')))
      ]
