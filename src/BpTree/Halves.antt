-- ===== src/BpTree/Halves.antt =====
-- Base/BPTree_impls/IndexBlock_Impl.hpp and DataBlock_Impl.hpp: how `split`, `average` and `merge`
-- share out the pairs of two blocks.
use tiny_backend.Prelude.{
  ℕ, zero, suc, ◌+◌, ◌-◌, ◌/◌, ◌≤◌, ◌≡◌, refl, ap, ap₂, ◌∙◌, List, [], ◌∷◌, ◌++◌, length, take,
  drop, ltb, Bool-cases, inl, inr, arith,
}
use tiny_backend.BpTree.Pairs.{insert, lower_bound, split_at, split}

module _ {ℓ} {A : Type ℓ} where
  insert-take_low :
      (es : List (ℕ × A)) (m p k : ℕ) (a : A)
      → p ≤ m
      → insert (take m es) p k a ≡ take (suc m) (insert es p k a)
  unfolding insert
  insert-take_low es m zero k a h = refl
  insert-take_low es zero (suc p) k a h = absurd (omega arith)
  insert-take_low [] (suc m) (suc p) k a h = refl
  insert-take_low (x ∷ es) (suc m) (suc p) k a h =
      ap (λ l. x ∷ l) (insert-take_low es m p k a (omega arith))

  insert-drop_low :
      (es : List (ℕ × A)) (m p k : ℕ) (a : A)
      → p ≤ m
      → p ≤ length es
      → drop m es ≡ drop (suc m) (insert es p k a)
  unfolding insert
  insert-drop_low es m zero k a h h' = refl
  insert-drop_low es zero (suc p) k a h h' = absurd (omega arith)
  insert-drop_low [] (suc m) (suc p) k a h h' = absurd (omega arith)
  insert-drop_low (x ∷ es) (suc m) (suc p) k a h h' =
      insert-drop_low es m p k a (omega arith) (omega arith)

  insert-take_high :
      (es : List (ℕ × A)) (m p k : ℕ) (a : A)
      → m ≤ p
      → p ≤ length es
      → take m es ≡ take m (insert es p k a)
  unfolding insert
  insert-take_high es zero p k a h h' = refl
  insert-take_high es (suc m) zero k a h h' = absurd (omega arith)
  insert-take_high [] (suc m) (suc p) k a h h' = absurd (omega arith)
  insert-take_high (x ∷ es) (suc m) (suc p) k a h h' =
      ap (λ l. x ∷ l) (insert-take_high es m p k a (omega arith) (omega arith))

  insert-drop_high :
      (es : List (ℕ × A)) (m p k : ℕ) (a : A)
      → m ≤ p
      → p ≤ length es
      → insert (drop m es) (p - m) k a ≡ drop m (insert es p k a)
  unfolding insert
  insert-drop_high es zero p k a h h' = ap (λ q. take q es ++ (k, a) ∷ drop q es) (omega arith)
  insert-drop_high es (suc m) zero k a h h' = absurd (omega arith)
  insert-drop_high [] (suc m) (suc p) k a h h' = absurd (omega arith)
  insert-drop_high (x ∷ es) (suc m) (suc p) k a h h' =
      ap (λ q. insert (drop m es) q k a) (omega arith)
      ∙ insert-drop_high es m p k a (omega arith) (omega arith)

  -- A split leaves the two halves of the block with the new pair in it.
  pub split_at-halves :
      (es : List (ℕ × A)) (p k : ℕ) (a : A)
      → p ≤ length es
      → let half = (length es + 1) / 2 in
        split_at es p k a ≡ (take half (insert es p k a), drop half (insert es p k a))
  unfolding split_at
  split_at-halves es p k a h =
      let half : ℕ = (length es + 1) / 2 in
      elim (Bool-cases (ltb p half)) [
        | inl l ↦
            let q : p ≤ half - 1 = ground arith in
            let m : suc (half - 1) ≡ half = ground arith in
            rw l (
              ap₂ (λ x y. (x, y))
                (insert-take_low es (half - 1) p k a q ∙ ap (λ n. take n (insert es p k a)) m)
                (insert-drop_low es (half - 1) p k a q h ∙ ap (λ n. drop n (insert es p k a)) m))
        | inr l ↦
            let q : half ≤ p = ground arith in
            rw l (
              ap₂ (λ x y. (x, y)) (insert-take_high es half p k a q h)
                (insert-drop_high es half p k a q h))
      ]

  pub length-insert :
      (es : List (ℕ × A)) (p k : ℕ) (a : A)
      → p ≤ length es
      → length (insert es p k a) ≡ suc (length es)
  unfolding insert
  length-insert es zero k a h = refl
  length-insert [] (suc p) k a h = absurd (omega arith)
  length-insert (x ∷ es) (suc p) k a h = ap suc (length-insert es p k a (omega arith))

  pub split-at :
      (es : List (ℕ × A)) (k : ℕ) (a : A) → split es k a ≡ split_at es (lower_bound es k) k a
  unfolding split
  split-at es k a = refl
