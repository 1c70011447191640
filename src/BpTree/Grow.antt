-- ===== src/BpTree/Grow.antt =====
-- Base/BPTree_impls/BPTree.hpp: what an insertion does to the pairs of a tree, in the order of keys.
pub mod Made
pub mod Leaf
pub mod Data
pub mod Place
pub mod Child
pub mod Finish
pub mod Entries
pub mod Take
pub mod Node
pub mod Down
pub mod Root
pub mod Whole
pub mod Held
use mathlib.Core.Path.{subst}
use tiny_backend.Prelude.{
  ℕ, zero, suc, ◌+◌, ◌≤◌, ◌<◌, ◌≡◌, ◌≢◌, refl, sym, ap, ◌∙◌, Bool, true, false, not, ◌&&◌, Option,
  none, some, List, [], ◌∷◌, ◌++◌, length, take, drop, ltb, ◌==◌, if◌then◌else◌, Bool-cases, inl,
  inr, ltb→lt, lt→ltb, take-append-drop, arith,
}
use tiny_backend.BpTree.Pairs.{first_key, key_at, insert}
use tiny_backend.BpTree.Bound.{Above, IsSorted, rank, rank_step}
use tiny_backend.BpTree.Sorted.{
  Below, lookup, Above-le, Above-append, IsSorted-left, IsSorted-right,
}

module _ {ℓ} {A : Type ℓ} where
  -- A pair at its place among the others.
  abbrev pub ins : List (ℕ × A) → (key : ℕ) → A → List (ℕ × A)
  ins [] k a = (k, a) ∷ []
  ins (x ∷ es) k a = let rest = ins es k a in if ltb x.0 k then x ∷ rest else (k, a) ∷ x ∷ es

  insert-suc :
      (x : ℕ × A) (es : List (ℕ × A)) (p k : ℕ) (a : A)
      → insert (x ∷ es) (suc p) k a ≡ x ∷ insert es p k a
  unfolding insert
  insert-suc x es p k a = refl

  insert-zero : (es : List (ℕ × A)) (k : ℕ) (a : A) → insert es 0 k a ≡ (k, a) ∷ es
  unfolding insert
  insert-zero es k a = refl

  pub insert-ins : (es : List (ℕ × A)) (k : ℕ) (a : A) → insert es (rank es k) k a ≡ ins es k a
  insert-ins [] k a = insert-zero [] k a
  insert-ins (x ∷ es) k a = elim (Bool-cases (ltb x.0 k)) [
    | inl l ↦
        ap (λ p. insert (x ∷ es) p k a) (rank_step x es k (ltb→lt x.0 k l))
        ∙ insert-suc x es (rank es k) k a
        ∙ ap (λ l. x ∷ l) (insert-ins es k a)
        ∙ rw l refl
    | inr l ↦
        let start : rank (x ∷ es) k ≡ 0 = rw l refl in
        ap (λ p. insert (x ∷ es) p k a) start ∙ insert-zero (x ∷ es) k a ∙ rw l refl
  ]

  Above-ins : (es : List (ℕ × A)) (j k : ℕ) (a : A) → j < k → Above j es → Above j (ins es k a)
  Above-ins [] j k a h b = (h, tt)
  Above-ins (x ∷ es) j k a h b = ground (arith, Above-ins es j k a h b.1)

  pub ins-IsSorted :
      (es : List (ℕ × A)) (k : ℕ) (a : A) → IsSorted es → lookup es k ≡ none → IsSorted (ins es k a)
  ins-IsSorted [] k a s n = (tt, tt)
  ins-IsSorted (x ∷ es) k a s n = elim (Bool-cases (ltb x.0 k)) [
    | inl l ↦
        rw l (Above-ins es x.0 k a (ltb→lt x.0 k l) s.0, ins-IsSorted es k a s.1 (ground arith))
    | inr l ↦ let h : k < x.0 = ground arith in rw l ((h, Above-le es (omega arith) s.0), s)
  ]

  pub ins-Below :
      (xs ys : List (ℕ × A)) (k : ℕ) (a : A) → Below k xs → ins (xs ++ ys) k a ≡ xs ++ ins ys k a
  ins-Below [] ys k a b = refl
  ins-Below (x ∷ xs) ys k a b = rw (lt→ltb x.0 k b.0, ins-Below xs ys k a b.1) refl

  pub ins-Above :
      (ys zs : List (ℕ × A)) (k : ℕ) (a : A) → Above k zs → ins (ys ++ zs) k a ≡ ins ys k a ++ zs
  ins-Above [] [] k a b = refl
  ins-Above [] (z ∷ zs) k a b = let l : ltb z.0 k ≡ false = ground arith in rw l refl
  ins-Above (y ∷ ys) zs k a b = elim (Bool-cases (ltb y.0 k)) [
    | inl l ↦ rw l (ap (λ l. y ∷ l) (ins-Above ys zs k a b))
    | inr l ↦ rw l refl
  ]

  pub first_key-ins :
      (es : List (ℕ × A)) (k m : ℕ) (a : A)
      → first_key es ≡ some m
      → first_key (ins es k a) ≡ some (if ltb k m then k else m)
  first_key-ins [] k m a e = absurd (ground arith)
  first_key-ins (x ∷ es) k m a e = ground arith

  pub IsSorted-take : (n : ℕ) (es : List (ℕ × A)) → IsSorted es → IsSorted (take n es)
  IsSorted-take n es s =
      IsSorted-left (take n es) (drop n es) (subst IsSorted (sym (take-append-drop n es)) s)

  pub IsSorted-drop : (n : ℕ) (es : List (ℕ × A)) → IsSorted es → IsSorted (drop n es)
  IsSorted-drop n es s =
      IsSorted-right (take n es) (drop n es) (subst IsSorted (sym (take-append-drop n es)) s)
