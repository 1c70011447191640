-- ===== src/BpTree/Sorted.antt =====
-- Base/BPTree_impls: pairs in the order of their keys, block after block.
use tiny_backend.Prelude.{
  ℕ, ◌≤◌, ◌<◌, ◌≡◌, refl, Option, none, some, List, [], ◌∷◌, ◌++◌, ◌==◌, if◌then◌else◌, arith,
}
use tiny_backend.BpTree.Pairs.{first_key}
use tiny_backend.BpTree.Bound.{Above, IsSorted}

module _ {ℓ} {A : Type ℓ} where
  abbrev pub Below : ℕ → List (ℕ × A) → Type 0
  Below k [] = Unit
  Below k (x ∷ es) = (x.0 < k) × Below k es

  -- The pair with a key.
  abbrev pub lookup : List (ℕ × A) → ℕ → Option (ℕ × A)
  lookup [] k = none
  lookup (x ∷ es) k = let rest = lookup es k in if x.0 == k then some x else rest

  pub Above-le : (es : List (ℕ × A)) {k j : ℕ} → k ≤ j → Above j es → Above k es
  Above-le [] h a = tt
  Above-le (x ∷ es) h a = (omega arith, Above-le es h a.1)

  pub Below-le : (es : List (ℕ × A)) {k j : ℕ} → k ≤ j → Below k es → Below j es
  Below-le [] h a = tt
  Below-le (x ∷ es) h a = (omega arith, Below-le es h a.1)

  pub Above-append : (xs ys : List (ℕ × A)) (k : ℕ) → Above k xs → Above k ys → Above k (xs ++ ys)
  Above-append [] ys k a b = b
  Above-append (x ∷ xs) ys k a b = (a.0, Above-append xs ys k a.1 b)

  pub Above-left : (xs ys : List (ℕ × A)) (k : ℕ) → Above k (xs ++ ys) → Above k xs
  Above-left [] ys k a = tt
  Above-left (x ∷ xs) ys k a = (a.0, Above-left xs ys k a.1)

  pub Above-right : (xs ys : List (ℕ × A)) (k : ℕ) → Above k (xs ++ ys) → Above k ys
  Above-right [] ys k a = a
  Above-right (x ∷ xs) ys k a = Above-right xs ys k a.1

  pub Below-append : (xs ys : List (ℕ × A)) (k : ℕ) → Below k xs → Below k ys → Below k (xs ++ ys)
  Below-append [] ys k a b = b
  Below-append (x ∷ xs) ys k a b = (a.0, Below-append xs ys k a.1 b)

  pub Below-left : (xs ys : List (ℕ × A)) (k : ℕ) → Below k (xs ++ ys) → Below k xs
  Below-left [] ys k a = tt
  Below-left (x ∷ xs) ys k a = (a.0, Below-left xs ys k a.1)

  pub Below-right : (xs ys : List (ℕ × A)) (k : ℕ) → Below k (xs ++ ys) → Below k ys
  Below-right [] ys k a = a
  Below-right (x ∷ xs) ys k a = Below-right xs ys k a.1

  pub Below-first_key : (es : List (ℕ × A)) {k m : ℕ} → Below k es → first_key es ≡ some m → m < k
  Below-first_key [] a e = ground arith
  Below-first_key (x ∷ es) a e = ground arith

  pub IsSorted-left : (xs ys : List (ℕ × A)) → IsSorted (xs ++ ys) → IsSorted xs
  IsSorted-left [] ys s = tt
  IsSorted-left (x ∷ xs) ys s = (Above-left xs ys _ s.0, IsSorted-left xs ys s.1)

  pub IsSorted-right : (xs ys : List (ℕ × A)) → IsSorted (xs ++ ys) → IsSorted ys
  IsSorted-right [] ys s = s
  IsSorted-right (x ∷ xs) ys s = IsSorted-right xs ys s.1

  pub first_key-Above :
      (es : List (ℕ × A)) {k m : ℕ} → IsSorted es → first_key es ≡ some m → k < m → Above k es
  first_key-Above [] s e h = tt
  first_key-Above (x ∷ es) s e h = (ground arith, Above-le es (ground arith) s.0)

  pub Above-first_key : (es : List (ℕ × A)) {k m : ℕ} → Above k es → first_key es ≡ some m → k < m
  Above-first_key [] a e = ground arith
  Above-first_key (x ∷ es) a e = ground arith

  -- What stands before a block has smaller keys.
  pub IsSorted-Below :
      (xs ys : List (ℕ × A)) {m : ℕ} → IsSorted (xs ++ ys) → first_key ys ≡ some m → Below m xs
  IsSorted-Below [] ys s e = tt
  IsSorted-Below (x ∷ xs) ys s e =
      (Above-first_key ys (Above-right xs ys _ s.0) e, IsSorted-Below xs ys s.1 e)

  -- What stands behind a block has larger keys than its first one.
  pub IsSorted-Above :
      (xs ys : List (ℕ × A)) {m : ℕ} → IsSorted (xs ++ ys) → first_key xs ≡ some m → Above m ys
  IsSorted-Above [] ys s e = absurd (ground arith)
  IsSorted-Above (x ∷ xs) ys s e = Above-le ys (ground arith) (Above-right xs ys _ s.0)

  pub first_key-append :
      (xs ys : List (ℕ × A)) {m : ℕ} → first_key xs ≡ some m → first_key (xs ++ ys) ≡ some m
  first_key-append [] ys e = ground arith
  first_key-append (x ∷ xs) ys e = e

  pub IsSorted-append :
      (xs ys : List (ℕ × A)) (k : ℕ)
      → IsSorted xs
      → IsSorted ys
      → Below k xs
      → Above k ys
      → IsSorted (xs ++ ys)
  IsSorted-append [] ys k s r b a = r
  IsSorted-append (x ∷ xs) ys k s r b a =
      (Above-append xs ys _ s.0 (Above-le ys (omega arith) a), IsSorted-append xs ys k s.1 r b.1 a)

  pub lookup-Above : (es : List (ℕ × A)) (k : ℕ) → Above k es → lookup es k ≡ none
  lookup-Above [] k a = refl
  lookup-Above (x ∷ es) k a = ground (arith, lookup-Above es k a.1)

  -- A key is looked up in the block whose neighbours have smaller and larger ones.
  pub lookup-between :
      (xs ys zs : List (ℕ × A)) (k : ℕ)
      → Below k xs
      → Above k zs
      → lookup (xs ++ (ys ++ zs)) k ≡ lookup ys k
  lookup-between [] [] zs k b a = lookup-Above zs k a
  lookup-between [] (y ∷ ys) zs k b a = ground (arith, lookup-between [] ys zs k b a)
  lookup-between (x ∷ xs) ys zs k b a = ground (arith, lookup-between xs ys zs k b.1 a)
