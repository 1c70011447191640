-- ===== src/BpTree/Nodes.antt =====
-- Base/BPTree_impls: the index blocks of a tree. No two of them are the same block, so a write to one
-- leaves the others as they are.
use tiny_backend.Prelude.{
  ℕ, zero, suc, ◌<◌, ◌≤◌, ◌≡◌, refl, ap, ◌∙◌, ◌⊎◌, inl, inr, Bool, true, false, some, List, [], ◌∷◌,
  ◌++◌, map, length, get_elem?, ◌==◌, ◌||◌, Bool-cases, arith,
}
use tiny_backend.BpTree.{Block}
use tiny_backend.BpTree.Store.{as_index}
use tiny_backend.BpTree.Shape.{concat_map, All, Shape, entry}

abbrev pub inside : ℕ → List ℕ → Bool
inside j [] = false
inside j (x ∷ xs) = x == j || inside j xs

abbrev pub Distinct : List ℕ → Type 0
Distinct [] = Unit
Distinct (x ∷ xs) = (inside x xs ≡ false) × Distinct xs

abbrev pub Apart : List ℕ → List ℕ → Type 0
Apart xs ys = (j : ℕ) → inside j xs ≡ true → inside j ys ≡ false

pub inside-append : (j : ℕ) (xs ys : List ℕ) → inside j (xs ++ ys) ≡ (inside j xs || inside j ys)
inside-append j [] ys = refl
inside-append j (x ∷ xs) ys = ground (arith, inside-append j xs ys)

pub Distinct-append :
    (xs ys : List ℕ) → Distinct xs → Distinct ys → Apart xs ys → Distinct (xs ++ ys)
Distinct-append [] ys d e a = e
Distinct-append (x ∷ xs) ys d e a = (
  inside-append x xs ys ∙ ground (arith, d.0, a x),
  Distinct-append xs ys d.1 e (λ j h. a j (ground arith)),
)

pub Distinct-left : (xs ys : List ℕ) → Distinct (xs ++ ys) → Distinct xs
Distinct-left [] ys d = tt
Distinct-left (x ∷ xs) ys d = (ground (arith, inside-append x xs ys, d.0), Distinct-left xs ys d.1)

pub Distinct-right : (xs ys : List ℕ) → Distinct (xs ++ ys) → Distinct ys
Distinct-right [] ys d = d
Distinct-right (x ∷ xs) ys d = Distinct-right xs ys d.1

pub Distinct-Apart : (xs ys : List ℕ) → Distinct (xs ++ ys) → Apart xs ys
Distinct-Apart [] ys d j h = ground arith
Distinct-Apart (x ∷ xs) ys d j h = elim (Bool-cases (x == j)) [
  | inl e ↦
      let same : x ≡ j = ground arith in
      ground (
        arith,
        ap (λ i. inside i (xs ++ ys)) same,
        inside-append x xs ys,
        inside-append j xs ys,
        d.0,
      )
  | inr e ↦ Distinct-Apart xs ys d.1 j (ground arith)
]

-- A stretch gives way to one of its own numbers and of numbers from `n` on.
pub Distinct-replace :
    (xs ms ms' ys : List ℕ) (n : ℕ)
    → Distinct (xs ++ (ms ++ ys))
    → Distinct ms'
    → ((j : ℕ) → inside j xs ≡ true → j < n)
    → ((j : ℕ) → inside j ys ≡ true → j < n)
    → ((j : ℕ) → inside j ms' ≡ true → (inside j ms ≡ true) ⊎ (n ≤ j))
    → Distinct (xs ++ (ms' ++ ys))
Distinct-replace xs ms ms' ys n d d' hx hy hm =
    let r = Distinct-right xs (ms ++ ys) d in
    let apart = Distinct-Apart xs (ms ++ ys) d in
    let last : Apart ms' ys = λ j h. ground (arith, hm j h, hy j, Distinct-Apart ms ys r j) in
    Distinct-append xs (ms' ++ ys) (Distinct-left xs (ms ++ ys) d)
      (Distinct-append ms' ys d' (Distinct-right ms ys r) last)
      (λ j h.
        ground (arith, hx j h, apart j h, inside-append j ms' ys, inside-append j ms ys, hm j))

module _ {ℓ} (V : Type ℓ) where
  -- The numbers of the index blocks.
  abbrev pub inodes : (h : ℕ) → Shape V h → List ℕ
  inodes zero s = []
  inodes (suc h) s = s.0 ∷ concat_map (λ c. inodes h c.1) s.1

  abbrev pub IsNodes : List (Block V) → (h : ℕ) → Shape V h → Type ℓ
  IsNodes bs zero s = Unit
  IsNodes bs (suc h) s =
      (as_index (get_elem? bs s.0) ≡ some (map (entry V h) s.1)) × All (λ c. IsNodes bs h c.1) s.1

  -- Index blocks outside of a list keep their pairs.
  abbrev pub Keeps : (bs bs' : List (Block V)) → List ℕ → Type 0
  Keeps bs bs' js =
      (j : ℕ) (es : List (ℕ × ℕ))
      → inside j js ≡ false
      → as_index (get_elem? bs j) ≡ some es
      → as_index (get_elem? bs' j) ≡ some es

  frame_all :
      (bs bs' : List (Block V)) (js : List ℕ) (h : ℕ) (cs : List (ℕ × Shape V h))
      → ((s : Shape V h) → Apart (inodes h s) js → IsNodes bs h s → IsNodes bs' h s)
      → Apart (concat_map (λ c. inodes h c.1) cs) js
      → All (λ c. IsNodes bs h c.1) cs
      → All (λ c. IsNodes bs' h c.1) cs
  frame_all bs bs' js h [] one a n = tt
  frame_all bs bs' js h (c ∷ cs) one a n = (
    one c.1 (λ j i. a j (inside-append j (inodes h c.1) _ ∙ ground arith)) n.0,
    frame_all bs bs' js h cs one (λ j i. a j (inside-append j (inodes h c.1) _ ∙ ground arith)) n.1,
  )

  pub IsNodes-frame :
      (bs bs' : List (Block V)) (js : List ℕ) (h : ℕ) (s : Shape V h)
      → Keeps bs bs' js
      → Apart (inodes h s) js
      → IsNodes bs h s
      → IsNodes bs' h s
  IsNodes-frame bs bs' js zero s k a n = tt
  IsNodes-frame bs bs' js (suc h) s k a n = (
    k s.0 _ (a s.0 (ground arith)) n.0,
    frame_all bs bs' js h s.1 (λ c. IsNodes-frame bs bs' js h c k) (λ j i. a j (ground arith)) n.1,
  )

  pub IsNodes-frame_all :
      (bs bs' : List (Block V)) (js : List ℕ) (h : ℕ) (cs : List (ℕ × Shape V h))
      → Keeps bs bs' js
      → Apart (concat_map (λ c. inodes h c.1) cs) js
      → All (λ c. IsNodes bs h c.1) cs
      → All (λ c. IsNodes bs' h c.1) cs
  IsNodes-frame_all bs bs' js h cs k = frame_all bs bs' js h cs (λ c. IsNodes-frame bs bs' js h c k)

  -- An index block stands within the file.
  pub index_inside :
      (bs : List (Block V)) (j : ℕ) {es : List (ℕ × ℕ)}
      → as_index (get_elem? bs j) ≡ some es
      → j < length bs
  index_inside [] j e = absurd (ground arith)
  index_inside (b ∷ bs) zero e = omega arith
  index_inside (b ∷ bs) (suc j) e = omega (arith, index_inside bs j e)

  inside_all :
      (bs : List (Block V)) (h : ℕ) (cs : List (ℕ × Shape V h))
      → ((s : Shape V h) → IsNodes bs h s → (j : ℕ) → inside j (inodes h s) ≡ true → j < length bs)
      → All (λ c. IsNodes bs h c.1) cs
      → (j : ℕ) → inside j (concat_map (λ c. inodes h c.1) cs) ≡ true
      → j < length bs
  inside_all bs h [] one n j i = absurd (ground arith)
  inside_all bs h (c ∷ cs) one n j i =
      let split = inside-append j (inodes h c.1) (concat_map (λ c. inodes h c.1) cs) in
      ground (arith, split, one c.1 n.0 j, inside_all bs h cs one n.1 j)

  pub IsNodes-lt :
      (bs : List (Block V)) (h : ℕ) (s : Shape V h)
      → IsNodes bs h s
      → (j : ℕ) → inside j (inodes h s) ≡ true
      → j < length bs
  IsNodes-lt bs zero s n j i = absurd (ground arith)
  IsNodes-lt bs (suc h) s n j i =
      ground (arith, index_inside bs s.0 n.0, inside_all bs h s.1 (IsNodes-lt bs h) n.1 j)

  pub IsNodes-lt_all :
      (bs : List (Block V)) (h : ℕ) (cs : List (ℕ × Shape V h))
      → All (λ c. IsNodes bs h c.1) cs
      → (j : ℕ) → inside j (concat_map (λ c. inodes h c.1) cs) ≡ true
      → j < length bs
  IsNodes-lt_all bs h cs = inside_all bs h cs (IsNodes-lt bs h)
