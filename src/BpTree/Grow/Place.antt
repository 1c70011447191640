-- ===== src/BpTree/Grow/Place.antt =====
-- Base/BPTree_impls/BPTree.hpp: the child into which `index_block_insert` inserts a new key, and the
-- key that it gives the child.
use mathlib.Core.Path.{subst}
use tiny_backend.Prelude.{
  ℕ, zero, suc, ◌-◌, ◌≤◌, ◌<◌, ◌≡◌, ◌≢◌, refl, sym, ap, ◌∙◌, inl, inr, true, false, ◌&&◌, none,
  some, List, [], ◌∷◌, ◌++◌, map, length, ltb, ltb→lt, ◌==◌, if◌then◌else◌, Bool-cases, arith,
}
use tiny_backend.BpTree.Pairs.{first_key, lower_bound, update_key}
use tiny_backend.BpTree.Bound.{IsSorted, rank, rank_step, lower_bound-rank}
use tiny_backend.BpTree.Store.{pointer_at}
use tiny_backend.BpTree.Sorted.{Below, Below-left, Below-first_key, lookup}
use tiny_backend.BpTree.Shape.{concat_map, Shape, root, contents, entry, IsOrdered}
use tiny_backend.BpTree.Descend.{pick, Heads, Picked, pick-Picked}
use tiny_backend.BpTree.Reach.{pointer_at-middle, pick-map, entries-IsSorted, All-Heads}
use tiny_backend.BpTree.Grow.Leaf.{has_key, has_key-none}

-- The step from the lower bound of a key that is not among the entries.
abbrev back : (pos : ℕ) → ℕ
back pos = if pos == 0 then 0 else pos - 1

back-pick-suc :
    (e e' : ℕ × ℕ) (es : List (ℕ × ℕ)) (k r : ℕ)
    → (r ≡ 0 → k < e'.0)
    → (0 < r → e'.0 < k)
    → back r ≡ pick (e' ∷ es) k
    → back (suc r) ≡ pick (e ∷ e' ∷ es) k
back-pick-suc e e' es k zero z p i = ground (arith, z refl)
back-pick-suc e e' es k (suc r) z p i = ground (arith, p (omega arith))

back-pick :
    (e : ℕ × ℕ) (es : List (ℕ × ℕ)) (k : ℕ)
    → IsSorted (e ∷ es)
    → lookup (e ∷ es) k ≡ none
    → back (rank (e ∷ es) k) ≡ pick (e ∷ es) k
back-pick e [] k s n = ground arith
back-pick e (e' ∷ es) k s n = elim (Bool-cases (ltb e.0 k)) [
  | inl l ↦
      let later : lookup (e' ∷ es) k ≡ none = ground arith in
      ap back (rank_step e (e' ∷ es) k (ltb→lt e.0 k l))
      ∙ back-pick-suc e e' es k (rank (e' ∷ es) k) (λ z. ground arith) (λ z. ground arith)
          (back-pick e' es k s.1 later)
  | inr l ↦
      let start : rank (e ∷ e' ∷ es) k ≡ 0 = rw l refl in ap back start ∙ ground (arith, s.0.0)
]

module _ {ℓ} {A : Type ℓ} where
  lookup-left : (xs ys : List (ℕ × A)) (k : ℕ) → lookup (xs ++ ys) k ≡ none → lookup xs k ≡ none
  lookup-left [] ys k n = refl
  lookup-left (x ∷ xs) ys k n = ground (arith, lookup-left xs ys k)

  lookup-right : (xs ys : List (ℕ × A)) (k : ℕ) → lookup (xs ++ ys) k ≡ none → lookup ys k ≡ none
  lookup-right [] ys k n = n
  lookup-right (x ∷ xs) ys k n = ground (arith, lookup-right xs ys k)

  lookup-first_key :
      (xs : List (ℕ × A)) (k m : ℕ) → lookup xs k ≡ none → first_key xs ≡ some m → m ≢ k
  lookup-first_key [] k m n f e = ground arith
  lookup-first_key (x ∷ xs) k m n f e = ground arith

head_or_self {ℓ} : {A : Type ℓ} → A → List A → A
head_or_self x [] = x
head_or_self x (y ∷ ys) = y

head_path {ℓ} : {A : Type ℓ} (x : A) (ys zs : List A) → x ∷ zs ≡ ys → x ≡ head_or_self x ys
unfolding head_or_self
head_path x ys zs e = ap (head_or_self x) e

module _ {ℓ} (V : Type ℓ) where
  entries-lookup :
      (h : ℕ) (cs : List (ℕ × Shape V h)) (k : ℕ)
      → Heads (contents V h) cs
      → lookup (concat_map (λ c. contents V h c.1) cs) k ≡ none
      → lookup (map (entry V h) cs) k ≡ none
  entries-lookup h [] k hs n = refl
  entries-lookup h (c ∷ cs) k hs n =
      let other =
        lookup-first_key (contents V h c.1) k c.0 (lookup-left (contents V h c.1) _ k n) hs.0 in
      ground (arith, entries-lookup h cs k hs.1 (lookup-right (contents V h c.1) _ k n), other)

  -- The key of the child after the insertion.
  abbrev pub new_key : (k old : ℕ) → ℕ
  new_key k old = if ltb k old then k else old

  update-middle :
      (h : ℕ) (xs : List (ℕ × Shape V h)) (c : ℕ × Shape V h) (ys : List (ℕ × Shape V h)) (k : ℕ)
      → update_key (map (entry V h) (xs ++ c ∷ ys)) (length xs) k
        ≡ map (entry V h) (xs ++ (k, c.1) ∷ ys)
  unfolding update_key
  update-middle h [] c ys k = refl
  update-middle h (x ∷ xs) c ys k = ap (λ l. entry V h x ∷ l) (update-middle h xs c ys k)

  -- Where the block `s` takes the key `k`.
  pub record Place (h : ℕ) (s : Shape V (suc h)) (k : ℕ) : Type ℓ where
    pub picked : Picked (contents V h) s.1 k
    pub first : ℕ
    pub first_is : first_key (map (entry V h) s.1) ≡ some first
    pub absent : has_key (map (entry V h) s.1) k (lower_bound (map (entry V h) s.1) k) ≡ false
    pub pos : back (lower_bound (map (entry V h) s.1) k) ≡ length picked.before
    pub pointer :
        pointer_at (map (entry V h) s.1) (length picked.before) ≡ some (root V h picked.child.1)
    pub renewed :
        (if ltb k first && true
          then update_key (map (entry V h) s.1) (length picked.before) k
          else map (entry V h) s.1)
        ≡ map
            (entry V h)
            (picked.before ++ (new_key k picked.child.0, picked.child.1) ∷ picked.after)

  renew :
      (h : ℕ) (xs : List (ℕ × Shape V h)) (c : ℕ × Shape V h) (ys : List (ℕ × Shape V h))
      (k first : ℕ)
      → first_key (map (entry V h) (xs ++ c ∷ ys)) ≡ some first
      → (0 < length xs → (first < k) × (c.0 ≤ k))
      → (if ltb k first && true
          then update_key (map (entry V h) (xs ++ c ∷ ys)) (length xs) k
          else map (entry V h) (xs ++ c ∷ ys))
        ≡ map (entry V h) (xs ++ (new_key k c.0, c.1) ∷ ys)
  renew h [] c ys k first f st =
      let same : c.0 ≡ first = ground arith in
      elim (Bool-cases (ltb k first)) [
        | inl l ↦ let l' = ap (ltb k) same ∙ l in rw (l, l') (update-middle h [] c ys k)
        | inr l ↦ let l' = ap (ltb k) same ∙ l in rw (l, l') refl
      ]
  renew h (x ∷ xs) c ys k first f st =
      let low = st (omega arith) in
      let l : ltb k first ≡ false = ground arith in
      let l' : ltb k c.0 ≡ false = ground arith in rw (l, l') refl

  Below-first :
      (h : ℕ) (x : ℕ × Shape V h) (xs : List (ℕ × Shape V h)) (k : ℕ)
      → first_key (contents V h x.1) ≡ some x.0
      → Below k (concat_map (λ c. contents V h c.1) (x ∷ xs))
      → x.0 < k
  Below-first h x xs k f b =
      Below-first_key (contents V h x.1) (Below-left (contents V h x.1) _ k b) f

  -- The first key is below `k` when a later child is picked.
  first_below :
      (h : ℕ) (c : ℕ × Shape V h) (cs xs : List (ℕ × Shape V h)) (y : ℕ × Shape V h)
      (ys : List (ℕ × Shape V h)) (k : ℕ)
      → c ∷ cs ≡ xs ++ y ∷ ys
      → first_key (contents V h c.1) ≡ some c.0
      → Below k (concat_map (λ c. contents V h c.1) xs)
      → 0 < length xs
      → c.0 < k
  unfolding head_or_self
  first_below h c cs [] y ys k w f b l = absurd (omega arith)
  first_below h c cs (x ∷ xs) y ys k w f b l =
      let same : c ≡ x = head_path c (x ∷ (xs ++ y ∷ ys)) cs w in
      subst (λ c. c.0 < k) (sym same)
        (Below-first h x xs k (subst (λ c. first_key (contents V h c.1) ≡ some c.0) same f) b)

  pub place :
      (h : ℕ) (s : Shape V (suc h)) (k : ℕ)
      → IsOrdered V (suc h) s
      → lookup (contents V (suc h) s) k ≡ none
      → Place h s k
  place h (i, []) k o n = absurd (o.1 refl)
  place h (i, c ∷ cs) k o n =
      let hs = All-Heads V h (c ∷ cs) o.2 in
      let p = pick-Picked (contents V h) c cs k hs o.0 in
      let es = map (entry V h) cs in
      let sorted = entries-IsSorted V h (c ∷ cs) hs o.0 in
      let bound = lower_bound-rank (entry V h c ∷ es) k sorted in
      let gone = entries-lookup h (c ∷ cs) k hs n in
      record {
        picked = p;
        first = c.0;
        first_is = refl;
        absent = ap (has_key (entry V h c ∷ es) k) bound ∙ has_key-none (entry V h c ∷ es) k gone;
        pos =
            ap back bound
            ∙ back-pick (entry V h c) es k sorted gone
            ∙ pick-map V h (c ∷ cs) k
            ∙ sym p.place;
        pointer =
            ap (λ x. pointer_at (map (entry V h) x) (length p.before)) p.whole
            ∙ pointer_at-middle V h p.before p.child p.after;
        renewed =
            ap
              (λ x.
                if ltb k c.0 && true
                then update_key (map (entry V h) x) (length p.before) k
                else map (entry V h) x)
              p.whole
            ∙ renew h p.before p.child p.after k c.0
                (ap (λ x. first_key (map (entry V h) x)) (sym p.whole))
                (λ l.
                  (first_below h c cs p.before p.child p.after k p.whole hs.0 p.low l, p.start l));
      }
