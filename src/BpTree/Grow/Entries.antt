-- ===== src/BpTree/Grow/Entries.antt =====
-- Base/BPTree_impls/IndexBlock_Impl.hpp: the entry for a block that was split off, behind the entry of
-- the block that it was split from.
use mathlib.Core.Path.{subst}
use tiny_backend.Prelude.{
  ℕ, zero, suc, ◌+◌, ◌/◌, ◌≡◌, ◌≢◌, refl, sym, ap, ap₂, ◌∙◌, some, List, [], ◌∷◌, ◌++◌, map, length,
  length-append, length-map, take, drop, lt→ltb, arith,
}
use tiny_backend.BpTree.Pairs.{first_key, insert, lower_bound, split}
use tiny_backend.BpTree.Bound.{Above, IsSorted, rank, lower_bound-rank}
use tiny_backend.BpTree.Sorted.{Above-right, first_key-append}
use tiny_backend.BpTree.Shape.{concat_map, All, Shape, root, contents, entry}
use tiny_backend.BpTree.Halves.{split-at, split_at-halves}
use tiny_backend.BpTree.Grow.Made.{Good}

module _ {ℓ} {A : Type ℓ} where
  rank-Above : (ws : List (ℕ × A)) (k : ℕ) → Above k ws → rank ws k ≡ 0
  rank-Above [] k a = refl
  rank-Above (w ∷ ws) k a = ground arith

  rank-after :
      (xs : List (ℕ × A)) (y z : ℕ × A) (ws : List (ℕ × A))
      → IsSorted (xs ++ y ∷ z ∷ ws)
      → rank (xs ++ y ∷ ws) z.0 ≡ suc (length xs)
  rank-after [] y z ws s = ground (arith, s.0.0, rank-Above ws z.0 s.1.0)
  rank-after (x ∷ xs) y z ws s =
      let low = (Above-right xs (y ∷ z ∷ ws) x.0 s.0).1.0 in
      rw (lt→ltb x.0 z.0 low, rank-after xs y z ws s.1) refl

  Above-without :
      (xs : List (ℕ × A)) (y z : ℕ × A) (ws : List (ℕ × A)) (k : ℕ)
      → Above k (xs ++ y ∷ z ∷ ws)
      → Above k (xs ++ y ∷ ws)
  Above-without [] y z ws k a = (a.0, a.1.1)
  Above-without (x ∷ xs) y z ws k a = (a.0, Above-without xs y z ws k a.1)

  IsSorted-without :
      (xs : List (ℕ × A)) (y z : ℕ × A) (ws : List (ℕ × A))
      → IsSorted (xs ++ y ∷ z ∷ ws)
      → IsSorted (xs ++ y ∷ ws)
  IsSorted-without [] y z ws s = (s.0.1, s.1.1)
  IsSorted-without (x ∷ xs) y z ws s =
      (Above-without xs y z ws x.0 s.0, IsSorted-without xs y z ws s.1)

  insert-after :
      (xs : List (ℕ × A)) (y z : ℕ × A) (ws : List (ℕ × A))
      → insert (xs ++ y ∷ ws) (suc (length xs)) z.0 z.1 ≡ xs ++ y ∷ z ∷ ws
  unfolding insert
  insert-after [] y z ws = refl
  insert-after (x ∷ xs) y z ws = ap (λ l. x ∷ l) (insert-after xs y z ws)

  pub split-after :
      (xs : List (ℕ × A)) (y z : ℕ × A) (ws : List (ℕ × A))
      → IsSorted (xs ++ y ∷ z ∷ ws)
      → let half = (length (xs ++ y ∷ ws) + 1) / 2 in
        split (xs ++ y ∷ ws) z.0 z.1 ≡ (take half (xs ++ y ∷ z ∷ ws), drop half (xs ++ y ∷ z ∷ ws))
  split-after xs y z ws s =
      let es = xs ++ y ∷ ws in
      let at = lower_bound-rank es z.0 (IsSorted-without xs y z ws s) ∙ rank-after xs y z ws s in
      split-at es z.0 z.1
      ∙ split_at-halves es (lower_bound es z.0) z.0 z.1
          (omega (arith, at, length-append xs (y ∷ ws)))
      ∙ ap (λ l. (take ((length es + 1) / 2) l, drop ((length es + 1) / 2) l))
          (ap (λ p. insert es p z.0 z.1) at ∙ insert-after xs y z ws)

module _ {ℓ κ} {A : Type ℓ} {B : Type κ} (f : A → B) where
  pub map-append : (xs ys : List A) → map f (xs ++ ys) ≡ map f xs ++ map f ys
  map-append [] ys = refl
  map-append (x ∷ xs) ys = ap (λ l. f x ∷ l) (map-append xs ys)

  pub map-take : (n : ℕ) (xs : List A) → take n (map f xs) ≡ map f (take n xs)
  map-take zero xs = refl
  map-take (suc n) [] = refl
  map-take (suc n) (x ∷ xs) = ap (λ l. f x ∷ l) (map-take n xs)

  pub map-drop : (n : ℕ) (xs : List A) → drop n (map f xs) ≡ map f (drop n xs)
  map-drop zero xs = refl
  map-drop (suc n) [] = refl
  map-drop (suc n) (x ∷ xs) = map-drop n xs

module _ {ℓ} (V : Type ℓ) (h : ℕ) where
  -- The entry for `d` goes behind that of `c`.
  pub entry-after :
      (xs : List (ℕ × Shape V h)) (c d : ℕ × Shape V h) (ys : List (ℕ × Shape V h))
      → insert (map (entry V h) (xs ++ c ∷ ys)) (suc (length xs)) d.0 (root V h d.1)
        ≡ map (entry V h) (xs ++ c ∷ d ∷ ys)
  entry-after xs c d ys =
      ap₂ (λ l n. insert l (suc n) d.0 (root V h d.1)) (map-append (entry V h) xs (c ∷ ys))
        (sym (length-map xs (entry V h)))
      ∙ insert-after (map (entry V h) xs) (entry V h c) (entry V h d) (map (entry V h) ys)
      ∙ sym (map-append (entry V h) xs (c ∷ d ∷ ys))

  pub entry-split :
      (xs : List (ℕ × Shape V h)) (c d : ℕ × Shape V h) (ys : List (ℕ × Shape V h))
      → IsSorted (map (entry V h) (xs ++ c ∷ d ∷ ys))
      → let half = (length (xs ++ c ∷ ys) + 1) / 2 in
        split (map (entry V h) (xs ++ c ∷ ys)) d.0 (root V h d.1) ≡ (
          map (entry V h) (take half (xs ++ c ∷ d ∷ ys)),
          map (entry V h) (drop half (xs ++ c ∷ d ∷ ys)),
        )
  entry-split xs c d ys s =
      let e = entry V h in
      let old = map-append e xs (c ∷ ys) in
      let new = map-append e xs (c ∷ d ∷ ys) in
      let half : ℕ = (length (xs ++ c ∷ ys) + 1) / 2 in
      let same = ap (λ n. (n + 1) / 2) (ap length (sym old) ∙ length-map (xs ++ c ∷ ys) e) in
      ap (λ l. split l d.0 (root V h d.1)) old
      ∙ split-after (map e xs) (e c) (e d) (map e ys) (subst IsSorted new s)
      ∙ ap₂ (λ n l. (take n l, drop n l)) same (sym new)
      ∙ ap₂ (λ x y. (x, y)) (map-take e half (xs ++ c ∷ d ∷ ys))
          (map-drop e half (xs ++ c ∷ d ∷ ys))

  -- The first key of some children.
  pub record Headed (cs : List (ℕ × Shape V h)) : Type 0 where
    pub key : ℕ
    pub in_entries : first_key (map (entry V h) cs) ≡ some key
    pub in_contents : first_key (concat_map (λ c. contents V h c.1) cs) ≡ some key

  pub Good-Headed : (cs : List (ℕ × Shape V h)) → cs ≢ [] → All (Good V h) cs → Headed cs
  Good-Headed [] n a = absurd (n refl)
  Good-Headed (c ∷ cs) n a = record {
    key = c.0;
    in_entries = refl;
    in_contents = first_key-append (contents V h c.1) _ a.0.1;
  }
