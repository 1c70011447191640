-- ===== src/BpTree/Rows.antt =====
-- Base/BPTree_impls/DataBlock_Impl.hpp: a stretch of the row of data blocks, between the block `prev`
-- before it and the block `next` behind it, and what a write to a block does to it.
use mathlib.Core.Path.{subst}
use tiny_backend.Prelude.{
  ℕ, zero, suc, ◌<◌, ◌≡◌, ◌≢◌, refl, sym, ap, ◌∙◌, Bool, true, false, Option, some, List, [], ◌∷◌,
  ◌++◌, length, get_elem?, set, get_elem?-set_self, get_elem?-set_ne, ◌==◌, ◌||◌, arith,
}
use tiny_backend.BpTree.{DataBlock, Block, data_block}
use tiny_backend.BpTree.Pairs.{first_key}
use tiny_backend.BpTree.Bound.{Above, IsSorted}
use tiny_backend.BpTree.Sorted.{
  Below, Above-left, Above-right, Above-first_key, Below-left, Below-right, Below-first_key,
  IsSorted-Above, IsSorted-Below, IsSorted-right, first_key-append,
}
use tiny_backend.BpTree.Reach.{concat_map-append}
use tiny_backend.BpTree.Shape.{concat_map, head_index, IsLinked}

pub true-false : true ≡ false → ⊥
true-false e = ground arith

lt_irrefl : (m : ℕ) → m < m → ⊥
lt_irrefl m h = omega arith

module _ {ℓ} {V : Type ℓ} where
  abbrev pub head_or : ℕ → List (ℕ × List (ℕ × V)) → ℕ
  head_or n [] = n
  head_or n (l ∷ ls) = l.0

  abbrev pub last_or : ℕ → List (ℕ × List (ℕ × V)) → ℕ
  last_or p [] = p
  last_or p (l ∷ ls) = last_or l.0 ls

  abbrev pub has : ℕ → List (ℕ × List (ℕ × V)) → Bool
  has i [] = false
  has i (l ∷ ls) = l.0 == i || has i ls

  abbrev pub block : (prev next : ℕ) → List (ℕ × V) → Block V
  block p n ps = data_block (record { prev_index = p; next_index = n; pairs = ps })

  abbrev pub IsRow : List (Block V) → (prev next : ℕ) → List (ℕ × List (ℕ × V)) → Type ℓ
  IsRow bs p n [] = Unit
  IsRow bs p n (l ∷ ls) =
      (get_elem? bs l.0 ≡ some (block p (head_or n ls) l.1))
      × (l.0 ≢ 0)
      × (l.1 ≢ [])
      × IsRow bs l.0 n ls

  head_or-index : (ls : List (ℕ × List (ℕ × V))) → head_or 0 ls ≡ head_index ls
  head_or-index [] = refl
  head_or-index (l ∷ ls) = refl

  pub IsRow-IsLinked :
      (bs : List (Block V)) (p : ℕ) (ls : List (ℕ × List (ℕ × V)))
      → IsRow bs p 0 ls
      → IsLinked bs p ls
  IsRow-IsLinked bs p [] r = tt
  IsRow-IsLinked bs p (l ∷ ls) r = (
    r.0 ∙ ap (λ n. some (block p n l.1)) (head_or-index ls),
    r.1,
    r.2,
    IsRow-IsLinked bs l.0 ls r.3,
  )

  pub IsLinked-IsRow :
      (bs : List (Block V)) (p : ℕ) (ls : List (ℕ × List (ℕ × V)))
      → IsLinked bs p ls
      → IsRow bs p 0 ls
  IsLinked-IsRow bs p [] r = tt
  IsLinked-IsRow bs p (l ∷ ls) r = (
    r.0 ∙ ap (λ n. some (block p n l.1)) (sym (head_or-index ls)),
    r.1,
    r.2,
    IsLinked-IsRow bs l.0 ls r.3,
  )

  head_or-append :
      (n : ℕ) (xs ys : List (ℕ × List (ℕ × V))) → head_or n (xs ++ ys) ≡ head_or (head_or n ys) xs
  head_or-append n [] ys = refl
  head_or-append n (x ∷ xs) ys = refl

  pub IsRow-append :
      (bs : List (Block V)) (p n : ℕ) (xs ys : List (ℕ × List (ℕ × V)))
      → IsRow bs p (head_or n ys) xs
      → IsRow bs (last_or p xs) n ys
      → IsRow bs p n (xs ++ ys)
  IsRow-append bs p n [] ys a b = b
  IsRow-append bs p n (x ∷ xs) ys a b = (
    a.0 ∙ ap (λ n. some (block p n x.1)) (sym (head_or-append n xs ys)),
    a.1,
    a.2,
    IsRow-append bs x.0 n xs ys a.3 b,
  )

  pub IsRow-left :
      (bs : List (Block V)) (p n : ℕ) (xs ys : List (ℕ × List (ℕ × V)))
      → IsRow bs p n (xs ++ ys)
      → IsRow bs p (head_or n ys) xs
  IsRow-left bs p n [] ys r = tt
  IsRow-left bs p n (x ∷ xs) ys r = (
    r.0 ∙ ap (λ n. some (block p n x.1)) (head_or-append n xs ys),
    r.1,
    r.2,
    IsRow-left bs x.0 n xs ys r.3,
  )

  pub IsRow-right :
      (bs : List (Block V)) (p n : ℕ) (xs ys : List (ℕ × List (ℕ × V)))
      → IsRow bs p n (xs ++ ys)
      → IsRow bs (last_or p xs) n ys
  IsRow-right bs p n [] ys r = r
  IsRow-right bs p n (x ∷ xs) ys r = IsRow-right bs x.0 n xs ys r.3

  -- Blocks elsewhere may change.
  pub IsRow-frame :
      (bs bs' : List (Block V)) (p n : ℕ) (ls : List (ℕ × List (ℕ × V)))
      → ((j : ℕ) (d : DataBlock V)
          → has j ls ≡ true
          → get_elem? bs j ≡ some (data_block d)
          → get_elem? bs' j ≡ some (data_block d))
      → IsRow bs p n ls
      → IsRow bs' p n ls
  IsRow-frame bs bs' p n [] f r = tt
  IsRow-frame bs bs' p n (l ∷ ls) f r = (
    f l.0 _ (ground arith) r.0,
    r.1,
    r.2,
    IsRow-frame bs bs' l.0 n ls (λ j d h e. f j d (ground arith) e) r.3,
  )

  pairs_or : List (ℕ × V) → Option (Block V) → List (ℕ × V)
  pairs_or ps (some (data_block d)) = d.pairs
  pairs_or ps _ = ps

  same_pairs :
      (bs : List (Block V)) (i j : ℕ) (d : DataBlock V) (p n : ℕ) (ps : List (ℕ × V))
      → get_elem? bs i ≡ some (data_block d)
      → get_elem? bs j ≡ some (block p n ps)
      → j ≡ i
      → d.pairs ≡ ps
  unfolding pairs_or
  same_pairs bs i j d p n ps e e' q = ap (pairs_or ps) (sym e ∙ ap (get_elem? bs) (sym q) ∙ e')

  -- No other block of the row is the one whose first key is `m`.
  pub has-Above :
      (bs : List (Block V)) (p n i m : ℕ) (d : DataBlock V) (ls : List (ℕ × List (ℕ × V)))
      → get_elem? bs i ≡ some (data_block d)
      → first_key d.pairs ≡ some m
      → Above m (concat_map (λ l. l.1) ls)
      → IsRow bs p n ls
      → has i ls ≡ false
  has-Above bs p n i m d [] e f a r = refl
  has-Above bs p n i m d (l ∷ ls) e f a r =
      let other : (l.0 ≡ i → ⊥) = λ q. lt_irrefl m (
        Above-first_key l.1 (Above-left l.1 _ m a)
          (ap first_key (sym (same_pairs bs i l.0 d _ _ l.1 e r.0 q)) ∙ f)) in
      ground (arith, has-Above bs l.0 n i m d ls e f (Above-right l.1 _ m a) r.3)

  pub has-Below :
      (bs : List (Block V)) (p n i m : ℕ) (d : DataBlock V) (ls : List (ℕ × List (ℕ × V)))
      → get_elem? bs i ≡ some (data_block d)
      → first_key d.pairs ≡ some m
      → Below m (concat_map (λ l. l.1) ls)
      → IsRow bs p n ls
      → has i ls ≡ false
  has-Below bs p n i m d [] e f a r = refl
  has-Below bs p n i m d (l ∷ ls) e f a r =
      let other : (l.0 ≡ i → ⊥) = λ q. lt_irrefl m (
        Below-first_key l.1 (Below-left l.1 _ m a)
          (ap first_key (sym (same_pairs bs i l.0 d _ _ l.1 e r.0 q)) ∙ f)) in
      ground (arith, has-Below bs l.0 n i m d ls e f (Below-right l.1 _ m a) r.3)

  pub nonempty-first_key : (ps : List (ℕ × V)) → ps ≢ [] → (m : ℕ) × (first_key ps ≡ some m)
  nonempty-first_key [] n = absurd (n refl)
  nonempty-first_key (x ∷ ps) n = (x.0, refl)

  -- Each block of a row in order stands in it once.
  pub record Once (before after : List (ℕ × List (ℕ × V))) (i : ℕ) : Type 0 where
    pub not_before : has i before ≡ false
    pub not_after : has i after ≡ false

  pub IsRow-Once :
      (bs : List (Block V)) (p n i : ℕ) (ps : List (ℕ × V)) (before after : List (ℕ × List (ℕ × V)))
      → IsRow bs p n (before ++ (i, ps) ∷ after)
      → IsSorted (concat_map (λ l. l.1) (before ++ (i, ps) ∷ after))
      → Once before after i
  IsRow-Once bs p n i ps before after r s =
      let at = IsRow-right bs p n before ((i, ps) ∷ after) r in
      let (m, f) = nonempty-first_key ps at.2 in
      let s' = subst IsSorted (concat_map-append (λ l. l.1) before ((i, ps) ∷ after)) s in
      let behind = IsSorted-right (concat_map (λ l. l.1) before) _ s' in
      record {
        not_before =
            has-Below bs _ _ i m _ before at.0 f
              (IsSorted-Below (concat_map (λ l. l.1) before) _ s' (first_key-append ps _ f))
              (IsRow-left bs p n before ((i, ps) ∷ after) r);
        not_after = has-Above bs _ _ i m _ after at.0 f (IsSorted-Above ps _ behind f) at.3;
      }

  pub get_inside :
      (bs : List (Block V)) (i : ℕ) {b : Block V} → get_elem? bs i ≡ some b → i < length bs
  get_inside [] i e = absurd (ground arith)
  get_inside (b ∷ bs) zero e = omega arith
  get_inside (b ∷ bs) (suc i) e = omega (arith, get_inside bs i e)

  pub has_other :
      (i j : ℕ) (ls : List (ℕ × List (ℕ × V))) → has i ls ≡ false → has j ls ≡ true → i ≡ j → ⊥
  has_other i j ls h h' e = true-false (sym (ap (λ x. has x ls) e ∙ h') ∙ h)

  set-keeps :
      (bs : List (Block V)) (i j : ℕ) (b : Block V) (ls : List (ℕ × List (ℕ × V)))
      → has i ls ≡ false
      → has j ls ≡ true
      → get_elem? (set bs i b) j ≡ get_elem? bs j
  set-keeps bs i j b ls h h' = get_elem?-set_ne bs b (λ e. has_other i j ls h h' e)

  -- New pairs in a block of the row.
  pub IsRow-update :
      (bs : List (Block V)) (p n i : ℕ) (ps qs : List (ℕ × V))
      (before after : List (ℕ × List (ℕ × V)))
      → IsRow bs p n (before ++ (i, ps) ∷ after)
      → Once before after i
      → qs ≢ []
      → IsRow
          (set bs i (block (last_or p before) (head_or n after) qs))
          p
          n
          (before ++ (i, qs) ∷ after)
  IsRow-update bs p n i ps qs before after r o q =
      let at = IsRow-right bs p n before ((i, ps) ∷ after) r in
      let b = block (last_or p before) (head_or n after) qs in
      IsRow-append (set bs i b) p n before ((i, qs) ∷ after)
        (IsRow-frame bs (set bs i b) p i before
          (λ j d h e. set-keeps bs i j b before o.not_before h ∙ e)
          (IsRow-left bs p n before ((i, ps) ∷ after) r))
        (
          get_elem?-set_self bs i b (get_inside bs i at.0),
          at.1,
          q,
          IsRow-frame bs (set bs i b) i n after
              (λ j d h e. set-keeps bs i j b after o.not_after h ∙ e) at.3,
        )
