-- ===== src/BpTree/Parted.antt =====
-- Base/BPTree_impls/DataBlock_Impl.hpp: the row of data blocks after the split of one of them.
use mathlib.Core.Path.{subst}
use tiny_backend.Prelude.{
  ℕ, ◌≡◌, ◌≢◌, sym, ap, ◌∙◌, true, false, none, some, List, [], ◌∷◌, ◌++◌, get_elem?, arith,
}
use tiny_backend.BpTree.{Block}
use tiny_backend.BpTree.Bound.{Above, IsSorted}
use tiny_backend.BpTree.Sorted.{
  Below, Below-le, Above-left, Above-first_key, IsSorted-Above, IsSorted-Below, IsSorted-right,
  first_key-append,
}
use tiny_backend.BpTree.Reach.{concat_map-append}
use tiny_backend.BpTree.Shape.{concat_map}
use tiny_backend.BpTree.Rows.{
  head_or, last_or, has, block, IsRow, IsRow-append, IsRow-left, IsRow-right, IsRow-frame,
  IsRow-Once, has_other, has-Below, nonempty-first_key,
}

module _ {ℓ} {V : Type ℓ} where
  -- The block behind a split names the new block as the one before it.
  abbrev pub Named : List (Block V) → (m n : ℕ) → List (ℕ × List (ℕ × V)) → Type ℓ
  Named bs m n [] = Unit
  Named bs m n (l ∷ ls) = get_elem? bs l.0 ≡ some (block m (head_or n ls) l.1)

  abbrev pub NotHead : ℕ → List (ℕ × List (ℕ × V)) → Type 0
  NotHead j [] = Unit
  NotHead j (l ∷ ls) = j ≢ l.0

  -- The store after the split of block `i`, with `m` the new block behind it.
  pub record Parted (bs bs' : List (Block V)) (p n i m : ℕ) (ls rs : List (ℕ × V))
      (after : List (ℕ × List (ℕ × V))) : Type ℓ where
    pub fresh : get_elem? bs m ≡ none
    pub left : get_elem? bs' i ≡ some (block p m ls)
    pub right : get_elem? bs' m ≡ some (block i (head_or n after) rs)
    pub behind : Named bs' m n after
    pub others : (j : ℕ) → j ≢ i → j ≢ m → NotHead j after → get_elem? bs' j ≡ get_elem? bs j

  none-some : {b : Block V} → none ≡ some b → ⊥
  none-some e = ground arith

  not_fresh :
      (bs : List (Block V)) (j m : ℕ) {b : Block V}
      → get_elem? bs m ≡ none
      → get_elem? bs j ≡ some b
      → j ≢ m
  not_fresh bs j m e e' q = none-some (sym (ap (get_elem? bs) q ∙ e) ∙ e')

  -- The row behind the block that stands behind the split.
  tail-IsRow :
      (bs bs' : List (Block V)) (p n i m : ℕ) (ls rs : List (ℕ × V))
      (after : List (ℕ × List (ℕ × V)))
      → Parted bs bs' p n i m ls rs after
      → has i after ≡ false
      → IsRow bs i n after
      → IsSorted (concat_map (λ l. l.1) after)
      → IsRow bs' m n after
  tail-IsRow bs bs' p n i m ls rs [] d h r s = tt
  tail-IsRow bs bs' p n i m ls rs (l ∷ after) d h r s =
      let o = IsRow-Once bs i n l.0 l.1 [] after r s in
      (
        d.behind,
        r.1,
        r.2,
        IsRow-frame bs bs' l.0 n after
            (λ j b hj e.
              d.others j (λ q. has_other i j after (ground arith) hj (sym q))
                (not_fresh bs j m d.fresh e) (λ q. has_other l.0 j after o.not_after hj (sym q))
              ∙ e)
            r.3,
      )

  -- The block behind the split is none of those before it.
  before_head :
      (bs : List (Block V)) (n i m : ℕ) (before after : List (ℕ × List (ℕ × V)))
      → IsRow bs i n after
      → IsRow bs 0 i before
      → Below m (concat_map (λ l. l.1) before)
      → Above m (concat_map (λ l. l.1) after)
      → (j : ℕ) → has j before ≡ true
      → NotHead j after
  before_head bs n i m before [] r r' b a j h = tt
  before_head bs n i m before (l ∷ after) r r' b a j h =
      let (m', f) = nonempty-first_key l.1 r.2 in
      let above = Above-first_key l.1 (Above-left l.1 _ m a) f in
      λ q.
        has_other l.0 j before
          (has-Below bs 0 i l.0 m' _ before r.0 f
            (Below-le (concat_map (λ l. l.1) before) (omega arith) b) r')
          h (sym q)

  pub Parted-IsRow :
      (bs bs' : List (Block V)) (n i m : ℕ) (ps ls rs : List (ℕ × V))
      (before after : List (ℕ × List (ℕ × V)))
      → Parted bs bs' (last_or 0 before) n i m ls rs after
      → IsRow bs 0 n (before ++ (i, ps) ∷ after)
      → IsSorted (concat_map (λ l. l.1) (before ++ (i, ps) ∷ after))
      → m ≢ 0
      → ls ≢ []
      → rs ≢ []
      → IsRow bs' 0 n (before ++ (i, ls) ∷ (m, rs) ∷ after)
  Parted-IsRow bs bs' n i m ps ls rs before after d r s z x y =
      let o = IsRow-Once bs 0 n i ps before after r s in
      let at = IsRow-right bs 0 n before ((i, ps) ∷ after) r in
      let front = IsRow-left bs 0 n before ((i, ps) ∷ after) r in
      let (k, f) = nonempty-first_key ps at.2 in
      let s' = subst IsSorted (concat_map-append (λ l. l.1) before ((i, ps) ∷ after)) s in
      let behind = IsSorted-right (concat_map (λ l. l.1) before) _ s' in
      let low = IsSorted-Below (concat_map (λ l. l.1) before) _ s' (first_key-append ps _ f) in
      let high = IsSorted-Above ps _ behind f in
      IsRow-append bs' 0 n before ((i, ls) ∷ (m, rs) ∷ after)
        (IsRow-frame bs bs' 0 i before
          (λ j b hj e.
            d.others j (λ q. has_other i j before o.not_before hj (sym q))
              (not_fresh bs j m d.fresh e)
              (before_head bs n i k before after at.3 front low high j hj)
            ∙ e)
          front)
        (
          d.left,
          at.1,
          x,
          (
            d.right,
            z,
            y,
            tail-IsRow bs bs' (last_or 0 before) n i m ls rs after d o.not_after at.3
                (IsSorted-right ps _ behind),
          ),
        )
