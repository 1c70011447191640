-- ===== src/BpTree/Sought.antt =====
-- Base/BPTree_impls/BPTree.hpp: where `find_data` and `lower_bound` of the data block put a search.
use mathlib.Core.Path.{subst}
use tiny_backend.Prelude.{
  ℕ, zero, suc, ◌≤◌, ◌<◌, ◌≡◌, ◌≢◌, refl, sym, ap, ◌∙◌, true, false, ◌||◌, Option, none, some, List,
  [], ◌∷◌, ◌++◌, length, get_elem?, drop, ltb, ◌==◌, if◌then◌else◌, inl, inr, ◌⊎◌, Bool-cases,
  ltb→lt, arith,
}
use tiny_backend.BpTree.{DataBlock, Block, data_block}
use tiny_backend.BpTree.Pairs.{key_at, lower_bound}
use tiny_backend.BpTree.Bound.{Above, IsSorted, rank, rank-le, rank_step, lower_bound-rank}
use tiny_backend.BpTree.Store.{Tree, get_data, is_data}
use tiny_backend.BpTree.Search.{find_data, find_data_loop}
use tiny_backend.BpTree.Sorted.{Below, Above-le, lookup, lookup-Above, lookup-between}
use tiny_backend.BpTree.Shape.{
  concat_map, Shape, contents, leaves, head_index, IsLinked, IsTree, HoldsPairs,
}
use tiny_backend.BpTree.Reach.{
  concat_map-append, contents-leaves, is_data-leaf, is_data-index, Reached, leaf-Reached,
  find_data_loop-Reached,
}
use tiny_backend.BpTree.Cursor.{from, At}

module _ {ℓ} {V : Type ℓ} where
  from-Above : (es : List (ℕ × V)) (k : ℕ) → Above k es → from k es ≡ es
  from-Above [] k a = refl
  from-Above (x ∷ es) k a = ground arith

  from-between :
      (xs ys zs : List (ℕ × V)) (k : ℕ)
      → Below k xs
      → Above k zs
      → from k (xs ++ (ys ++ zs)) ≡ drop (rank ys k) ys ++ zs
  from-between [] [] zs k b a = from-Above zs k a
  from-between [] (y ∷ ys) zs k b a = ground (arith, from-between [] ys zs k b a)
  from-between (x ∷ xs) ys zs k b a = ground (arith, from-between xs ys zs k b.1 a)

  -- The end of `find` within one block.
  abbrev pub pair_at : List (ℕ × V) → (k pos : ℕ) → Option (ℕ × V)
  pair_at ps k pos = if pos == length ps || ltb k (key_at ps pos) then none else get_elem? ps pos

  pair_at-suc :
      (x : ℕ × V) (ps : List (ℕ × V)) (k pos : ℕ) → pair_at (x ∷ ps) k (suc pos) ≡ pair_at ps k pos
  pair_at-suc x ps k pos = ground arith

  pub pair_at-lookup :
      (ps : List (ℕ × V)) (k : ℕ) → IsSorted ps → pair_at ps k (rank ps k) ≡ lookup ps k
  pair_at-lookup [] k s = refl
  pair_at-lookup (x ∷ ps) k s = elim (Bool-cases (ltb x.0 k)) [
    | inl l ↦
        ap (pair_at (x ∷ ps) k) (rank_step x ps k (ltb→lt x.0 k l))
        ∙ pair_at-suc x ps k (rank ps k)
        ∙ pair_at-lookup ps k s.1
        ∙ ground arith
    | inr l ↦
        let none_below : rank (x ∷ ps) k ≡ 0 = ground arith in
        let above : (k < x.0 → lookup ps k ≡ none) =
          λ h. lookup-Above ps k (Above-le ps (omega arith) s.0) in
        let inner : (0 == length (x ∷ ps)) ≡ false = ground arith in
        ap (pair_at (x ∷ ps) k) none_below ∙ elim (Bool-cases (x.0 == k)) [
          | inl e ↦ let n : ltb k x.0 ≡ false = ground arith in rw (inner, n, e) refl
          | inr e ↦
              let n : ltb k x.0 ≡ true = ground arith in
              rw (inner, n, e) (sym (above (ltb→lt k x.0 n)))
        ]
  ]

  -- The block in a row of linked ones, and the row behind it.
  record Between (bs : List (Block V)) (i : ℕ) (ps : List (ℕ × V)) (after : List (ℕ × List (ℕ × V)))
      : Type ℓ where
    prev : ℕ
    here :
        get_elem? bs i
        ≡ some
            (data_block (record { prev_index = prev; next_index = head_index after; pairs = ps }))
    behind : IsLinked bs i after

  IsLinked-Between :
      (bs : List (Block V)) (prev : ℕ) (before : List (ℕ × List (ℕ × V))) (i : ℕ)
      (ps : List (ℕ × V)) (after : List (ℕ × List (ℕ × V)))
      → IsLinked bs prev (before ++ (i, ps) ∷ after)
      → Between bs i ps after
  IsLinked-Between bs prev [] i ps after l = record { prev = prev; here = l.0; behind = l.3 }
  IsLinked-Between bs prev (b ∷ before) i ps after l = IsLinked-Between bs b.0 before i ps after l.3

  -- Where a search by the key `k` starts.
  pub record Sought (t : Tree V) (fuel k : ℕ) (all : List (ℕ × V)) : Type ℓ where
    pub index : ℕ
    pub block : DataBlock V
    pub found : find_data fuel t k ≡ some (some index)
    pub got : get_data t index ≡ some block
    pub at : At t block (lower_bound block.pairs k) (from k all)
    pub sorted : IsSorted block.pairs
    pub same : lookup all k ≡ lookup block.pairs k

  Reached-Sought :
      (t : Tree V) (h : ℕ) (s : Shape V h) (fuel k i : ℕ)
      → IsLinked t.blocks 0 (leaves V h s)
      → find_data fuel t k ≡ some (some i)
      → Reached V t.blocks h s k i
      → Sought t fuel k (contents V h s)
  Reached-Sought t h s fuel k i l f r =
      let b =
        IsLinked-Between t.blocks 0 r.before i r.pairs r.after
          (subst (IsLinked t.blocks 0) r.whole l) in
      let parts =
        contents-leaves V h s
        ∙ ap (concat_map (λ l. l.1)) r.whole
        ∙ concat_map-append (λ l. l.1) r.before ((i, r.pairs) ∷ r.after) in
      let behind = concat_map (λ l. l.1) r.after in
      record {
        index = i;
        block = record { prev_index = b.prev; next_index = head_index r.after; pairs = r.pairs };
        found = f;
        got = rw (b.here) refl;
        at = record {
          index = i;
          ahead = r.after;
          next = refl;
          linked = b.behind;
          inside =
              subst (λ p. p ≤ length r.pairs) (sym (lower_bound-rank r.pairs k r.ordered))
                (rank-le r.pairs k);
          whole =
              ap (from k) parts
              ∙ from-between (concat_map (λ l. l.1) r.before) r.pairs behind k r.low r.high
              ∙ ap (λ p. drop p r.pairs ++ behind) (sym (lower_bound-rank r.pairs k r.ordered));
        };
        sorted = r.ordered;
        same =
            ap (λ l. lookup l k) parts
            ∙ lookup-between (concat_map (λ l. l.1) r.before) r.pairs behind k r.low r.high;
      }

  find_data_leaf :
      (t : Tree V) (fuel k : ℕ)
      → t.begin_block_index ≢ 0
      → is_data (get_elem? t.blocks t.begin_block_index) ≡ some true
      → find_data fuel t k ≡ some (some t.begin_block_index)
  unfolding find_data
  find_data_leaf t fuel k n e =
      let no : (t.begin_block_index == 0) ≡ false = ground (arith, n) in rw (no, e) refl

  find_data_below :
      (t : Tree V) (fuel k i : ℕ)
      → t.begin_block_index ≢ 0
      → is_data (get_elem? t.blocks t.begin_block_index) ≡ some false
      → find_data_loop fuel t k t.begin_block_index ≡ some i
      → find_data fuel t k ≡ some (some i)
  unfolding find_data
  find_data_below t fuel k i n e l =
      let no : (t.begin_block_index == 0) ≡ false = ground (arith, n) in rw (no, e, l) refl

  IsTree-Sought :
      (t : Tree V) (h : ℕ) (s : Shape V h) (fuel k : ℕ)
      → IsTree t h s
      → h ≤ fuel
      → Sought t fuel k (contents V h s)
  IsTree-Sought t zero s fuel k it f =
      let on =
        ap (λ i. is_data (get_elem? t.blocks i)) it.at_root
        ∙ is_data-leaf (get_elem? t.blocks s.0) it.stored in
      Reached-Sought t zero s fuel k s.0 it.linked
        (find_data_leaf t fuel k it.in_use on ∙ ap (λ i. some (some i)) it.at_root)
        (leaf-Reached V t.blocks s k it.stored it.ordered)
  IsTree-Sought t (suc h) s fuel k it f =
      let r = find_data_loop-Reached V t h s k fuel it.stored it.ordered (omega arith) in
      let on =
        ap (λ i. is_data (get_elem? t.blocks i)) it.at_root
        ∙ is_data-index (get_elem? t.blocks s.0) it.stored.0 in
      Reached-Sought t (suc h) s fuel k r.0 it.linked
        (find_data_below t fuel k r.0 it.in_use on (ap (find_data_loop fuel t k) it.at_root ∙ r.1))
        r.2

  -- An empty tree, or the place where a search starts.
  pub HoldsPairs-Sought :
      (t : Tree V) (fuel k : ℕ) (all : List (ℕ × V))
      → HoldsPairs fuel t all
      → ((find_data fuel t k ≡ some none) × (all ≡ [])) ⊎ Sought t fuel k all
  unfolding find_data
  HoldsPairs-Sought t fuel k all (inl e) = inl (ground arith, e.1)
  HoldsPairs-Sought t fuel k all (inr (h, s, it, f, e)) =
      inr (subst (Sought t fuel k) (sym e) (IsTree-Sought t h s fuel k it f))
