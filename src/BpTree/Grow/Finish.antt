-- ===== src/BpTree/Grow/Finish.antt =====
-- Base/BPTree_impls/BPTree.hpp: an index block that was written with the children after an insertion,
-- alone or in two halves.
use mathlib.Core.Path.{subst}
use mathlib.Core.List.{append-nil}
use tiny_backend.Prelude.{
  ℕ, suc, ◌≤◌, ◌<◌, ◌≡◌, ◌≢◌, refl, sym, ap, ◌∙◌, inl, inr, true, false, none, some, List, [], ◌∷◌,
  ◌++◌, map, length, take, drop, take-append-drop, get_elem?, ◌==◌, Bool-cases, arith,
}
use tiny_backend.BpTree.{Block}
use tiny_backend.BpTree.Pairs.{first_key}
use tiny_backend.BpTree.Bound.{IsSorted}
use tiny_backend.BpTree.Store.{Tree, as_index}
use tiny_backend.BpTree.Sorted.{IsSorted-left, IsSorted-right}
use tiny_backend.BpTree.Shape.{concat_map, All, Shape, contents, leaves, entry}
use tiny_backend.BpTree.Reach.{concat_map-append}
use tiny_backend.BpTree.Rows.{IsRow, IsRow-frame, get_inside}
use tiny_backend.BpTree.Nodes.{
  inside, inside-append, Distinct, Distinct-append, Distinct-left, Distinct-right, Distinct-Apart,
  inodes, IsNodes, IsNodes-frame_all, IsNodes-lt_all, Keeps, index_inside,
}
use tiny_backend.BpTree.Grow.Made.{Row, Good, Grown}
use tiny_backend.BpTree.Grow.Child.{All-left, All-right, Regrown}
use tiny_backend.BpTree.Grow.Leaf.{index_other, none-some}

apart_self :
    (i j : ℕ) (xs : List ℕ) → inside i xs ≡ false → inside j xs ≡ true → inside j (i ∷ []) ≡ false
apart_self i j xs n y = elim (Bool-cases (i == j)) [
  | inl e ↦
      let same : i ≡ j = ground arith in absurd (ground (arith, ap (λ i. inside i xs) same, n, y))
  | inr e ↦ rw e refl
]

two_apart :
    (i n j : ℕ) (xs ys : List ℕ)
    → Distinct (i ∷ (xs ++ ys))
    → inside n (xs ++ ys) ≡ false
    → i ≢ n
    → inside j (i ∷ xs) ≡ true
    → inside j (n ∷ ys) ≡ false
two_apart i n j xs ys d f ne h = elim (Bool-cases (n == j)) [
  | inl e ↦
      let same : n ≡ j = ground arith in
      absurd (ground (arith, ap (λ n. inside n (xs ++ ys)) same, inside-append j xs ys, f, h, same))
  | inr e ↦ ground (arith, Distinct-Apart (i ∷ xs) ys d j h, e)
]

-- A new number before the second part.
two_Distinct :
    (i n : ℕ) (xs ys : List ℕ)
    → Distinct (i ∷ (xs ++ ys))
    → inside n (xs ++ ys) ≡ false
    → i ≢ n
    → Distinct ((i ∷ xs) ++ ((n ∷ ys) ++ []))
two_Distinct i n xs ys d f ne =
    subst (λ l. Distinct ((i ∷ xs) ++ l)) (sym (append-nil (n ∷ ys)))
      (Distinct-append (i ∷ xs) (n ∷ ys) (Distinct-left (i ∷ xs) ys d)
        (ground (arith, inside-append n xs ys, f), Distinct-right (i ∷ xs) ys d)
        (λ j h. two_apart i n j xs ys d f ne h))

module _ {ℓ} (V : Type ℓ) where
  -- Only the block `i` was written, and blocks were put behind the others.
  pub record Rewritten (bs bs' : List (Block V)) (i : ℕ) : Type ℓ where
    pub others : (j : ℕ) → j ≢ i → j < length bs → get_elem? bs' j ≡ get_elem? bs j
    pub grows : length bs ≤ length bs'

  -- What is known of the insertion below when the block itself is written.
  pub record Written (t t1 t2 : Tree V) (before after : Row V) (h : ℕ) (s : Shape V (suc h)) (k : ℕ)
      (v : V) (cs : List (ℕ × Shape V h)) : Type ℓ where
    pub regrown : Regrown V t t1 before after h s k v cs
    pub was : List (ℕ × ℕ)
    pub was_index : as_index (get_elem? t1.blocks s.0) ≡ some was
    pub keeps : Keeps V t.blocks t1.blocks (concat_map (λ c. inodes V h c.1) s.1)
    pub grows : length t.blocks ≤ length t1.blocks
    pub rewritten : Rewritten t1.blocks t2.blocks s.0
    pub none_free : t2.deleted_blocks_size ≡ 0
    pub same_begin : t2.begin_block_index ≡ t.begin_block_index

  filled :
      (h : ℕ) (cs : List (ℕ × Shape V h)) (a : ℕ)
      → first_key (concat_map (λ c. contents V h c.1) cs) ≡ some a
      → cs ≢ []
  filled h cs a f e =
      none-some (sym (ap (λ l. first_key (concat_map (λ c. contents V h c.1) l)) e) ∙ f)

  module _ (t t1 t2 : Tree V) (before after : Row V) (h : ℕ) (s : Shape V (suc h)) (k : ℕ) (v : V)
      (cs : List (ℕ × Shape V h)) (w : Written t t1 t2 before after h s k v cs) where
    written_index :
        (j : ℕ) (es : List (ℕ × ℕ))
        → inside j (s.0 ∷ []) ≡ false
        → as_index (get_elem? t1.blocks j) ≡ some es
        → as_index (get_elem? t2.blocks j) ≡ some es
    written_index j es n e =
        ap as_index
          (w.rewritten.others j (λ q. absurd (ground (arith, q, n))) (index_inside V t1.blocks j e))
        ∙ e

    written_nodes : All (λ c. IsNodes V t2.blocks h c.1) cs
    written_nodes =
        IsNodes-frame_all V t1.blocks t2.blocks (s.0 ∷ []) h cs written_index
          (λ j i. apart_self s.0 j (concat_map (λ c. inodes V h c.1) cs) w.regrown.distinct.0 i)
          w.regrown.nodes

    written-IsRow : IsRow t2.blocks 0 0 (before ++ (concat_map (λ c. leaves V h c.1) cs ++ after))
    written-IsRow =
        IsRow-frame t1.blocks t2.blocks 0 0 _
          (λ j d _ e.
            w.rewritten.others j (λ q. index_other t1.blocks j s.0 d w.was e w.was_index (sym q))
              (get_inside t1.blocks j e)
            ∙ e)
          w.regrown.row

    written-Keeps : Keeps V t.blocks t2.blocks (inodes V (suc h) s)
    written-Keeps j es n e =
        written_index j es (ground (arith, n)) (w.keeps j es (ground (arith, n)) e)

    -- The block with all the children.
    pub Written-one :
        (a : ℕ)
        → as_index (get_elem? t2.blocks s.0) ≡ some (map (entry V h) cs)
        → first_key (contents V (suc h) (s.0, cs)) ≡ some a
        → Grown V t t2 before after (suc h) s k v none
    Written-one a e f = record {
      first = (a, (s.0, cs));
      off = none;
      up_is = refl;
      same_root = refl;
      nodes = ((e, written_nodes), tt);
      row =
          subst (λ l. IsRow t2.blocks 0 0 (before ++ (l ++ after)))
            (sym (append-nil (concat_map (λ c. leaves V h c.1) cs))) written-IsRow;
      good = (((w.regrown.sorted, filled h cs a f, w.regrown.good), f), tt);
      whole = append-nil (concat_map (λ c. contents V h c.1) cs) ∙ w.regrown.whole;
      distinct =
          subst Distinct (sym (append-nil (s.0 ∷ concat_map (λ c. inodes V h c.1) cs)))
            w.regrown.distinct;
      old_or_new = λ j i. ground (
        arith,
        ap (inside j) (append-nil (s.0 ∷ concat_map (λ c. inodes V h c.1) cs)),
        i,
        w.regrown.old_or_new j,
      );
      keeps = written-Keeps;
      none_free = w.none_free;
      same_begin = w.same_begin;
      grows = omega (arith, w.grows, w.rewritten.grows);
    }

    -- The block with the first `m` children, and a new one with the others.
    pub Written-two :
        (m a b : ℕ)
        → as_index (get_elem? t2.blocks s.0) ≡ some (map (entry V h) (take m cs))
        → as_index (get_elem? t2.blocks (length t1.blocks)) ≡ some (map (entry V h) (drop m cs))
        → first_key (contents V (suc h) (s.0, take m cs)) ≡ some a
        → first_key (contents V (suc h) (length t1.blocks, drop m cs)) ≡ some b
        → Grown V t t2 before after (suc h) s k v (some (length t1.blocks, b))
    Written-two m a b ea eb fa fb =
        let ls = take m cs in
        let rs = drop m cs in
        let N = length t1.blocks in
        let cut = take-append-drop m cs in
        let f = λ (c : ℕ × Shape V h). inodes V h c.1 in
        let g = λ (c : ℕ × Shape V h). contents V h c.1 in
        let o = λ (c : ℕ × Shape V h). leaves V h c.1 in
        let both : concat_map g ls ++ concat_map g rs ≡ concat_map g cs =
          sym (concat_map-append g ls rs) ∙ ap (concat_map g) cut in
        let leaf : concat_map o ls ++ concat_map o rs ≡ concat_map o cs =
          sym (concat_map-append o ls rs) ∙ ap (concat_map o) cut in
        let node : concat_map f ls ++ concat_map f rs ≡ concat_map f cs =
          sym (concat_map-append f ls rs) ∙ ap (concat_map f) cut in
        let nodes = subst (All (λ c. IsNodes V t2.blocks h c.1)) (sym cut) written_nodes in
        let good = subst (All (Good V h)) (sym cut) w.regrown.good in
        let sorted = subst IsSorted (sym both) w.regrown.sorted in
        record {
          first = (a, (s.0, ls));
          off = some (b, (N, rs));
          up_is = refl;
          same_root = refl;
          nodes = ((ea, All-left _ ls rs nodes), ((eb, All-right _ ls rs nodes), tt));
          row =
              subst (λ l. IsRow t2.blocks 0 0 (before ++ (l ++ after)))
                (sym (ap (λ l. concat_map o ls ++ l) (append-nil (concat_map o rs)) ∙ leaf))
                written-IsRow;
          good = (
            (
              (
                IsSorted-left (concat_map g ls) _ sorted,
                filled h ls a fa,
                All-left (Good V h) ls rs good,
              ),
              fa,
            ),
            (
              (
                (
                  IsSorted-right (concat_map g ls) _ sorted,
                  filled h rs b fb,
                  All-right (Good V h) ls rs good,
                ),
                fb,
              ),
              tt,
            ),
          );
          whole =
              ap (λ l. concat_map g ls ++ l) (append-nil (concat_map g rs))
              ∙ both
              ∙ w.regrown.whole;
          distinct =
              two_Distinct s.0 N (concat_map f ls) (concat_map f rs)
                (subst (λ l. Distinct (s.0 ∷ l)) (sym node) w.regrown.distinct)
                (elim (Bool-cases (inside N (concat_map f ls ++ concat_map f rs))) [
                  | inl q ↦ absurd (
                      omega (
                        arith,
                        IsNodes-lt_all V t1.blocks h cs w.regrown.nodes N
                            (sym (ap (inside N) node) ∙ q),
                      ))
                  | inr q ↦ q
                ])
                (λ q. absurd (omega (arith, index_inside V t1.blocks s.0 w.was_index, q)));
          old_or_new = λ j i. ground (
            arith,
            ap (inside j) (append-nil (N ∷ concat_map f rs)),
            inside-append j (s.0 ∷ concat_map f ls) ((N ∷ concat_map f rs) ++ []),
            inside-append j (concat_map f ls) (concat_map f rs),
            ap (inside j) node,
            i,
            w.regrown.old_or_new j,
            w.grows,
          );
          keeps = written-Keeps;
          none_free = w.none_free;
          same_begin = w.same_begin;
          grows = omega (arith, w.grows, w.rewritten.grows);
        }
