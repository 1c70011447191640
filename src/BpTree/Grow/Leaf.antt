-- ===== src/BpTree/Grow/Leaf.antt =====
-- Base/BPTree_impls/BPTree.hpp: `data_block_insert` of a key that the tree has not.
use mathlib.Core.Path.{subst}
use mathlib.Core.List.{append-nil}
use tiny_backend.Prelude.{
  ℕ, suc, ◌+◌, ◌/◌, ◌≤◌, ◌<◌, ◌≡◌, ◌≢◌, refl, sym, ap, ◌∙◌, inl, inr, Bool, false, not, ◌&&◌, none,
  some, List, [], ◌∷◌, ◌++◌, length, take, drop, length-take, length-drop, take-append-drop,
  get_elem?, set, length-set, get_elem?-set_ne, ltb, ltb→lt, ◌==◌, if◌then◌else◌, Bool-cases, arith,
}
use tiny_backend.BpTree.{Block, DataBlock, data_block}
use tiny_backend.BpTree.Pairs.{first_key, key_at, insert, lower_bound, split}
use tiny_backend.BpTree.Bound.{IsSorted, rank, rank-le, rank_step, lower_bound-rank}
use tiny_backend.BpTree.Store.{Tree, as_index}
use tiny_backend.BpTree.Sorted.{lookup}
use tiny_backend.BpTree.Halves.{split_at-halves, length-insert, split-at}
use tiny_backend.BpTree.Rows.{
  true-false, head_or, last_or, block, IsRow-right, IsRow-update, IsRow-Once, nonempty-first_key,
}
use tiny_backend.BpTree.Grow.{
  ins, insert-ins, ins-IsSorted, first_key-ins, IsSorted-take, IsSorted-drop,
}
use tiny_backend.BpTree.Grow.Made.{Row, Context, Grown}

pub none-some {κ} : {X : Type κ} {y : X} → none ≡ some y → ⊥
none-some e = ground arith

module _ {ℓ} {A : Type ℓ} where
  -- The test for a key that the pairs have.
  abbrev pub has_key : List (ℕ × A) → (k pos : ℕ) → Bool
  has_key ps k pos = not (pos == length ps) && key_at ps pos == k

  has_key-suc :
      (x : ℕ × A) (ps : List (ℕ × A)) (k pos : ℕ) → has_key (x ∷ ps) k (suc pos) ≡ has_key ps k pos
  has_key-suc x ps k pos = ground arith

  pub has_key-none :
      (ps : List (ℕ × A)) (k : ℕ) → lookup ps k ≡ none → has_key ps k (rank ps k) ≡ false
  has_key-none [] k n = refl
  has_key-none (x ∷ ps) k n = elim (Bool-cases (ltb x.0 k)) [
    | inl l ↦
        ap (has_key (x ∷ ps) k) (rank_step x ps k (ltb→lt x.0 k l))
        ∙ has_key-suc x ps k (rank ps k)
        ∙ has_key-none ps k (ground arith)
    | inr l ↦
        let start : rank (x ∷ ps) k ≡ 0 = rw l refl in
        let other : (x.0 == k) ≡ false = ground arith in
        ap (has_key (x ∷ ps) k) start ∙ ground arith
  ]

  -- The halves of a block after a split.
  pub split-ins :
      (ps : List (ℕ × A)) (k : ℕ) (a : A)
      → IsSorted ps
      → let half = (length ps + 1) / 2 in
        split ps k a ≡ (take half (ins ps k a), drop half (ins ps k a))
  split-ins ps k a s =
      split-at ps k a
      ∙ split_at-halves ps (lower_bound ps k) k a
          (subst (λ p. p ≤ length ps) (sym (lower_bound-rank ps k s)) (rank-le ps k))
      ∙ ap (λ qs. (take ((length ps + 1) / 2) qs, drop ((length ps + 1) / 2) qs))
          (ap (λ p. insert ps p k a) (lower_bound-rank ps k s) ∙ insert-ins ps k a)

  pub length-ins : (ps : List (ℕ × A)) (k : ℕ) (a : A) → length (ins ps k a) ≡ suc (length ps)
  length-ins ps k a =
      ap length (sym (insert-ins ps k a)) ∙ length-insert ps (rank ps k) k a (rank-le ps k)

  -- Both halves have pairs.
  pub record Halves (ps ls rs : List (ℕ × A)) (k : ℕ) (a : A) : Type ℓ where
    pub both : ls ++ rs ≡ ins ps k a
    pub sorted_left : IsSorted ls
    pub sorted_right : IsSorted rs
    pub some_left : ls ≢ []
    pub some_right : rs ≢ []

  nonempty_length : (xs : List (ℕ × A)) → xs ≢ [] → 0 < length xs
  nonempty_length [] n = absurd (n refl)
  nonempty_length (x ∷ xs) n = omega arith

  not_nil : (xs : List (ℕ × A)) → 0 < length xs → xs ≢ []
  not_nil xs h e = absurd (omega (arith, h, ap length e))

  pub split-Halves :
      (ps : List (ℕ × A)) (k : ℕ) (a : A)
      → IsSorted ps
      → ps ≢ []
      → lookup ps k ≡ none
      → Halves ps (split ps k a).0 (split ps k a).1 k a
  split-Halves ps k a s n e =
      let half : ℕ = (length ps + 1) / 2 in
      let qs = ins ps k a in
      let q = split-ins ps k a s in
      let size = length-ins ps k a in
      let some_pair : 0 < length ps = nonempty_length ps n in
      let sorted = ins-IsSorted ps k a s e in
      record {
        both = ap (λ p. p.0 ++ p.1) q ∙ take-append-drop half qs;
        sorted_left = subst (λ p. IsSorted p.0) (sym q) (IsSorted-take half qs sorted);
        sorted_right = subst (λ p. IsSorted p.1) (sym q) (IsSorted-drop half qs sorted);
        some_left =
            not_nil _ (omega (arith, ap (λ p. length p.0) q, length-take half qs, size, some_pair));
        some_right =
            not_nil _ (omega (arith, ap (λ p. length p.1) q, length-drop half qs, size, some_pair));
      }

module _ {ℓ} {V : Type ℓ} where
  pub index_other :
      (bs : List (Block V)) (i j : ℕ) (d : DataBlock V) (es : List (ℕ × ℕ))
      → get_elem? bs i ≡ some (data_block d)
      → as_index (get_elem? bs j) ≡ some es
      → j ≢ i
  index_other bs i j d es e f q =
      absurd (none-some (sym (ap (λ j. as_index (get_elem? bs j)) q ∙ ap as_index e) ∙ f))

  pub roomy-Grown :
      (t : Tree V) (before after : Row V) (i : ℕ) (ps qs : List (ℕ × V)) (k : ℕ) (v : V)
      → Context V t before after 0 (i, ps)
      → lookup ps k ≡ none
      → qs ≡ ins ps k v
      → Grown V t
          (record t { blocks = set t.blocks i (block (last_or 0 before) (head_or 0 after) qs) })
          before
          after
          0
          (i, ps)
          k
          v
          none
  roomy-Grown t before after i ps qs k v c n q =
      let (m, f) = nonempty-first_key ps c.ordered.1 in
      let b = block (last_or 0 before) (head_or 0 after) qs in
      let at = IsRow-right t.blocks 0 0 before ((i, ps) ∷ after) c.row in
      let key = ap first_key q ∙ first_key-ins ps k m v f in
      let filled : qs ≢ [] = λ e. absurd (none-some (sym (ap first_key e) ∙ key)) in
      record {
        first = ((if ltb k m then k else m), (i, qs));
        off = none;
        up_is = refl;
        same_root = refl;
        nodes = (tt, tt);
        row =
            IsRow-update t.blocks 0 0 i ps qs before after c.row
              (IsRow-Once t.blocks 0 0 i ps before after c.row c.sorted) filled;
        good = (((subst IsSorted (sym q) (ins-IsSorted ps k v c.ordered.0 n), filled), key), tt);
        whole = append-nil qs ∙ q;
        distinct = tt;
        old_or_new = λ j h. absurd (true-false (sym h));
        keeps = λ j es h e.
            ap as_index
              (get_elem?-set_ne t.blocks b (λ w. index_other t.blocks i j _ es at.0 e (sym w)))
            ∙ e;
        none_free = c.none_free;
        same_begin = refl;
        grows = omega (arith, length-set t.blocks i b);
      }
