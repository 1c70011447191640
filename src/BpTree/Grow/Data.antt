-- ===== src/BpTree/Grow/Data.antt =====
-- Base/BPTree_impls/BPTree.hpp: `data_block_insert` with a split, and as a whole.
use mathlib.Core.List.{append-nil}
use tiny_backend.Prelude.{
  ℕ, ◌≡◌, ◌≢◌, refl, sym, ap, ◌∙◌, inl, inr, none, some, List, [], ◌∷◌, ◌++◌, length, get_elem?,
  Bool-cases, arith,
}
use tiny_backend.BpTree.{Block, Layout}
use tiny_backend.BpTree.Pairs.{first_key, insert, lower_bound, split}
use tiny_backend.BpTree.Bound.{lower_bound-rank}
use tiny_backend.BpTree.Store.{Tree, as_index}
use tiny_backend.BpTree.Insert.{can_insert_data, data_block_insert}
use tiny_backend.BpTree.Free.{create_data_block}
use tiny_backend.BpTree.Sorted.{lookup}
use tiny_backend.BpTree.Rows.{
  true-false, last_or, IsRow, IsRow-right, IsRow-Once, nonempty-first_key,
}
use tiny_backend.BpTree.Parted.{NotHead, Parted-IsRow}
use tiny_backend.BpTree.Written.{get_past, Splits, split_data-Splits}
use tiny_backend.BpTree.Grow.{insert-ins}
use tiny_backend.BpTree.Grow.Made.{Row, Context, Grown, Inserts}
use tiny_backend.BpTree.Grow.Leaf.{
  has_key, has_key-none, split-Halves, index_other, roomy-Grown, none-some,
}

module _ {ℓ} {V : Type ℓ} where
  head_index_other :
      (bs : List (Block V)) (i n j : ℕ) (es : List (ℕ × ℕ)) (after : List (ℕ × List (ℕ × V)))
      → IsRow bs i n after
      → as_index (get_elem? bs j) ≡ some es
      → NotHead j after
  head_index_other bs i n j es [] r e = tt
  head_index_other bs i n j es (l ∷ after) r e = index_other bs l.0 j _ es r.0 e

  inside_index :
      (bs : List (Block V)) (j : ℕ) {es : List (ℕ × ℕ)}
      → as_index (get_elem? bs j) ≡ some es
      → j ≢ length bs
  inside_index bs j e q = none-some (sym (ap as_index (get_past bs j (omega (arith, q)))) ∙ e)

  parted-Grown :
      (t : Tree V) (before after : Row V) (i : ℕ) (ps : List (ℕ × V)) (k : ℕ) (v : V) (a b : ℕ)
      → Context V t before after 0 (i, ps)
      → lookup ps k ≡ none
      → (x : Splits t (last_or 0 before) i ps k v after) → first_key (split ps k v).0 ≡ some a
      → first_key (split ps k v).1 ≡ some b
      → Grown V t x.t' before after 0 (i, ps) k v (some (length t.blocks, b))
  parted-Grown t before after i ps k v a b c n x fa fb =
      let (ls, rs) = split ps k v in
      let h = split-Halves ps k v c.ordered.0 c.ordered.1 n in
      let at = IsRow-right t.blocks 0 0 before ((i, ps) ∷ after) c.row in
      record {
        first = (a, (i, ls));
        off = some (b, (length t.blocks, rs));
        up_is = refl;
        same_root = refl;
        nodes = (tt, (tt, tt));
        row =
            Parted-IsRow t.blocks x.t'.blocks 0 i (length t.blocks) ps ls rs before after x.parted
              c.row c.sorted (λ e. absurd (omega (arith, e, c.positive))) h.some_left h.some_right;
        good = (((h.sorted_left, h.some_left), fa), (((h.sorted_right, h.some_right), fb), tt));
        whole = ap (λ l. ls ++ l) (append-nil rs) ∙ h.both;
        distinct = tt;
        old_or_new = λ j h. absurd (true-false (sym h));
        keeps = λ j es h e.
            ap as_index (
              x.parted.others j (index_other t.blocks i j _ es at.0 e) (inside_index t.blocks j e)
                (head_index_other t.blocks i 0 j es after at.3 e))
            ∙ e;
        none_free = x.none_free;
        same_begin = x.same_begin;
        grows = omega (arith, x.size);
      }

  -- The insertion of a new key into a data block does not fail, and leaves the block and the one that
  -- is split off it with the pairs of the block and the new one.
  pub data_block_insert-Inserts :
      (l : Layout) (t : Tree V) (before after : Row V) (i : ℕ) (ps : List (ℕ × V)) (k : ℕ) (v : V)
      → Context V t before after 0 (i, ps)
      → lookup ps k ≡ none
      → Inserts V (data_block_insert l k v i t) t before after 0 (i, ps) k v
  unfolding data_block_insert create_data_block
  data_block_insert-Inserts l t before after i ps k v c n =
      let at = IsRow-right t.blocks 0 0 before ((i, ps) ∷ after) c.row in
      let bound = lower_bound-rank ps k c.ordered.0 in
      let absent = ap (has_key ps k) bound ∙ has_key-none ps k n in
      elim (Bool-cases (can_insert_data l (length ps))) [
        | inl r ↦ record {
          up = none;
          t' = _;
          ran = rw (at.0, absent, r) refl;
          grown =
              roomy-Grown t before after i ps (insert ps (lower_bound ps k) k v) k v c n
                (ap (λ p. insert ps p k v) bound ∙ insert-ins ps k v);
        }
        | inr r ↦
            let o = IsRow-Once t.blocks 0 0 i ps before after c.row c.sorted in
            let x =
              split_data-Splits t (last_or 0 before) i ps k v after c.none_free at.0 o.not_after
                at.3 in
            let h = split-Halves ps k v c.ordered.0 c.ordered.1 n in
            let (a, fa) = nonempty-first_key (split ps k v).0 h.some_left in
            let (b, fb) = nonempty-first_key (split ps k v).1 h.some_right in
            record {
              up = some (length t.blocks, b);
              t' = x.t';
              ran = rw (at.0, absent, r, x.created, x.ran, x.parted.right, fb) refl;
              grown = parted-Grown t before after i ps k v a b c n x fa fb;
            }
      ]
