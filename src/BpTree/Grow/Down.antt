-- ===== src/BpTree/Grow/Down.antt =====
-- Base/BPTree_impls/BPTree.hpp: `insert_impl` of a key that the tree has not, down all levels.
use mathlib.Core.Path.{subst}
use tiny_backend.Prelude.{
  ℕ, zero, suc, ◌<◌, ◌≡◌, refl, sym, ◌∙◌, Option, none, ◌∷◌, ◌++◌, map, length, get_elem?, arith,
}
use tiny_backend.BpTree.{Layout, index_block}
use tiny_backend.BpTree.Store.{Tree, put}
use tiny_backend.BpTree.Insert.{Inserted, success, index_block_insert, insert_impl, take_in}
use tiny_backend.BpTree.Sorted.{lookup}
use tiny_backend.BpTree.Shape.{All, Shape, root, contents, entry}
use tiny_backend.BpTree.Reach.{is_data-index, All-middle, Picked-absent}
use tiny_backend.BpTree.Rows.{IsRow-right}
use tiny_backend.BpTree.Grow.Made.{Row, Context, Good, Inserts}
use tiny_backend.BpTree.Grow.Data.{data_block_insert-Inserts}
use tiny_backend.BpTree.Grow.Place.{Place, place}
use tiny_backend.BpTree.Grow.Child.{left, right, child-Context, Grown-Regrown}
use tiny_backend.BpTree.Grow.Node.{
  grown_key, same_entries, self_outside, Grown-Behind, take-Inserts,
}

module _ {ℓ} (V : Type ℓ) (l : Layout) (k : ℕ) (v : V) where
  index_block_insert-Inserts :
      (t : Tree V) (before after : Row V) (h : ℕ) (s : Shape V (suc h))
      (below : ℕ → Tree V → Option (Inserted V))
      → Context V t before after (suc h) s
      → lookup (contents V (suc h) s) k ≡ none
      → (q : Place V h s k)
      → Inserts V
          (below (root V h q.picked.child.1) t)
          t
          (left V t before after h s k q.picked)
          (right V t before after h s k q.picked)
          h
          q.picked.child.1
          k
          v
      → Inserts V (index_block_insert l below k s.0 t) t before after (suc h) s k v
  unfolding index_block_insert
  index_block_insert-Inserts t before after h s below c n q i =
      let p = q.picked in
      let g = i.grown in
      let good =
        All-middle (Good V h) p.before p.after (subst (All (Good V h)) p.whole c.ordered.2) in
      let key = grown_key V h p.child.1 p.child.0 k v g.first g.off good.1 g.good g.whole in
      let b = Grown-Behind V t i.t' before after h s k v i.up c p g in
      let here = g.keeps s.0 _ (self_outside V t before after h s k c p) c.nodes.0 in
      let es = map (entry V h) (p.before ++ g.first ∷ p.after) in
      let renewed =
        q.renewed ∙ same_entries V h p.before _ p.child.1 g.first p.after key g.same_root in
      let run : index_block_insert l below k s.0 t
          ≡ take_in l s.0 es (length p.before) (success, i.up, put i.t' s.0 (index_block es)) =
        rw (c.nodes.0, q.first_is, q.absent, q.pos, q.pointer, i.ran, here, renewed) refl in
      subst (λ r. Inserts V r t before after (suc h) s k v) (sym run)
        (take-Inserts V l t i.t' before after h s k v i.up p.before g.first g.off p.after b g.up_is
          (Grown-Regrown V t i.t' before after h s k v i.up p c n g))

  -- The insertion does not fail, and leaves the block and the one that is split off it with the pairs
  -- of the block and the new one, the row of the data blocks linked, and all else as it was.
  pub insert_impl-Inserts :
      (fuel : ℕ) (t : Tree V) (before after : Row V) (h : ℕ) (s : Shape V h)
      → Context V t before after h s
      → lookup (contents V h s) k ≡ none
      → h < fuel
      → Inserts V (insert_impl fuel l k v (root V h s) t) t before after h s k v
  unfolding insert_impl
  insert_impl-Inserts zero t before after h s c n f = absurd (omega arith)
  insert_impl-Inserts (suc fuel) t before after zero (i, ps) c n f =
      let at = IsRow-right t.blocks 0 0 before ((i, ps) ∷ after) c.row in
      subst (λ r. Inserts V r t before after 0 (i, ps) k v) (sym (rw at.0 refl))
        (data_block_insert-Inserts l t before after i ps k v c n)
  insert_impl-Inserts (suc fuel) t before after (suc h) s c n f =
      let q = place V h s k c.ordered n in
      let below =
        insert_impl-Inserts fuel t (left V t before after h s k q.picked)
          (right V t before after h s k q.picked) h q.picked.child.1
          (child-Context V t before after h s k q.picked c) (Picked-absent V h s k q.picked n)
          (omega arith) in
      subst (λ r. Inserts V r t before after (suc h) s k v)
        (sym (rw (is_data-index (get_elem? t.blocks s.0) c.nodes.0) refl))
        (index_block_insert-Inserts t before after h s (insert_impl fuel l k v) c n q below)
