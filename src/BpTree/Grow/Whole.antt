-- ===== src/BpTree/Grow/Whole.antt =====
-- Base/BPTree_impls/BPTree.hpp: `insert` of a key that the tree has not, as a whole.
use mathlib.Core.Path.{subst}
use mathlib.Core.List.{append-nil}
use tiny_backend.Prelude.{
  ℕ, suc, ◌≤◌, ◌<◌, ◌≡◌, ◌≢◌, refl, sym, ap, ◌∙◌, inl, inr, true, false, Option, none, some, List,
  [], ◌∷◌, ◌++◌, map, length, length-append, length-set, set, get_elem?-set_self, ◌==◌,
  Option-cases, arith,
}
use tiny_backend.BpTree.{Block, Layout, data_block, index_block}
use tiny_backend.BpTree.Bound.{IsSorted}
use tiny_backend.BpTree.Store.{Tree, empty_data}
use tiny_backend.BpTree.Free.{create_index_block, create_data_block}
use tiny_backend.BpTree.Insert.{
  State, IterKey, success, can_insert_data, can_insert_index, insert_impl, root_key, new_root,
  insert_pair,
}
use tiny_backend.BpTree.Sorted.{lookup}
use tiny_backend.BpTree.Shape.{concat_map, All, Shape, root, contents, leaves, entry}
use tiny_backend.BpTree.Rows.{IsRow}
use tiny_backend.BpTree.Written.{create-fresh}
use tiny_backend.BpTree.Nodes.{Distinct, inodes, IsNodes}
use tiny_backend.BpTree.Grow.{ins, ins-IsSorted}
use tiny_backend.BpTree.Grow.Made.{Context, Good, Grown, link, made}
use tiny_backend.BpTree.Grow.Root.{
  Built, IsOrdered-IsSorted, same_root-Context, root_key-appended, with_root, with_root-Context,
}
use tiny_backend.BpTree.Grow.Down.{insert_impl-Inserts}

module _ {ℓ} (V : Type ℓ) where
  -- A run of an insertion that ends well.
  pub record InsertedInto (run : Option (State × Tree V)) (n : ℕ) (all : List (ℕ × V))
      : Type ℓ where
    pub t' : Tree V
    pub ran : run ≡ some (success, t')
    pub built : Built V n t' all

  -- Both blocks of a split root stand below a new one.
  split_root-Built :
      (l : Layout) (t t1 : Tree V) (n h : ℕ) (s : Shape V h) (k : ℕ) (v : V) (c d : ℕ × Shape V h)
      → t1.deleted_blocks_size ≡ 0
      → t1.begin_block_index ≡ root V h c.1
      → 0 < length t1.blocks
      → h ≤ n
      → can_insert_index l 0 ≡ true
      → can_insert_index l 1 ≡ true
      → IsSorted (ins (contents V h s) k v)
      → All (λ c. IsNodes V t1.blocks h c.1) (c ∷ d ∷ [])
      → IsRow t1.blocks 0 0 (concat_map (λ c. leaves V h c.1) (c ∷ d ∷ []) ++ [])
      → All (Good V h) (c ∷ d ∷ [])
      → concat_map (λ c. contents V h c.1) (c ∷ d ∷ []) ≡ ins (contents V h s) k v
      → Distinct (concat_map (λ c. inodes V h c.1) (c ∷ d ∷ []))
      → InsertedInto
          (new_root l (success, some (root V h d.1, d.0), t1))
          (suc n)
          (ins (contents V h s) k v)
  unfolding new_root create_index_block
  split_root-Built l t t1 n h s k v c d f b pos le i0 i1 o nodes row good whole distinct =
      let cs = c ∷ d ∷ [] in
      let es = map (entry V h) cs in
      let t2 = record t1 {
        valid_blocks_size = suc t1.valid_blocks_size;
        blocks = t1.blocks ++ (index_block [] ∷ []);
      } in
      let t3 = record t2 {
        blocks = with_root V t1.blocks es;
        begin_block_index = length t1.blocks;
      } in
      let key = ap (root_key t2) b ∙ root_key-appended V t1 h c (d ∷ []) nodes.0 row good.0 in
      record {
        t' = t3;
        ran =
            rw (create-fresh (index_block []) t1 f, i0, key, i1)
              (ap
                (λ i. some (
                  success,
                  record t2 {
                    blocks = with_root V t1.blocks ((c.0, i) ∷ (d.0, root V h d.1) ∷ []);
                    begin_block_index = length t1.blocks;
                  },
                ))
                b);
        built = record {
          none_free = f;
          positive = omega (
            arith,
            length-set (t1.blocks ++ (index_block [] ∷ [])) (length t1.blocks) (index_block es),
            length-append t1.blocks (index_block [] ∷ []),
          );
          tree = inr (
            suc h,
            (length t1.blocks, cs),
            with_root-Context V t1 t3 h cs refl f nodes row good
                (λ e. absurd (omega (arith, ap length e))) (subst IsSorted (sym whole) o) distinct,
            refl,
            (λ e. absurd (omega (arith, e, pos))),
            omega arith,
            sym whole,
          );
        };
      }

  new_root-Built :
      (l : Layout) (t t1 : Tree V) (n h : ℕ) (s : Shape V h) (k : ℕ) (v : V) (up : IterKey)
      → Context V t [] [] h s
      → lookup (contents V h s) k ≡ none
      → t.begin_block_index ≡ root V h s
      → t.begin_block_index ≢ 0
      → h ≤ n
      → can_insert_index l 0 ≡ true
      → can_insert_index l 1 ≡ true
      → Grown V t t1 [] [] h s k v up
      → InsertedInto (new_root l (success, up, t1)) (suc n) (ins (contents V h s) k v)
  unfolding new_root
  new_root-Built l t t1 n h s k v up c a b z le i0 i1 g = elim (Option-cases g.off) [
    | inl e ↦
        let first = g.first in
        let whole =
          sym (append-nil (contents V h first.1))
          ∙ subst
              (λ o.
                concat_map (λ c. contents V h c.1) (made V h first o) ≡ ins (contents V h s) k v)
              e g.whole in
        record {
          t' = t1;
          ran = ap (λ u. new_root l (success, u, t1)) (g.up_is ∙ ap (link V h) e);
          built = record {
            none_free = g.none_free;
            positive = omega (arith, c.positive, g.grows);
            tree = inr (
              h,
              first.1,
              same_root-Context V t t1 h s k v first c
                  (subst (λ o. All (λ c. IsNodes V t1.blocks h c.1) (made V h first o)) e g.nodes)
                  (subst
                    (λ o.
                      IsRow t1.blocks 0 0
                        (concat_map (λ c. leaves V h c.1) (made V h first o) ++ []))
                    e g.row)
                  (subst (λ o. All (Good V h) (made V h first o)) e g.good)
                  (subst (λ o. Distinct (concat_map (λ c. inodes V h c.1) (made V h first o))) e
                    g.distinct)
                  g.none_free g.grows,
              g.same_begin ∙ b ∙ sym g.same_root,
              (λ q. z (sym g.same_begin ∙ q)),
              omega arith,
              sym whole,
            );
          };
        }
    | inr (d, e) ↦
        let first = g.first in
        subst (λ u. InsertedInto (new_root l (success, u, t1)) (suc n) (ins (contents V h s) k v))
          (sym (g.up_is ∙ ap (link V h) e))
          (split_root-Built l t t1 n h s k v first d g.none_free
            (g.same_begin ∙ b ∙ sym g.same_root) (omega (arith, c.positive, g.grows)) le i0 i1
            (ins-IsSorted (contents V h s) k v (IsOrdered-IsSorted V h s c.ordered) a)
            (subst (λ o. All (λ c. IsNodes V t1.blocks h c.1) (made V h first o)) e g.nodes)
            (subst
              (λ o. IsRow t1.blocks 0 0 (concat_map (λ c. leaves V h c.1) (made V h first o) ++ []))
              e g.row)
            (subst (λ o. All (Good V h) (made V h first o)) e g.good)
            (subst
              (λ o.
                concat_map (λ c. contents V h c.1) (made V h first o) ≡ ins (contents V h s) k v)
              e g.whole)
            (subst (λ o. Distinct (concat_map (λ c. inodes V h c.1) (made V h first o))) e
              g.distinct))
  ]

  insert_first-Built :
      (l : Layout) (t : Tree V) (n : ℕ) (fuel k : ℕ) (v : V)
      → t.deleted_blocks_size ≡ 0
      → 0 < length t.blocks
      → t.begin_block_index ≡ 0
      → can_insert_data l 0 ≡ true
      → InsertedInto (insert_pair fuel l t k v) n ((k, v) ∷ [])
  unfolding insert_pair create_data_block
  insert_first-Built l t n fuel k v f pos b d0 =
      let e : Block V = data_block empty_data in
      let d : Block V = data_block (record empty_data { pairs = (k, v) ∷ [] }) in
      let size = length-append t.blocks (e ∷ []) in
      let t2 = record t {
        valid_blocks_size = suc t.valid_blocks_size;
        blocks = set (t.blocks ++ (e ∷ [])) (length t.blocks) d;
        begin_block_index = length t.blocks;
      } in
      let out : (t.begin_block_index == 0) ≡ true = ground arith in
      record {
        t' = t2;
        ran = rw (out, create-fresh e t f, d0) refl;
        built = record {
          none_free = f;
          positive = omega (arith, size, length-set (t.blocks ++ (e ∷ [])) (length t.blocks) d);
          tree = inr (
            0,
            (length t.blocks, (k, v) ∷ []),
            record {
              none_free = f;
              positive = omega (arith, size, length-set (t.blocks ++ (e ∷ [])) (length t.blocks) d);
              nodes = tt;
              row = (
                get_elem?-set_self (t.blocks ++ (e ∷ [])) (length t.blocks) d (omega (arith, size)),
                (λ q. absurd (omega (arith, q, pos))),
                (λ q. absurd (omega (arith, ap length q))),
                tt,
              );
              sorted = (tt, tt);
              ordered = ((tt, tt), (λ q. absurd (omega (arith, ap length q))));
              distinct = tt;
            },
            refl,
            (λ q. absurd (omega (arith, q, pos))),
            omega arith,
            refl,
          );
        };
      }

  pub insert_pair-Built :
      (l : Layout) (t : Tree V) (n : ℕ) (all : List (ℕ × V)) (k : ℕ) (v : V)
      → Built V n t all
      → lookup all k ≡ none
      → can_insert_data l 0 ≡ true
      → can_insert_index l 0 ≡ true
      → can_insert_index l 1 ≡ true
      → InsertedInto (insert_pair (suc n) l t k v) (suc n) (ins all k v)
  unfolding insert_pair
  insert_pair-Built l t n all k v b a d0 i0 i1 = elim b.tree [
    | inl (z, e) ↦
        subst (λ all. InsertedInto (insert_pair (suc n) l t k v) (suc n) (ins all k v)) (sym e)
          (insert_first-Built l t (suc n) (suc n) k v b.none_free b.positive z d0)
    | inr (h, s, c, at, ne, le, e) ↦
        let a' = ap (λ all. lookup all k) (sym e) ∙ a in
        let i = insert_impl-Inserts V l k v (suc n) t [] [] h s c a' (omega arith) in
        let r = new_root-Built l t i.t' n h s k v i.up c a' at ne le i0 i1 i.grown in
        let some_root : (t.begin_block_index == 0) ≡ false = ground (arith, ne) in
        let run = ap (λ j. insert_impl (suc n) l k v j t) at ∙ i.ran in
        subst (λ all. InsertedInto (insert_pair (suc n) l t k v) (suc n) (ins all k v)) (sym e)
          (record { t' = r.t'; ran = rw (some_root, run) r.ran; built = r.built })
  ]
