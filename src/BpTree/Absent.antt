-- ===== src/BpTree/Absent.antt =====
-- Base/BPTree_impls/BPTree.hpp: the erasure of a key that the tree has not.
use tiny_backend.Prelude.{
  ℕ, zero, suc, ◌-◌, ◌<◌, ◌≡◌, ◌≢◌, refl, sym, ap, ◌∙◌, Bool, true, false, not, ◌&&◌, ◌||◌, none,
  some, List, [], ◌∷◌, map, length, get_elem?, ltb, ◌==◌, if◌then◌else◌, inl, inr, Bool-cases,
  arith, Option,
}
use tiny_backend.BpTree.{Layout}
use tiny_backend.BpTree.Pairs.{key_at, first_key, lower_bound}
use tiny_backend.BpTree.Bound.{lower_bound-rank}
use tiny_backend.BpTree.Store.{Tree, pointer_at}
use tiny_backend.BpTree.Search.{step_back}
use tiny_backend.BpTree.Sorted.{lookup}
use tiny_backend.BpTree.Shape.{Shape, root, contents, entry, IsStored, IsOrdered, HoldsPairs}
use tiny_backend.BpTree.Reach.{
  is_data-leaf, is_data-index, as_data-leaf, Turn, IsOrdered-Turn, picked-All, Picked-absent,
}
use tiny_backend.BpTree.Grow.Leaf.{has_key, has_key-none}
use tiny_backend.BpTree.Insert.{fail, Inserted}
use tiny_backend.BpTree.Erase.{
  own_data, own_index, data_block_erase, take_out, index_block_erase, erase_impl, shrink_root,
  erase_pair,
}

-- An erasure that fails and leaves the tree as it is.
pub record Kept {ℓ} {V : Type ℓ} (run : Option (Inserted V)) (index : ℕ) (t : Tree V) : Type ℓ where
  pub key : ℕ
  pub ran : run ≡ some (fail, some (index, key), t)

not_at : (b c : Bool) → (not b && c) ≡ false → (b || not c) ≡ true
not_at true c e = refl
not_at false true e = ground arith
not_at false false e = refl

-- The step back of `index_block_erase` is that of `find_data`, behind its first test.
same_step :
    (z n x : Bool) (b : ℕ)
    → (z && x) ≡ false
    → (if n || x then b - 1 else b) ≡ (if n || (not z && x) then b - 1 else b)
same_step z true x b e = refl
same_step true false true b e = ground arith
same_step true false false b e = refl
same_step false false x b e = refl

module _ {ℓ} (V : Type ℓ) (l : Layout) (k : ℕ) where
  leaf-Kept :
      (t : Tree V) (s : Shape V 0) (before : Option ℕ)
      → IsStored V t.blocks 0 s
      → IsOrdered V 0 s
      → lookup s.1 k ≡ none
      → Kept (data_block_erase l k before s.0 t) s.0 t
  unfolding data_block_erase own_data
  leaf-Kept t (i, []) before st o n = absurd (o.1 refl)
  leaf-Kept t (i, x ∷ ps) before st o n =
      let d = as_data-leaf (get_elem? t.blocks i) st in
      let missed : has_key d.0.pairs k (lower_bound d.0.pairs k) ≡ false =
        rw (d.2, lower_bound-rank (x ∷ ps) k o.0) (has_key-none (x ∷ ps) k n) in
      let stop =
        not_at (lower_bound d.0.pairs k == length d.0.pairs)
          (key_at d.0.pairs (lower_bound d.0.pairs k) == k) missed in
      let first : first_key d.0.pairs ≡ some x.0 = rw d.2 refl in
      record { key = x.0; ran = rw (d.1, stop, first) refl }

  index-Kept :
      (t : Tree V) (h : ℕ) (s : Shape V (suc h)) (before : Option ℕ)
      (below : Option ℕ → ℕ → Tree V → Option (Inserted V))
      → IsStored V t.blocks (suc h) s
      → (u : Turn V h s k) → s.1 ≢ []
      → ((b : Option ℕ)
          → Kept (below b (root V h u.picked.child.1) t) (root V h u.picked.child.1) t)
      → Kept (index_block_erase l below k before s.0 t) s.0 t
  unfolding index_block_erase take_out own_index step_back
  index-Kept t h (i, []) before below st u n r = absurd (n refl)
  index-Kept t h (i, c ∷ cs) before below st u n r =
      let es = map (entry V h) (c ∷ cs) in
      let bound = lower_bound es k in
      elim (Bool-cases (bound == 0 && ltb k (key_at es bound))) [
        | inl y ↦ record { key = c.0; ran = rw (st.0, y) refl }
        | inr y ↦
            let pos =
              same_step (bound == 0) (bound == length es) (ltb k (key_at es bound)) bound y
              ∙ u.bound in
            let b = if u.pos == 0 then none else pointer_at es (u.pos - 1) in
            record { key = c.0; ran = rw (st.0, y, pos, u.pointer, (r b).ran, st.0) refl }
      ]

  erase_impl-Kept :
      (fuel : ℕ) (t : Tree V) (h : ℕ) (s : Shape V h) (before : Option ℕ)
      → IsStored V t.blocks h s
      → IsOrdered V h s
      → lookup (contents V h s) k ≡ none
      → h < fuel
      → Kept (erase_impl fuel l k before (root V h s) t) (root V h s) t
  unfolding erase_impl
  erase_impl-Kept zero t h s before st o n f = absurd (omega arith)
  erase_impl-Kept (suc fuel) t zero s before st o n f =
      let r = leaf-Kept t s before st o n in
      record { key = r.key; ran = rw (is_data-leaf (get_elem? t.blocks s.0) st) r.ran }
  erase_impl-Kept (suc fuel) t (suc h) s before st o n f =
      let u = IsOrdered-Turn V h s k o in
      let c = u.picked.child.1 in
      let stored = picked-All V h s k (λ c. IsStored V t.blocks h c.1) u.picked st.1 in
      let ordered =
        picked-All V h s k (λ c. IsOrdered V h c.1 × (first_key (contents V h c.1) ≡ some c.0))
          u.picked o.2 in
      let r = index-Kept t h s before (erase_impl fuel l k) st u o.1 (λ b.
        erase_impl-Kept fuel t h c b stored ordered.0 (Picked-absent V h s k u.picked n)
          (omega arith)) in
      record { key = r.key; ran = rw (is_data-index (get_elem? t.blocks s.0) st.0) r.ran }

  root_stays :
      (t : Tree V) (h : ℕ) (s : Shape V h) (key : ℕ)
      → IsStored V t.blocks h s
      → shrink_root (fail, some (root V h s, key), t) ≡ some (fail, t)
  unfolding shrink_root
  root_stays t zero s key st = rw (is_data-leaf (get_elem? t.blocks s.0) st) refl
  root_stays t (suc h) s key st = rw (is_data-index (get_elem? t.blocks s.0) st.0) refl

  -- The erasure of a key that the tree has not ends, answers that it failed and leaves the tree as it
  -- was. The fuel is one more than the levels of index blocks.
  pub erase-absent :
      (t : Tree V) (n : ℕ) (all : List (ℕ × V))
      → HoldsPairs n t all
      → lookup all k ≡ none
      → erase_pair (suc n) l t k ≡ some (fail, t)
  unfolding erase_pair
  erase-absent t n all (inl e) a = rw e.0 refl
  erase-absent t n all (inr (h, s, it, f, e)) a =
      let no : (t.begin_block_index == 0) ≡ false = ground (arith, it.in_use) in
      let r =
        erase_impl-Kept (suc n) t h s none it.stored it.ordered (ap (λ x. lookup x k) (sym e) ∙ a)
          (omega arith) in
      let ran = ap (λ i. erase_impl (suc n) l k none i t) it.at_root ∙ r.ran in
      rw (no, ran) (root_stays t h s r.key it.stored)
