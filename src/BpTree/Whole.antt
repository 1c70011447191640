-- ===== src/BpTree/Whole.antt =====
-- Base/BPTree_impls/BPTree.hpp: what the search from the begin of the tree returns.
use mathlib.Core.Path.{subst}
use tiny_backend.Prelude.{
  ℕ, zero, suc, ◌<◌, ◌≡◌, refl, sym, ap, ◌∙◌, false, Option, some, List, [], ◌∷◌, ◌++◌, get_elem?,
  take, ◌==◌, inl, inr, arith,
}
use tiny_backend.BpTree.{DataBlock}
use tiny_backend.BpTree.Store.{Tree, get_data, is_data}
use tiny_backend.BpTree.Shape.{
  concat_map, Shape, leaves, head_index, IsStored, IsOrdered, IsLinked, HoldsPairs,
}
use tiny_backend.BpTree.Reach.{contents-leaves, is_data-leaf, is_data-index, as_data-leaf}
use tiny_backend.BpTree.Cursor.{At}
use tiny_backend.BpTree.Scans.{rest_loop-take}
use tiny_backend.BpTree.Find.{take_nil}
use tiny_backend.BpTree.Ends.{first_data, search_from_begin}

module _ {ℓ} (V : Type ℓ) where
  -- The data block to which the first pointers lead.
  record FirstLeaf (t : Tree V) (h : ℕ) (s : Shape V h) (found : Option (DataBlock V))
      : Type ℓ where
    index : ℕ
    pairs : List (ℕ × V)
    rest : List (ℕ × List (ℕ × V))
    row : leaves V h s ≡ (index, pairs) ∷ rest
    reached : found ≡ get_data t index

  first_data-FirstLeaf :
      (t : Tree V) (h : ℕ) (s : Shape V (suc h)) (fuel : ℕ)
      → IsStored V t.blocks (suc h) s
      → IsOrdered V (suc h) s
      → h < fuel
      → FirstLeaf t (suc h) s (first_data fuel t s.0)
  unfolding first_data
  first_data-FirstLeaf t h s zero st o f = absurd (omega arith)
  first_data-FirstLeaf t h (i, []) (suc fuel) st o f = absurd (o.1 refl)
  first_data-FirstLeaf t zero (i, c ∷ cs) (suc fuel) st o f = record {
    index = c.1.0;
    pairs = c.1.1;
    rest = concat_map (λ c. leaves V 0 c.1) cs;
    row = refl;
    reached = rw (st.0, is_data-leaf (get_elem? t.blocks c.1.0) st.1.0) refl;
  }
  first_data-FirstLeaf t (suc h) (i, c ∷ cs) (suc fuel) st o f =
      let r = first_data-FirstLeaf t h c.1 fuel st.1.0 o.2.0.0 (omega arith) in
      record {
        index = r.index;
        pairs = r.pairs;
        rest = r.rest ++ concat_map (λ c. leaves V (suc h) c.1) cs;
        row = ap (λ l. l ++ concat_map (λ c. leaves V (suc h) c.1) cs) r.row;
        reached = rw (st.0, is_data-index (get_elem? t.blocks c.1.0) st.1.0.0) r.reached;
      }

  -- The search from the begin returns the first pairs of the tree in order, at most `limit` of them,
  -- and fails nowhere: the fuel need not be more than the levels of index blocks.
  pub search_from_begin-contents :
      (t : Tree V) (fuel limit : ℕ) (all : List (ℕ × V))
      → HoldsPairs fuel t all
      → search_from_begin fuel t limit ≡ some (take limit all)
  unfolding search_from_begin
  search_from_begin-contents t fuel limit all (inl e) =
      rw (e.0, e.1) (sym (ap some (take_nil limit)))
  search_from_begin-contents t fuel limit all (inr (zero, s, it, f, e)) =
      let no : (t.begin_block_index == 0) ≡ false = ground (arith, it.in_use) in
      let d = as_data-leaf (get_elem? t.blocks s.0) it.stored in
      let on =
        ap (λ i. is_data (get_elem? t.blocks i)) it.at_root
        ∙ is_data-leaf (get_elem? t.blocks s.0) it.stored in
      let got : get_data t t.begin_block_index ≡ some d.0 = ap (get_data t) it.at_root ∙ d.1 in
      rw (no, on, got) (ap (λ l. some (take limit l)) (d.2 ∙ sym e))
  search_from_begin-contents t fuel limit all (inr (suc h, s, it, f, e)) =
      let no : (t.begin_block_index == 0) ≡ false = ground (arith, it.in_use) in
      let on =
        ap (λ i. is_data (get_elem? t.blocks i)) it.at_root
        ∙ is_data-index (get_elem? t.blocks s.0) it.stored.0 in
      let r = first_data-FirstLeaf t h s fuel it.stored it.ordered (omega arith) in
      let row = subst (IsLinked t.blocks 0) r.row it.linked in
      let d : DataBlock V = record {
        prev_index = 0;
        next_index = head_index r.rest;
        pairs = r.pairs;
      } in
      let got : get_data t r.index ≡ some d = rw row.0 refl in
      let found = ap (first_data fuel t) it.at_root ∙ r.reached ∙ got in
      let at : At t d 0 all = record {
        index = r.index;
        ahead = r.rest;
        next = refl;
        linked = row.3;
        inside = omega arith;
        whole = e ∙ contents-leaves V (suc h) s ∙ ap (concat_map (λ l. l.1)) r.row;
      } in
      rw (no, on, found) (rest_loop-take t limit all d 0 at)
