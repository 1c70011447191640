-- ===== src/BpTree/Between.antt =====
-- Base/BPTree_impls/BPTree.hpp: the erasure of a range of keys in the index blocks, and as a whole.
use tiny_backend.Prelude.Partial.{◌>>=◌}
use tiny_backend.Prelude.{
  ℕ, zero, suc, ◌-◌, ◌*◌, true, false, Option, none, some, List, [], ◌++◌, length, take, drop, ◌==◌,
  if◌then◌else◌,
}
use tiny_backend.BpTree.{block_size, Layout, index_pair_size, index_begin, index_block}
use tiny_backend.BpTree.Pairs.{
  merging, keeping, averaging, merge_keep_average, lower_bound, erase_range, average,
}
use tiny_backend.BpTree.Store.{Tree, get_index, is_data_block, pointer_at, put}
use tiny_backend.BpTree.Free.{erase_block}
use tiny_backend.BpTree.Insert.{State, fail, IterKey}
use tiny_backend.BpTree.Range.{
  Ends, begin_at, inner_end, renew, first_of_index, erase_all_block, both_index, data_range_erase,
}

-- What the erasure left of the children at two places.
abbrev pub renew_both : List (ℕ × ℕ) → (li ri : ℕ) → IterKey → IterKey → List (ℕ × ℕ)
renew_both es li ri none right = renew (renew es ri right) li none
renew_both es li ri (some left) right = renew (renew es li (some left)) ri right

module _ {ℓ} {V : Type ℓ} where
  -- Both ends of the range lie below one block, then they may lie below two; `below` is the erasure in
  -- the children, and `fuel` is for the blocks in between.
  unfoldable pub index_in_one :
      (fuel : ℕ)
      → (below : (left right : ℕ) → Tree V → Option (Ends V)) → (begin end index : ℕ) → Tree V
      → Option (Ends V)
  index_in_one fuel below begin end index t = do
    es ← get_index t index
    let li = begin_at es begin
    let ri = inner_end es li end
    left ← pointer_at es li
    right ← pointer_at es ri
    r ← below left right t
    es' ← get_index r.3 index
    let es1 = if li == ri then renew es' li r.1 else renew_both es' li ri r.1 r.2
    let eb = if li == ri then 0 else lower_bound es1 begin
    let ee = if li == ri then 0 else lower_bound es1 end
    t1 ← erase_all_block fuel (take (ee - eb) (drop eb es1)) (put r.3 index (index_block es1))
    let es2 = erase_range es1 eb ee
    let t2 = put t1 index (index_block es2)
    (if length es2 == 0
        then (do t3 ← erase_block index t2; some (r.0, none, none, t3))
        else (do k ← first_of_index t2 index; some (r.0, k, k, t2)))

  -- The end with what is left of two index blocks.
  unfoldable pub even_index : Layout → State → (left right : ℕ) → Tree V → Option (Ends V)
  even_index l state left right t = do
    ls ← get_index t left
    rs ← get_index t right
    let this_size = length ls * index_pair_size l
    let other_size = length rs * index_pair_size l
    let halves = average ls rs
    elim (merge_keep_average (block_size - index_begin) this_size other_size) [
      | merging ↦
          if length ls == 0
          then (do
            t1 ← erase_block left t
            (if length rs == 0
                then (do t2 ← erase_block right t1; some (state, none, none, t2))
                else (do r ← first_of_index t1 right; some (state, none, r, t1))))
          else (do
            let t1 = put (put t left (index_block (ls ++ rs))) right (index_block [])
            t2 ← erase_block right t1
            k ← first_of_index t2 left
            some (state, k, none, t2))
      | keeping ↦ both_index state left right t
      | averaging ↦
          both_index state left right
            (put (put t left (index_block halves.0)) right (index_block halves.1))
    ]

  unfoldable pub index_in_two :
      (fuel : ℕ)
      → Layout
      → (below : (left right : ℕ) → Tree V → Option (Ends V)) → (begin end left right : ℕ) → Tree V
      → Option (Ends V)
  index_in_two fuel l below begin end left right t = do
    lb ← get_index t left
    rb ← get_index t right
    let li = begin_at lb begin
    let ri = begin_at rb end
    lp ← pointer_at lb li
    rp ← pointer_at rb ri
    r ← below lp rp t
    ls ← get_index r.3 left
    rs ← get_index r.3 right
    let ls1 = renew ls li r.1
    let rs1 = renew rs ri r.2
    let eb = lower_bound ls1 begin
    let ee = lower_bound rs1 end
    let t1 = put (put r.3 left (index_block ls1)) right (index_block rs1)
    t2 ← erase_all_block fuel (drop eb ls1) t1
    let t3 = put t2 left (index_block (erase_range ls1 eb (length ls1)))
    t4 ← erase_all_block fuel (take ee rs1) t3
    even_index l r.0 left right (put t4 right (index_block (erase_range rs1 0 ee)))

  unfoldable pub erase_range_impl :
      (fuel : ℕ) → Layout → (begin end left right : ℕ) → Tree V → Option (Ends V)
  erase_range_impl zero l begin end left right t = none
  erase_range_impl (suc fuel) l begin end left right t = do
    on_data ← is_data_block t left
    elim on_data [
      | true ↦ data_range_erase l begin end left right t
      | false ↦
          if left == right
          then index_in_one fuel (erase_range_impl fuel l begin end) begin end left t
          else index_in_two fuel l (erase_range_impl fuel l begin end) begin end left right t
    ]

  -- The root stays, gives way to another block, or goes.
  unfoldable pub root_after : (index : ℕ) → Ends V → State × Tree V
  root_after index (state, none, right, t) = (state, record t { begin_block_index = 0 })
  root_after index (state, some (i, k), right, t) =
      if index == i then (state, t) else (state, record t { begin_block_index = i })

  unfoldable pub erase_between :
      (fuel : ℕ) → Layout → Tree V → (begin end : ℕ) → Option (State × Tree V)
  erase_between fuel l t begin end = if t.begin_block_index == 0 then some (fail, t) else (do
    r ← erase_range_impl fuel l begin end t.begin_block_index t.begin_block_index t
    some (root_after t.begin_block_index r))
