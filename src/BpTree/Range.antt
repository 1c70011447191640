-- ===== src/BpTree/Range.antt =====
-- Base/BPTree_impls/BPTree.hpp: the erasure of the keys from `begin` on and below `end`. On each level
-- there are one or two blocks at work: those that hold the two ends of the range. The descent takes one
-- unit of fuel for each level, and so does the erasure of all blocks below one that lies in the range.
use tiny_backend.Prelude.Partial.{◌>>=◌}
use tiny_backend.Prelude.{
  ℕ, zero, suc, ◌-◌, ◌*◌, not, ◌&&◌, ◌||◌, Option, none, some, List, [], ◌∷◌, ◌++◌, length, ◌==◌,
  if◌then◌else◌,
}
use tiny_backend.BpTree.{block_size, Layout, data_pair_size, data_begin}
use tiny_backend.BpTree.Pairs.{
  merging, keeping, averaging, merge_keep_average, key_at, first_key, lower_bound, erase,
  erase_range, average, update_key,
}
use tiny_backend.BpTree.Store.{Tree, get_data, get_index, is_data_block, put_pairs}
use tiny_backend.BpTree.Free.{erase_block}
use tiny_backend.BpTree.Insert.{State, success, fail, IterKey}

-- What is left of the two blocks.
abbrev pub Ends {ℓ} : Type ℓ → Type ℓ
Ends V = State × IterKey × IterKey × Tree V

-- The places at which the range begins and ends: `inner` when both are in one block.
abbrev pub begin_at : List (ℕ × ℕ) → (begin : ℕ) → ℕ
begin_at es begin =
    let p = lower_bound es begin in
    if p == length es || (not (p == 0) && not (key_at es p == begin)) then p - 1 else p

abbrev pub inner_end : List (ℕ × ℕ) → (li end : ℕ) → ℕ
inner_end es li end =
    let p = lower_bound es end in
    if not (li == p) && (p == length es || not (key_at es p == end)) then p - 1 else p

-- The key of a child as it is now, or no entry any more.
abbrev pub renew : List (ℕ × ℕ) → (pos : ℕ) → IterKey → List (ℕ × ℕ)
renew es pos none = erase es pos
renew es pos (some (i, k)) = if key_at es pos == k then es else update_key es pos k

module _ {ℓ} {V : Type ℓ} where
  unfoldable pub first_of_data : Tree V → (index : ℕ) → Option IterKey
  first_of_data t index = do d ← get_data t index; k ← first_key d.pairs; some (some (index, k))

  unfoldable pub first_of_index : Tree V → (index : ℕ) → Option IterKey
  first_of_index t index = do es ← get_index t index; k ← first_key es; some (some (index, k))

  -- `erase_all_block` over the children with these entries; `below` clears a child that is no data block.
  unfoldable pub clear_children :
      (below : ℕ → Tree V → Option (Tree V)) → List (ℕ × ℕ) → Tree V → Option (Tree V)
  clear_children below [] t = some t
  clear_children below (e ∷ es) t = do
    on_data ← is_data_block t e.1
    t' ← if on_data then some t else below e.1 t
    t'' ← erase_block e.1 t'
    clear_children below es t''

  unfoldable pub clear_below : (fuel : ℕ) → (index : ℕ) → Tree V → Option (Tree V)
  clear_below zero index t = none
  clear_below (suc fuel) index t = do es ← get_index t index; clear_children (clear_below fuel) es t

  unfoldable pub erase_all_block : (fuel : ℕ) → List (ℕ × ℕ) → Tree V → Option (Tree V)
  erase_all_block fuel es t = clear_children (clear_below fuel) es t

  -- The end in which both blocks stay, or one of them.
  unfoldable pub both_data : (left right : ℕ) → Tree V → Option (Ends V)
  both_data left right t = do
    l ← first_of_data t left
    r ← first_of_data t right
    some (success, l, r, t)

  unfoldable pub both_index : State → (left right : ℕ) → Tree V → Option (Ends V)
  both_index state left right t = do
    l ← first_of_index t left
    r ← first_of_index t right
    some (state, l, r, t)

  -- The range lies in one data block.
  unfoldable pub data_in_one : (begin end index : ℕ) → Tree V → Option (Ends V)
  data_in_one begin end index t = do
    d ← get_data t index
    let b = lower_bound d.pairs begin
    let e = lower_bound d.pairs end
    let rest = if b == e then d.pairs else erase_range d.pairs b e
    let state = if b == e then fail else success
    let t' = put_pairs t index d rest
    (if length rest == 0
        then (do t'' ← erase_block index t'; some (state, none, none, t''))
        else (do k ← first_of_data t' index; some (state, k, k, t')))

  -- The range ends in another data block than that in which it begins.
  unfoldable pub data_in_two : Layout → (begin end left right : ℕ) → Tree V → Option (Ends V)
  data_in_two l begin end left right t = do
    lb ← get_data t left
    rb ← get_data t right
    let ls = erase_range lb.pairs (lower_bound lb.pairs begin) (length lb.pairs)
    let rs = erase_range rb.pairs 0 (lower_bound rb.pairs end)
    let t' = put_pairs (put_pairs t left lb ls) right rb rs
    let this_size = length ls * data_pair_size l
    let other_size = length rs * data_pair_size l
    let halves = average ls rs
    elim (merge_keep_average (block_size - data_begin) this_size other_size) [
      | merging ↦
          if length ls == 0
          then (do
            t1 ← erase_block left t'
            (if length rs == 0
                then (do t2 ← erase_block right t1; some (success, none, none, t2))
                else (do r ← first_of_data t1 right; some (success, none, r, t1))))
          else (do
            let t1 = put_pairs (put_pairs t' left lb (ls ++ rs)) right rb []
            t2 ← erase_block right t1
            k ← first_of_data t2 left
            some (success, k, none, t2))
      | keeping ↦ both_data left right t'
      | averaging ↦
          both_data left right (put_pairs (put_pairs t' left lb halves.0) right rb halves.1)
    ]

  unfoldable pub data_range_erase : Layout → (begin end left right : ℕ) → Tree V → Option (Ends V)
  data_range_erase l begin end left right t =
      if left == right then data_in_one begin end left t else data_in_two l begin end left right t
