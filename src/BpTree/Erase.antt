-- ===== src/BpTree/Erase.antt =====
-- Base/BPTree_impls/BPTree.hpp: the erasure of a key, down the tree and back up where a block that has
-- grown small is merged with the one before it. The descent takes one unit of fuel for each block.
use tiny_backend.Prelude.Partial.{◌>>=◌}
use tiny_backend.Prelude.{
  ℕ, zero, suc, ◌-◌, ◌*◌, ◌/◌, Bool, true, false, not, ◌&&◌, ◌||◌, Option, none, some, List, [],
  ◌++◌, length, ltb, ◌==◌, if◌then◌else◌,
}
use tiny_backend.BpTree.{
  block_size, Layout, index_pair_size, data_pair_size, index_begin, data_begin, index_block,
}
use tiny_backend.BpTree.Pairs.{
  merging, keeping, averaging, merge_keep_average, key_at, first_key, lower_bound, erase, average,
  update_key,
}
use tiny_backend.BpTree.Store.{Tree, get_data, get_index, is_data_block, pointer_at, put, put_pairs}
use tiny_backend.BpTree.Free.{erase_block}
use tiny_backend.BpTree.Insert.{State, success, fail, is_success, Inserted}

-- What `erase` of a block answers when so many pairs are left: more than half of the room is in use.
abbrev pub keeps_data : Layout → (pairs : ℕ) → Bool
keeps_data l pairs = ltb ((block_size - data_begin) / 2) (pairs * data_pair_size l)

abbrev pub keeps_index : Layout → (pairs : ℕ) → Bool
keeps_index l pairs = ltb ((block_size - index_begin) / 2) (pairs * index_pair_size l)

module _ {ℓ} {V : Type ℓ} where
  -- A block that stays, with its first key.
  unfoldable pub own_data : State → (index : ℕ) → Tree V → Option (Inserted V)
  own_data state index t = do
    d ← get_data t index
    k ← first_key d.pairs
    some (state, some (index, k), t)

  unfoldable pub own_index : State → (index : ℕ) → Tree V → Option (Inserted V)
  own_index state index t = do
    es ← get_index t index
    k ← first_key es
    some (state, some (index, k), t)

  -- A block that goes.
  unfoldable pub drop_block : (index : ℕ) → Tree V → Option (Inserted V)
  drop_block index t = do t' ← erase_block index t; some (success, none, t')

  -- The block that has grown small, and the one before it.
  unfoldable pub level_data : Layout → (before index : ℕ) → Tree V → Option (Inserted V)
  level_data l before index t = do
    b ← get_data t before
    d ← get_data t index
    let this_size = length b.pairs * data_pair_size l
    let other_size = length d.pairs * data_pair_size l
    let halves = average b.pairs d.pairs
    elim (merge_keep_average (block_size - data_begin) this_size other_size) [
      | merging ↦
          drop_block index (put_pairs (put_pairs t before b (b.pairs ++ d.pairs)) index d [])
      | keeping ↦ own_data success index t
      | averaging ↦
          own_data success index (put_pairs (put_pairs t before b halves.0) index d halves.1)
    ]

  unfoldable pub level_index : Layout → (before index : ℕ) → Tree V → Option (Inserted V)
  level_index l before index t = do
    bs ← get_index t before
    es ← get_index t index
    let this_size = length bs * index_pair_size l
    let other_size = length es * index_pair_size l
    let halves = average bs es
    elim (merge_keep_average (block_size - index_begin) this_size other_size) [
      | merging ↦
          drop_block index (put (put t before (index_block (bs ++ es))) index (index_block []))
      | keeping ↦ own_index success index t
      | averaging ↦
          own_index success index
            (put (put t before (index_block halves.0)) index (index_block halves.1))
    ]

  -- The ends of `data_block_erase` and of `index_block_erase`, with the pairs that are left.
  unfoldable pub empty_or_own_data : (index pairs : ℕ) → Tree V → Option (Inserted V)
  empty_or_own_data index pairs t =
      if pairs == 0 then drop_block index t else own_data success index t

  unfoldable pub settle_data :
      Layout → (before : Option ℕ) → (index pairs : ℕ) → Tree V → Option (Inserted V)
  settle_data l none index pairs t = empty_or_own_data index pairs t
  settle_data l (some before) index pairs t =
      if keeps_data l pairs then empty_or_own_data index pairs t else level_data l before index t

  unfoldable pub empty_or_own_index : (index pairs : ℕ) → Tree V → Option (Inserted V)
  empty_or_own_index index pairs t =
      if pairs == 0 then drop_block index t else own_index success index t

  unfoldable pub settle_index :
      Layout → (before : Option ℕ) → (index pairs : ℕ) → Tree V → Option (Inserted V)
  settle_index l none index pairs t = empty_or_own_index index pairs t
  settle_index l (some before) index pairs t =
      if keeps_index l pairs then empty_or_own_index index pairs t else level_index l before index t

  unfoldable pub data_block_erase :
      Layout → (key : ℕ) → (before : Option ℕ) → (index : ℕ) → Tree V → Option (Inserted V)
  data_block_erase l key before index t = do
    d ← get_data t index
    let pos = lower_bound d.pairs key
    let rest = erase d.pairs pos
    (if pos == length d.pairs || not (key_at d.pairs pos == key)
        then own_data fail index t
        else settle_data l before index (length rest) (put_pairs t index d rest))

  -- What the parent does when a child has lost the key.
  unfoldable pub take_out :
      Layout
      → (before : Option ℕ) → (index pos : ℕ) → List (ℕ × ℕ)
      → Inserted V
      → Option (Inserted V)
  take_out l before index pos es (fail, child, t) = own_index fail index t
  take_out l before index pos es (success, some (i, k), t) =
      let es' = if key_at es pos == k then es else update_key es pos k in
      own_index success index (put t index (index_block es'))
  take_out l before index pos es (success, none, t) =
      let es' = erase es pos in
      settle_index l before index (length es') (put t index (index_block es'))

  -- `below` is the erasure in a child.
  unfoldable pub index_block_erase :
      Layout
      → (below : Option ℕ → ℕ → Tree V → Option (Inserted V)) → (key : ℕ) → (before : Option ℕ)
      → (index : ℕ) → Tree V
      → Option (Inserted V)
  index_block_erase l below key before index t = do
    es ← get_index t index
    let bound = lower_bound es key
    (if bound == 0 && ltb key (key_at es bound) then own_index fail index t else (do
      let pos = if bound == length es || ltb key (key_at es bound) then bound - 1 else bound
      child ← pointer_at es pos
      r ← below (if pos == 0 then none else pointer_at es (pos - 1)) child t
      es' ← get_index r.2 index
      take_out l before index pos es' r))

  unfoldable pub erase_impl :
      (fuel : ℕ)
      → Layout
      → (key : ℕ) → (before : Option ℕ) → (index : ℕ) → Tree V
      → Option (Inserted V)
  erase_impl zero l key before index t = none
  erase_impl (suc fuel) l key before index t = do
    on_data ← is_data_block t index
    elim on_data [
      | true ↦ data_block_erase l key before index t
      | false ↦ index_block_erase l (erase_impl fuel l key) key before index t
    ]

  -- A root without pairs goes, and a root with one pair gives way to the block below it.
  unfoldable pub shrink_root : Inserted V → Option (State × Tree V)
  shrink_root (state, none, t) = some (state, record t { begin_block_index = 0 })
  shrink_root (state, some (i, k), t) = do
    on_data ← is_data_block t i
    (if not on_data && is_success state
        then (do
          es ← get_index t i
          child ← pointer_at es 0
          t' ←
              if length es == 1
              then erase_block i (record t { begin_block_index = child })
              else some t
          some (state, t'))
        else some (state, t))

  unfoldable pub erase_pair : (fuel : ℕ) → Layout → Tree V → (key : ℕ) → Option (State × Tree V)
  erase_pair fuel l t key =
      if t.begin_block_index == 0
      then some (fail, t)
      else (do r ← erase_impl fuel l key none t.begin_block_index t; shrink_root r)
