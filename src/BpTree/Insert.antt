-- ===== src/BpTree/Insert.antt =====
-- Base/BPTree_impls/BPTree.hpp: the insertion, down the tree and back up where blocks are split. The
-- descent takes one unit of fuel for each block.
use tiny_backend.Prelude.Partial.{◌>>=◌, ◌>>◌, assert}
use tiny_backend.Prelude.{
  ℕ, zero, suc, ◌+◌, ◌-◌, ◌*◌, Bool, true, false, not, ◌&&◌, Option, none, some, List, [], ◌∷◌,
  length, ltb, leb, ◌==◌, if◌then◌else◌,
}
use tiny_backend.BpTree.{
  block_size, Layout, index_pair_size, data_pair_size, index_begin, data_begin, DataBlock,
  data_block, index_block,
}
use tiny_backend.BpTree.Pairs.{key_at, first_key, insert, update_key, lower_bound, split}
use tiny_backend.BpTree.Store.{
  Tree, get_data, get_index, is_data_block, pointer_at, put, put_pairs, empty_data, set_prev,
}
use tiny_backend.BpTree.Free.{create_data_block, create_index_block}

pub data State : Type 0 where
  success fail : State

abbrev pub is_success : State → Bool
is_success success = true
is_success fail = false

-- `can_insert` of a data block and of an index block with so many pairs.
unfoldable pub can_insert_data : Layout → (pairs : ℕ) → Bool
can_insert_data l pairs = leb (pairs * data_pair_size l + data_pair_size l + data_begin) block_size

unfoldable pub can_insert_index : Layout → (pairs : ℕ) → Bool
can_insert_index l pairs =
    leb (pairs * index_pair_size l + index_pair_size l + index_begin) block_size

-- An `IterKey`: the number of a block and its first key.
abbrev pub IterKey : Type 0
IterKey = Option (ℕ × ℕ)

abbrev pub Inserted {ℓ} : Type ℓ → Type ℓ
Inserted V = State × IterKey × Tree V

module _ {ℓ} {V : Type ℓ} where
  -- The end of `split`: the new block comes into the row behind the old one.
  unfoldable pub link_split : Tree V → (index new_index next_index : ℕ) → Option (Tree V)
  link_split t index new_index next_index =
      if ltb 0 next_index then set_prev t next_index new_index else some t

  unfoldable pub split_data : Tree V → (index new_index key : ℕ) → V → Option (Tree V)
  split_data t index new_index key value = do
    d ← get_data t index
    _ ← get_data t new_index
    let halves = split d.pairs key value
    let d' : DataBlock V = record {
      prev_index = d.prev_index;
      next_index = new_index;
      pairs = halves.0;
    }
    let new : DataBlock V = record {
      prev_index = index;
      next_index = d.next_index;
      pairs = halves.1;
    }
    let t' = put (put t index (data_block d')) new_index (data_block new)
    link_split t' index new_index d.next_index

  unfoldable pub data_block_insert :
      Layout → (key : ℕ) → V → (index : ℕ) → Tree V → Option (Inserted V)
  data_block_insert l key value index t = do
    d ← get_data t index
    let pos = lower_bound d.pairs key
    (if not (pos == length d.pairs) && key_at d.pairs pos == key
        then some (fail, none, t)
        else if can_insert_data l (length d.pairs)
        then some (success, none, put_pairs t index d (insert d.pairs pos key value))
        else (do
          r ← create_data_block t
          t' ← split_data r.1 index r.0 key value
          new ← get_data t' r.0
          k ← first_key new.pairs
          some (success, some (r.0, k), t')))

  -- What the parent does with the block that a split below has made.
  unfoldable pub take_in :
      Layout → (index : ℕ) → List (ℕ × ℕ) → (pos : ℕ) → Inserted V → Option (Inserted V)
  take_in l index es pos (state, none, t) = some (state, none, t)
  take_in l index es pos (state, some (new, k), t) =
      if can_insert_index l (length es)
      then some (state, none, put t index (index_block (insert es (suc pos) k new)))
      else (do
        r ← create_index_block t
        let halves = split es k new
        k' ← first_key halves.1
        some (
          state,
          some (r.0, k'),
          put (put r.1 index (index_block halves.0)) r.0 (index_block halves.1),
        ))

  -- `below` is the insertion into a child.
  unfoldable pub index_block_insert :
      Layout
      → (below : ℕ → Tree V → Option (Inserted V)) → (key index : ℕ) → Tree V
      → Option (Inserted V)
  index_block_insert l below key index t = do
    es ← get_index t index
    k ← first_key es
    let need_update = ltb key k
    let bound = lower_bound es key
    (if not (bound == length es) && key_at es bound == key then some (fail, none, t) else (do
      let pos = if bound == 0 then 0 else bound - 1
      child ← pointer_at es pos
      r ← below child t
      es' ← get_index r.2 index
      let es'' = if need_update && is_success r.0 then update_key es' pos key else es'
      take_in l index es'' pos (r.0, r.1, put r.2 index (index_block es''))))

  unfoldable pub insert_impl :
      (fuel : ℕ) → Layout → (key : ℕ) → V → (index : ℕ) → Tree V → Option (Inserted V)
  insert_impl zero l key value index t = none
  insert_impl (suc fuel) l key value index t = do
    on_data ← is_data_block t index
    elim on_data [
      | true ↦ data_block_insert l key value index t
      | false ↦ index_block_insert l (insert_impl fuel l key value) key index t
    ]

  -- The first key of the block at the root.
  unfoldable pub root_key : Tree V → (index : ℕ) → Option ℕ
  root_key t index = do
    on_data ← is_data_block t index
    elim on_data [
      | true ↦ do d ← get_data t index; first_key d.pairs
      | false ↦ do es ← get_index t index; first_key es
    ]

  unfoldable pub new_root : Layout → Inserted V → Option (State × Tree V)
  new_root l (state, none, t) = some (state, t)
  new_root l (state, some (new, k), t) = do
    r ← create_index_block t
    assert (can_insert_index l 0)
    k' ← root_key r.1 t.begin_block_index
    assert (can_insert_index l 1)
    let es : List (ℕ × ℕ) = (k', t.begin_block_index) ∷ (k, new) ∷ []
    some (state, record (put r.1 r.0 (index_block es)) { begin_block_index = r.0 })

  unfoldable pub insert_pair :
      (fuel : ℕ) → Layout → Tree V → (key : ℕ) → V → Option (State × Tree V)
  insert_pair fuel l t key value =
      if t.begin_block_index == 0
      then (do
        r ← create_data_block t
        assert (can_insert_data l 0)
        let d : DataBlock V = record empty_data { pairs = (key, value) ∷ [] }
        some (success, record (put r.1 r.0 (data_block d)) { begin_block_index = r.0 }))
      else (do r ← insert_impl fuel l key value t.begin_block_index t; new_root l r)
