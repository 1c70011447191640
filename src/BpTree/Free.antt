-- ===== src/BpTree/Free.antt =====
-- Base/BPTree_impls/Interpreter.hpp and BPTree_impl.hpp: the blocks that are free for new use. Their
-- numbers stand in the head block and, when that is full, in blocks of their own: such a record block
-- is one of the free blocks, and names the record block before it.
use tiny_backend.Prelude.Partial.{◌>>=◌, ◌>>◌, assert}
use tiny_backend.Prelude.{
  ℕ, suc, ◌-◌, ◌*◌, ◌/◌, ◌%◌, Bool, true, false, not, Option, none, some, List, [], get_elem?,
  get_or, set, replicate, ltb, leb, ◌==◌, if◌then◌else◌,
}
use tiny_backend.BpTree.{block_size, Block, record_block, data_block, index_block}
use tiny_backend.BpTree.Store.{Tree, is_data_block, put, append_block, empty_data, unlink_data}

-- How many numbers a record block holds.
abbrev pub record_room : ℕ
record_room = (block_size - 7) / 4

module _ {ℓ} {V : Type ℓ} where
  -- A record block: the one before it, how many numbers it holds, and where they stand.
  abbrev pub as_record : Option (Block V) → Option (ℕ × ℕ × List ℕ)
  as_record (some (record_block last n slots)) = some (last, n, slots)
  as_record _ = none

  abbrev pub get_record : Tree V → (index : ℕ) → Option (ℕ × ℕ × List ℕ)
  get_record t index = as_record (get_elem? t.blocks index)

  -- The bytes of the head block behind the numbers in it.
  unfoldable pub rest_size : Tree V → ℕ
  rest_size t =
      let ret = block_size - t.extra_size - 17 in
      if ltb (ret / 4) t.deleted_blocks_size then ret % 4 else ret - t.deleted_blocks_size * 4

  abbrev pub can_add_deleted_block : Tree V → Bool
  can_add_deleted_block t = leb 4 (rest_size t)

  abbrev pub head_add : (index : ℕ) → Tree V → Tree V
  head_add index t = record t {
    slots = set t.slots t.deleted_blocks_size index;
    deleted_blocks_size = suc t.deleted_blocks_size;
  }

  -- `pop_deleted_block_index` of the head block.
  unfoldable pub head_pop : Tree V → ℕ × Tree V
  head_pop t =
      let n = t.deleted_blocks_size - 1 in
      (get_or t.slots n 0, record t { slots = set t.slots n 0; deleted_blocks_size = n })

  -- `add_deleted_block` of the record block in use.
  unfoldable pub record_add : (index : ℕ) → Tree V → Option (Tree V)
  record_add index t = do
    r ← get_record t t.deleted_record_index
    let b : Block V = record_block r.0 (suc r.1) (set r.2 r.1 index)
    some (record (put t t.deleted_record_index b) {
      deleted_blocks_size = suc t.deleted_blocks_size;
    })

  -- A free block becomes the record block in use.
  unfoldable pub new_record : (index last : ℕ) → Tree V → Option (Tree V)
  new_record index last t = do
    _ ← get_elem? t.blocks index
    let b : Block V = record_block last 0 (replicate record_room 0)
    some (record (put t index b) {
      deleted_record_index = index;
      has_record = true;
      begin_record_block_index = index;
    })

  -- `erase_block` behind the row of the data blocks: the number goes to the free ones.
  unfoldable pub give_back : (index : ℕ) → Tree V → Option (Tree V)
  give_back index t =
      if t.has_record
      then (do
        r ← get_record t t.deleted_record_index
        t' ←
            if ltb r.1 record_room
            then some t
            else new_record (get_or r.2 (r.1 - 1) 0) t.deleted_record_index t
        record_add index t')
      else if can_add_deleted_block t
      then some (head_add index t)
      else (do
        t' ← new_record (get_or t.slots (t.deleted_blocks_size - 1) 0) 0 t
        record_add index t')

  unfoldable pub erase_block : (index : ℕ) → Tree V → Option (Tree V)
  erase_block index t = do
    on_data ← is_data_block t index
    t' ← if on_data then unlink_data t index else some t
    give_back index (record t' { valid_blocks_size = t'.valid_blocks_size - 1 })

  -- An emptied record block is left for the one before it, or for the head block.
  unfoldable pub leave_record : (last : ℕ) → Tree V → Option (Tree V)
  leave_record last t =
      if last == 0
      then some (record t { deleted_record_index = 0; has_record = false })
      else (do _ ← get_record t last; some (record t { deleted_record_index = last }))

  unfoldable pub get_new_block_index : Tree V → Option (ℕ × Tree V)
  get_new_block_index t = if not t.has_record then some (head_pop t) else (do
    r ← get_record t t.deleted_record_index
    assert (ltb 0 r.1)
    let n = r.1 - 1
    let b : Block V = record_block r.0 n (set r.2 n 0)
    let t' = put t t.deleted_record_index b
    t'' ← if ltb 0 n then some t' else leave_record r.0 t'
    some (get_or r.2 n 0, record t'' { deleted_blocks_size = t''.deleted_blocks_size - 1 }))

  -- The block of `create_data_block` and of `create_index_block`: one that was free, or a new one.
  unfoldable pub create_block : Block V → Tree V → Option (ℕ × Tree V)
  create_block b t =
      let t' = record t { valid_blocks_size = suc t.valid_blocks_size } in
      if t'.deleted_blocks_size == 0
      then some (append_block t' b)
      else (do r ← get_new_block_index t'; _ ← get_elem? r.1.blocks r.0; some (r.0, put r.1 r.0 b))

  unfoldable pub create_data_block : Tree V → Option (ℕ × Tree V)
  create_data_block t = create_block (data_block empty_data) t

  unfoldable pub create_index_block : Tree V → Option (ℕ × Tree V)
  create_index_block t = create_block (index_block []) t
