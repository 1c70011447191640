-- ===== src/BpTree/Store.antt =====
-- Base/BPTree_impls/Interpreter.hpp, src/Impl_Scheduler.cpp and the constructors of the blocks: the
-- state of a tree and the access to its blocks. What `put_block(…, need_update)` writes to the file is
-- the cache's matter: the list holds each block as it was left last.
use tiny_backend.Prelude.Partial.{◌>>=◌}
use tiny_backend.Prelude.{
  ℕ, zero, suc, Bool, true, false, Option, none, some, List, [], ◌∷◌, ◌++◌, length, get_elem?, set,
  ◌==◌, if◌then◌else◌,
}
use tiny_backend.BpTree.{DataBlock, Block, data_block, index_block}

-- The head block, held while the tree is open: `slots` is where the numbers of deleted blocks are
-- from `get_pos_deleted_block(0)` on, and `extra_size` the bytes that extra data take. Then the two
-- fields of the tree: `has_record` is whether the buffer of `_deleted_record` is not null.
pub record Tree {ℓ} (V : Type ℓ) : Type ℓ where
  pub blocks : List (Block V)
  pub begin_block_index : ℕ
  pub valid_blocks_size : ℕ
  pub begin_record_block_index : ℕ
  pub deleted_blocks_size : ℕ
  pub extra_size : ℕ
  pub slots : List ℕ
  pub deleted_record_index : ℕ
  pub has_record : Bool

-- The pointer of a pair of an index block.
abbrev pub pointer_at : List (ℕ × ℕ) → (pos : ℕ) → Option ℕ
pointer_at [] pos = none
pointer_at (e ∷ es) zero = some e.1
pointer_at (e ∷ es) (suc pos) = pointer_at es pos

module _ {ℓ} {V : Type ℓ} where
  abbrev pub total_blocks : Tree V → ℕ
  total_blocks t = length t.blocks

  abbrev pub as_data : Option (Block V) → Option (DataBlock V)
  as_data (some (data_block d)) = some d
  as_data _ = none

  abbrev pub as_index : Option (Block V) → Option (List (ℕ × ℕ))
  as_index (some (index_block es)) = some es
  as_index _ = none

  abbrev pub is_data : Option (Block V) → Option Bool
  is_data none = none
  is_data (some (data_block d)) = some true
  is_data (some _) = some false

  -- The constructors of a block's object over its number. They fail past the end of the file, and on
  -- a block of another kind.
  abbrev pub get_data : Tree V → (index : ℕ) → Option (DataBlock V)
  get_data t index = as_data (get_elem? t.blocks index)

  abbrev pub get_index : Tree V → (index : ℕ) → Option (List (ℕ × ℕ))
  get_index t index = as_index (get_elem? t.blocks index)

  abbrev pub is_data_block : Tree V → (index : ℕ) → Option Bool
  is_data_block t index = is_data (get_elem? t.blocks index)

  abbrev pub put : Tree V → (index : ℕ) → Block V → Tree V
  put t index b = record t { blocks = set t.blocks index b }

  abbrev pub put_pairs : Tree V → (index : ℕ) → DataBlock V → List (ℕ × V) → Tree V
  put_pairs t index d ps = put t index (data_block (record d { pairs = ps }))

  -- `get_block()`: a new block behind the others.
  abbrev pub append_block : Tree V → Block V → ℕ × Tree V
  append_block t b = (total_blocks t, record t { blocks = t.blocks ++ (b ∷ []) })

  -- The block of a new `DataBlock`.
  abbrev pub empty_data : DataBlock V
  empty_data = record { prev_index = 0; next_index = 0; pairs = [] }

  unfoldable pub set_next : Tree V → (index next : ℕ) → Option (Tree V)
  set_next t index next = do
    d ← get_data t index
    some (put t index (data_block (record d { next_index = next })))

  unfoldable pub set_prev : Tree V → (index prev : ℕ) → Option (Tree V)
  set_prev t index prev = do
    d ← get_data t index
    some (put t index (data_block (record d { prev_index = prev })))

  -- `DataBlock::erase_block`, which takes a block out of the row of the data blocks.
  unfoldable pub unlink_data : Tree V → (index : ℕ) → Option (Tree V)
  unlink_data t index = do
    d ← get_data t index
    t' ← if d.prev_index == 0 then some t else set_next t d.prev_index d.next_index
    if d.next_index == 0 then some t' else set_prev t' d.next_index d.prev_index
