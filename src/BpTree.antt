-- ===== src/BpTree.antt =====
-- Base/BPTree_impls: a B+ tree over the blocks of a file. Keys are numbers. A block is what its bytes
-- say: the pairs of an index block or of a data block are a list, and the offset
-- `BeginPos + i * PairSize` of an iterator is `i`. The blocks, as the cache holds them, are a list in
-- which a block's index is its place. `none` is a failed `assert` or a thrown exception.
pub mod Pairs
pub mod Bound
pub mod Store
pub mod Free
pub mod Search
pub mod Ends
pub mod Insert
pub mod Erase
pub mod Absent
pub mod Range
pub mod Between
pub mod Reuse
pub mod Whole
pub mod Lower
pub mod Sorted
pub mod Shape
pub mod Descend
pub mod Reach
pub mod Cursor
pub mod Scans
pub mod Sought
pub mod Find
pub mod Halves
pub mod Rows
pub mod Parted
pub mod Written
pub mod Nodes
pub mod Grow
mod Tests
mod Runs
use tiny_backend.Prelude.{ℕ, ◌+◌, List}

abbrev pub block_size : ℕ
block_size = 4096

abbrev pub ptr_size : ℕ
ptr_size = 4

-- `size_helper<Key>::size` and `size_helper<Value>::size`.
pub record Layout : Type 0 where
  pub key_size : ℕ
  pub value_size : ℕ

-- `PairSize` of an index block and `pair_size` of a data block.
abbrev pub index_pair_size : Layout → ℕ
index_pair_size l = l.key_size + ptr_size

abbrev pub data_pair_size : Layout → ℕ
data_pair_size l = l.key_size + l.value_size

-- `BeginPos` of an index block and of a data block.
abbrev pub index_begin : ℕ
index_begin = 3

abbrev pub data_begin : ℕ
data_begin = 11

module _ {ℓ} (V : Type ℓ) where
  pub record DataBlock : Type ℓ where
    pub prev_index : ℕ
    pub next_index : ℕ
    pub pairs : List (ℕ × V)

  -- The kinds of block, by the low two bits of the first byte. What a head block holds is part of the
  -- tree's state.
  pub data Block : Type ℓ where
    head_block : Block
    record_block : (last_index deleted_size : ℕ) → (slots : List ℕ) → Block
    data_block : DataBlock → Block
    index_block : List (ℕ × ℕ) → Block
