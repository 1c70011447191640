-- ===== src/BpTree/Runs.antt =====
-- Runs of the tree's insertion and erasures.
use tiny_backend.Prelude.{ℕ, ◌≡◌, refl, some, List, [], ◌∷◌}
use tiny_backend.BpTree.{Layout, Block, head_block, data_block, index_block}
use tiny_backend.BpTree.Pairs.{
  erase_range, update_key, erase, merge_keep_average, average, lower_bound, lower_bound_loop,
  insert, split, split_at,
}
use tiny_backend.BpTree.Free.{erase_block, give_back, rest_size, create_data_block, create_block}
use tiny_backend.BpTree.Store.{unlink_data, set_next, set_prev, Tree}
use tiny_backend.BpTree.Insert.{
  success, can_insert_data, can_insert_index, insert_pair, insert_impl, index_block_insert,
  data_block_insert, split_data, link_split, take_in, new_root,
}
use tiny_backend.BpTree.Search.{
  rest_loop, hop, find, find_range, find_data, find_data_loop, step_back, above_or_equal,
}
use tiny_backend.BpTree.Erase.{
  erase_pair, erase_impl, index_block_erase, data_block_erase, settle_data, level_data, take_out,
  settle_index, empty_or_own_index, own_index, drop_block, shrink_root,
}
use tiny_backend.BpTree.Range.{
  data_range_erase, data_in_two, both_data, first_of_data, erase_all_block, clear_children,
  first_of_index,
}
use tiny_backend.BpTree.Between.{erase_between, erase_range_impl, index_in_one, root_after}
use tiny_backend.Prelude.Partial.{◌>>=◌}
use tiny_backend.BpTree.Tests.{opened, low, high, layout, two_leaves}

run : Unit {0}
unfolding lower_bound insert_pair find find_range can_insert_data can_insert_index insert
run = tt

-- The insertion of 4 splits the second leaf.
abbrev split_leaf : List (Block ℕ)
split_leaf =
    head_block
    ∷ data_block (record { prev_index = 0; next_index = 2; pairs = low })
    ∷ data_block (record { prev_index = 1; next_index = 4; pairs = (3, 30) ∷ [] })
    ∷ index_block ((1, 1) ∷ (3, 2) ∷ (4, 4) ∷ [])
    ∷ data_block (record { prev_index = 2; next_index = 0; pairs = (4, 40) ∷ (5, 50) ∷ [] })
    ∷ []

insert_splits : insert_pair 2 layout two_leaves 4 40 ≡ some (success, opened split_leaf 3)
unfolding run insert_impl index_block_insert lower_bound_loop data_block_insert create_data_block
    create_block split_data link_split split split_at take_in new_root
insert_splits = refl

-- The erasure of 5 merges the two leaves, and the leaf becomes the root.
abbrev small_leaves : Tree ℕ
small_leaves =
    record (opened
      (head_block
        ∷ data_block (record { prev_index = 0; next_index = 2; pairs = (1, 10) ∷ [] })
        ∷ data_block (record { prev_index = 1; next_index = 0; pairs = high })
        ∷ index_block ((1, 1) ∷ (3, 2) ∷ [])
        ∷ [])
      3) { slots = 0 ∷ 0 ∷ 0 ∷ [] }

abbrev one_leaf : Tree ℕ
one_leaf =
    record (opened
      (head_block
        ∷ data_block (record { prev_index = 0; next_index = 0; pairs = (1, 10) ∷ (3, 30) ∷ [] })
        ∷ data_block (record { prev_index = 1; next_index = 0; pairs = [] })
        ∷ index_block ((1, 1) ∷ [])
        ∷ [])
      1) { valid_blocks_size = 2; deleted_blocks_size = 2; slots = 2 ∷ 3 ∷ 0 ∷ [] }

erase_merges : erase_pair 2 layout small_leaves 5 ≡ some (success, one_leaf)
unfolding run erase_pair erase_impl index_block_erase data_block_erase settle_data level_data
    take_out settle_index empty_or_own_index own_index drop_block shrink_root lower_bound_loop erase
    erase_block unlink_data set_next set_prev give_back rest_size merge_keep_average average
erase_merges = refl

-- Four pairs to a data block. The erasure of the keys from 5 to 9 averages the outer two leaves, so
-- that the last begins with 3; the search for the leaves in between then takes it for one of them.
abbrev small_layout : Layout
small_layout = record { key_size = 500; value_size = 500 }

abbrev three_leaves : Tree ℕ
three_leaves =
    opened
      (head_block
        ∷ data_block (record {
          prev_index = 0;
          next_index = 2;
          pairs = (1, 1) ∷ (2, 2) ∷ (3, 3) ∷ (4, 4) ∷ [];
        })
        ∷ data_block (record { prev_index = 1; next_index = 3; pairs = (6, 6) ∷ (7, 7) ∷ [] })
        ∷ data_block (record { prev_index = 2; next_index = 0; pairs = (9, 9) ∷ (10, 10) ∷ [] })
        ∷ index_block ((1, 1) ∷ (6, 2) ∷ (9, 3) ∷ [])
        ∷ [])
      4

range_erasure_loses :
    (do r ← erase_between 2 small_layout three_leaves 5 10; above_or_equal 1 r.1 0 9)
    ≡ some ((1, 1) ∷ (2, 2) ∷ [])
unfolding run erase_between above_or_equal rest_loop hop erase_range_impl index_in_one
    lower_bound_loop data_range_erase data_in_two merge_keep_average erase_range both_data
    first_of_data average erase_all_block clear_children update_key erase_block unlink_data set_next
    set_prev root_after give_back rest_size erase first_of_index find_data find_data_loop step_back
range_erasure_loses = refl
