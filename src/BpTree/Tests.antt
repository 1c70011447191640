-- ===== src/BpTree/Tests.antt =====
-- Each theorem on the tree at an input. Keys and values take so many bytes that
-- a data block holds two pairs and an index block four.
use tiny_backend.Prelude.{
  suc, true, replicate, length-replicate, ℕ, ◌≤◌, ◌≡◌, ◌≢◌, refl, ap, inl, inr, false, some, List,
  [], ◌∷◌, length, arith,
}
use tiny_backend.BpTree.{Layout, Block, head_block, record_block, data_block, index_block}
use tiny_backend.BpTree.Pairs.{lower_bound, lower_bound_loop, insert, split_at}
use tiny_backend.BpTree.Free.{give_back}
use tiny_backend.BpTree.Bound.{IsSorted, lower_bound-le, lower_bound-rank}
use tiny_backend.BpTree.Store.{Tree}
use tiny_backend.BpTree.Insert.{fail, can_insert_data, can_insert_index, insert_pair}
use tiny_backend.BpTree.Search.{
  lower_bound_in, find, find_range, find_data, find_data_loop, step_back, above_or_equal,
  upper_bound,
}
use tiny_backend.BpTree.Shape.{Shape, HoldsPairs}
use tiny_backend.BpTree.Find.{
  upper_bound-head, find-lookup, find_range-contents, above_or_equal-contents,
}
use tiny_backend.BpTree.Halves.{split_at-halves}
use tiny_backend.BpTree.Erase.{erase_pair}
use tiny_backend.BpTree.Ends.{search_from_begin}
use tiny_backend.BpTree.Lower.{lower_bound-head}
use tiny_backend.BpTree.Whole.{search_from_begin-contents}
use tiny_backend.BpTree.Reuse.{Reused, IsReady, give_back-Reused}
use tiny_backend.BpTree.Absent.{erase-absent}
use tiny_backend.BpTree.Grow.{ins}
use tiny_backend.BpTree.Grow.Root.{Built}
use tiny_backend.BpTree.Grow.Held.{Built-HoldsPairs, FoundAfter, find-insert}

run : Unit {0}
unfolding lower_bound insert_pair find find_range can_insert_data can_insert_index insert
run = tt

abbrev pub layout : Layout
layout = record { key_size = 1000; value_size = 1000 }

abbrev pub opened : List (Block ℕ) → ℕ → Tree ℕ
opened blocks begin = record {
  blocks = blocks;
  begin_block_index = begin;
  valid_blocks_size = length blocks;
  begin_record_block_index = 0;
  deleted_blocks_size = 0;
  extra_size = 0;
  slots = [];
  deleted_record_index = 0;
  has_record = false;
}

abbrev pub low : List (ℕ × ℕ)
low = (1, 10) ∷ (2, 20) ∷ []

abbrev pub high : List (ℕ × ℕ)
high = (3, 30) ∷ (5, 50) ∷ []

abbrev pub two_leaves : Tree ℕ
two_leaves =
    opened
      (head_block
        ∷ data_block (record { prev_index = 0; next_index = 2; pairs = low })
        ∷ data_block (record { prev_index = 1; next_index = 0; pairs = high })
        ∷ index_block ((1, 1) ∷ (3, 2) ∷ [])
        ∷ [])
      3

abbrev all : List (ℕ × ℕ)
all = (1, 10) ∷ (2, 20) ∷ (3, 30) ∷ (5, 50) ∷ []

abbrev shape : Shape ℕ 1
shape = (3, (1, (1, low)) ∷ (3, (2, high)) ∷ [])

not_nil : (x : ℕ × ℕ) (xs : List (ℕ × ℕ)) → x ∷ xs ≢ []
not_nil x xs e = absurd (omega (arith, ap length e))

low-IsSorted : IsSorted low
low-IsSorted = ((omega arith, tt), (tt, tt))

high-IsSorted : IsSorted high
high-IsSorted = ((omega arith, tt), (tt, tt))

all-IsSorted : IsSorted all
all-IsSorted = (
  (omega arith, (omega arith, (omega arith, tt))),
  ((omega arith, (omega arith, tt)), ((omega arith, tt), (tt, tt))),
)

two_leaves-Built : Built ℕ 1 two_leaves all
two_leaves-Built = record {
  none_free = refl;
  positive = omega arith;
  tree = inr (
    1,
    shape,
    record {
      none_free = refl;
      positive = omega arith;
      nodes = (refl, (tt, (tt, tt)));
      row = (
        refl,
        (λ e. absurd (omega (arith, e))),
        not_nil _ _,
        (refl, (λ e. absurd (omega (arith, e))), not_nil _ _, tt),
      );
      sorted = all-IsSorted;
      ordered = (
        all-IsSorted,
        (λ e. absurd (omega (arith, ap length e))),
        (((low-IsSorted, not_nil _ _), refl), (((high-IsSorted, not_nil _ _), refl), tt)),
      );
      distinct = (refl, tt);
    },
    refl,
    (λ e. absurd (omega (arith, e))),
    omega arith,
    refl,
  );
}

two_leaves-HoldsPairs : HoldsPairs 1 two_leaves all
two_leaves-HoldsPairs = Built-HoldsPairs ℕ 1 two_leaves all two_leaves-Built

find-insert_example :
    FoundAfter ℕ (insert_pair 2 layout two_leaves 4 40) 2 (ins all 4 40) 4 (some (some (4, 40)))
unfolding run find_data find_data_loop step_back lower_bound_loop
find-insert_example =
    find-insert ℕ layout two_leaves 1 all 4 40 4 two_leaves-Built refl refl refl refl

find-lookup_example : find 1 two_leaves 3 ≡ some (some (3, 30))
find-lookup_example = find-lookup two_leaves 1 3 all two_leaves-HoldsPairs

find_range-contents_example : find_range 1 two_leaves 2 5 7 ≡ some ((2, 20) ∷ (3, 30) ∷ [])
find_range-contents_example =
    find_range-contents two_leaves 1 2 5 7 all two_leaves-HoldsPairs (omega arith)

lower_bound-le_example : lower_bound high 4 ≤ 2
lower_bound-le_example = lower_bound-le high 4

lower_bound-rank_example : lower_bound all 4 ≡ 3
lower_bound-rank_example = lower_bound-rank all 4 all-IsSorted

above_or_equal-contents_example : above_or_equal 1 two_leaves 2 2 ≡ some ((2, 20) ∷ (3, 30) ∷ [])
above_or_equal-contents_example = above_or_equal-contents two_leaves 1 2 2 all two_leaves-HoldsPairs

split_at-halves_example : split_at all 3 4 40 ≡ (low, (3, 30) ∷ (4, 40) ∷ (5, 50) ∷ [])
unfolding run
split_at-halves_example = split_at-halves all 3 4 40 (omega arith)

two_leaves-HoldsPairs5 : HoldsPairs 5 two_leaves all
two_leaves-HoldsPairs5 = elim two_leaves-HoldsPairs [
  | inl e ↦ inl e
  | inr (h, s, it, le, e) ↦ inr (h, s, it, omega arith, e)
]

upper_bound-head_example : upper_bound 5 two_leaves 2 ≡ some (some (3, 30))
upper_bound-head_example = upper_bound-head two_leaves 5 2 all two_leaves-HoldsPairs5 (omega arith)

erase-absent_example : erase_pair 2 layout two_leaves 4 ≡ some (fail, two_leaves)
erase-absent_example = erase-absent ℕ layout 4 two_leaves 1 all two_leaves-HoldsPairs refl

-- A record block with one number in it.
abbrev with_record : Tree ℕ
with_record = record (opened (head_block ∷ record_block 0 1 (7 ∷ replicate 1021 0) ∷ []) 0) {
  deleted_blocks_size = 1;
  begin_record_block_index = 1;
  deleted_record_index = 1;
  has_record = true;
}

with_record-IsReady : IsReady with_record
with_record-IsReady = record {
  head_room = λ e. absurd (ground arith);
  head_full = λ e. absurd (ground arith);
  in_record = λ e. (
    0,
    1,
    7 ∷ replicate 1021 0,
    refl,
    omega arith,
    ap suc (length-replicate {A = ℕ} 1021 0),
    inl (omega arith),
  );
}

give_back-Reused_example : Reused with_record (give_back 5 with_record) 5
give_back-Reused_example = give_back-Reused with_record 5 with_record-IsReady

search_from_begin-contents_example :
    search_from_begin 1 two_leaves 3 ≡ some ((1, 10) ∷ (2, 20) ∷ (3, 30) ∷ [])
search_from_begin-contents_example =
    search_from_begin-contents ℕ two_leaves 1 3 all two_leaves-HoldsPairs

lower_bound-head_example : lower_bound_in 1 two_leaves 4 ≡ some (some (5, 50))
lower_bound-head_example = lower_bound-head two_leaves 1 4 all two_leaves-HoldsPairs
