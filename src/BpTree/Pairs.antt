-- ===== src/BpTree/Pairs.antt =====
-- Base/BPTree_impls/IndexBlock_Impl.hpp and DataBlock_Impl.hpp: the pairs of one block. The two
-- classes move them alike, where the values have a fixed size; `A` is a pointer or a value. A
-- `memmove` of whole pairs within a block, or a `memcpy` to another, is a cut of the lists.
use tiny_backend.Prelude.{
  ℕ, zero, suc, ◌+◌, ◌-◌, ◌/◌, true, false, Option, none, some, List, [], ◌∷◌, ◌++◌, length, take,
  drop, ltb, leb, ◌==◌, if◌then◌else◌,
}

-- The answers of `merge_keep_average`: 1, 0 and -1.
pub data Choice : Type 0 where
  merging keeping averaging : Choice

-- Of two blocks of `this_size` and `other_size` bytes of pairs, in blocks that hold `max_size`.
unfoldable pub merge_keep_average : (max_size this_size other_size : ℕ) → Choice
merge_keep_average max_size this_size other_size =
    if leb (this_size + other_size) max_size
    then merging
    else (let difference =
          if ltb other_size this_size then this_size - other_size else other_size - this_size in
        if ltb difference (max_size / 2) then keeping else averaging)

module _ {ℓ} {A : Type ℓ} where
  -- The key of the pair at a place.
  abbrev pub key_at : List (ℕ × A) → ℕ → ℕ
  key_at [] i = 0
  key_at (x ∷ es) zero = x.0
  key_at (x ∷ es) (suc i) = key_at es i

  abbrev pub first_key : List (ℕ × A) → Option ℕ
  first_key [] = none
  first_key (x ∷ es) = some x.0

  unfoldable pub insert : List (ℕ × A) → (pos key : ℕ) → A → List (ℕ × A)
  insert es pos key a = take pos es ++ (key, a) ∷ drop pos es

  unfoldable pub update_key : List (ℕ × A) → (pos key : ℕ) → List (ℕ × A)
  update_key [] pos key = []
  update_key (x ∷ es) zero key = (key, x.1) ∷ es
  update_key (x ∷ es) (suc pos) key = x ∷ update_key es pos key

  unfoldable pub erase : List (ℕ × A) → (pos : ℕ) → List (ℕ × A)
  erase es pos = take pos es ++ drop (suc pos) es

  unfoldable pub erase_range : List (ℕ × A) → (begin end : ℕ) → List (ℕ × A)
  erase_range es begin end = take begin es ++ drop end es

  -- The binary search of `lower_bound`, between two places. Each test of the loop takes one unit of
  -- fuel. A loop that has not ended when the fuel is used up gives a place past the end, which no exit
  -- of the loop gives.
  unfoldable pub lower_bound_loop : (fuel : ℕ) → List (ℕ × A) → (key begin end : ℕ) → ℕ
  lower_bound_loop zero es key begin end = suc (length es)
  lower_bound_loop (suc fuel) es key begin end =
      let mid = begin + (end - begin) / 2 in
      elim (ltb 0 (end - begin)) [
        | false ↦ end
        | true ↦ elim (ltb (key_at es mid) key) [
          | true ↦ lower_bound_loop fuel es key (suc mid) end
          | false ↦ elim (key_at es mid == key) [
            | true ↦ mid
            | false ↦ lower_bound_loop fuel es key begin mid
          ]
        ]
      ]

  unfoldable pub lower_bound : List (ℕ × A) → (key : ℕ) → ℕ
  lower_bound es key = lower_bound_loop (suc (length es)) es key 0 (length es)

  -- `split` where the new pair goes to `pos`: what stays, and the pairs of the new block. It leaves
  -- the left block half of the pairs, the new one among them.
  unfoldable pub split_at : List (ℕ × A) → (pos key : ℕ) → A → List (ℕ × A) × List (ℕ × A)
  split_at es pos key a =
      let target_size = (length es + 1) / 2 in
      if ltb pos target_size
      then (insert (take (target_size - 1) es) pos key a, drop (target_size - 1) es)
      else (take target_size es, insert (drop target_size es) (pos - target_size) key a)

  unfoldable pub split : List (ℕ × A) → (key : ℕ) → A → List (ℕ × A) × List (ℕ × A)
  split es key a = split_at es (lower_bound es key) key a

  unfoldable pub average : List (ℕ × A) → List (ℕ × A) → List (ℕ × A) × List (ℕ × A)
  average this other =
      let half = (length this + length other) / 2 in
      if ltb (length other) (length this)
      then (take half this, drop half this ++ other)
      else (let moved = length other - half in (this ++ take moved other, drop moved other))
