-- ===== src/BpTree/Search.antt =====
-- Base/BPTree_impls/BPTree.hpp: the searches. A loop down the tree takes one unit of fuel for each
-- index block; the loops along the data blocks end by their limit. A `Result {}` is an inner `none`.
use tiny_backend.Prelude.Partial.{◌>>=◌, ◌>>◌, assert}
use tiny_backend.Prelude.{
  ℕ, zero, suc, ◌-◌, Bool, true, false, not, ◌&&◌, ◌||◌, Option, none, some, List, [], ◌∷◌, length,
  get_elem?, ltb, ◌==◌, if◌then◌else◌,
}
use tiny_backend.BpTree.{DataBlock}
use tiny_backend.BpTree.Pairs.{key_at, lower_bound}
use tiny_backend.BpTree.Store.{Tree, get_data, get_index, is_data_block, pointer_at}

-- The step back of `find_data` from the lower bound to the child whose keys begin at or before `key`.
unfoldable pub step_back : List (ℕ × ℕ) → (key pos : ℕ) → ℕ
step_back es key pos =
    if pos == length es || (not (pos == 0) && ltb key (key_at es pos)) then pos - 1 else pos

module _ {ℓ} {V : Type ℓ} where
  unfoldable pub find_data_loop : (fuel : ℕ) → Tree V → (key index : ℕ) → Option ℕ
  find_data_loop zero t key index = none
  find_data_loop (suc fuel) t key index = do
    es ← get_index t index
    let pos = step_back es key (lower_bound es key)
    child ← pointer_at es pos
    on_data ← is_data_block t child
    elim on_data [
      | false ↦ find_data_loop fuel t key child
      | true ↦ do child' ← pointer_at es (step_back es key pos); _ ← get_data t child'; some child'
    ]

  unfoldable pub find_data : (fuel : ℕ) → Tree V → (key : ℕ) → Option (Option ℕ)
  find_data fuel t key = if t.begin_block_index == 0 then some none else (do
    on_data ← is_data_block t t.begin_block_index
    elim on_data [
      | true ↦ some (some t.begin_block_index)
      | false ↦ do index ← find_data_loop fuel t key t.begin_block_index; some (some index)
    ])

  -- What the searches do with the data block of a key; an empty tree gives `default`.
  abbrev pub in_data {κ} :
      {R : Type κ} → (fuel : ℕ) → Tree V → (key : ℕ) → R → (DataBlock V → Option R) → Option R
  in_data fuel t key default f = do
    found ← find_data fuel t key
    elim found [ none ↦ some default | some index ↦ do d ← get_data t index; f d ]

  unfoldable pub find : (fuel : ℕ) → Tree V → (key : ℕ) → Option (Option (ℕ × V))
  find fuel t key = in_data fuel t key none (λ d.
      let pos = lower_bound d.pairs key in
      if pos == length d.pairs || ltb key (key_at d.pairs pos)
      then some none
      else some (get_elem? d.pairs pos))

  -- `to_next` and `to_prev`.
  abbrev pub to_next : Tree V → DataBlock V → Option (DataBlock V)
  to_next t d = get_data t d.next_index

  abbrev pub to_prev : Tree V → DataBlock V → Option (DataBlock V)
  to_prev t d = get_data t d.prev_index

  abbrev pub have_next : DataBlock V → Bool
  have_next d = not (d.next_index == 0)

  abbrev pub have_prev : DataBlock V → Bool
  have_prev d = not (d.prev_index == 0)

  -- From the end of a block to the begin of the next.
  unfoldable pub hop : Tree V → DataBlock V → (pos : ℕ) → Option (DataBlock V × ℕ)
  hop t d pos =
      if pos == length d.pairs && have_next d
      then (do d' ← to_next t d; some (d', 0))
      else some (d, pos)

  unfoldable pub lower_bound_in : (fuel : ℕ) → Tree V → (key : ℕ) → Option (Option (ℕ × V))
  lower_bound_in fuel t key = in_data fuel t key none (λ d.
      let pos = lower_bound d.pairs key in
      if pos == length d.pairs
      then (if not (have_next d)
          then some none
          else (do d' ← to_next t d; some (get_elem? d'.pairs 0)))
      else some (get_elem? d.pairs pos))

  unfoldable pub upper_bound_loop :
      (fuel : ℕ) → Tree V → (key : ℕ) → DataBlock V → (pos : ℕ) → Option (Option (ℕ × V))
  upper_bound_loop zero t key d pos = none
  upper_bound_loop (suc fuel) t key d pos = do
    at ← hop t d pos
    elim (at.1 == length at.0.pairs) [
      | true ↦ some none
      | false ↦ elim (ltb key (key_at at.0.pairs at.1)) [
        | true ↦ some (get_elem? at.0.pairs at.1)
        | false ↦ upper_bound_loop fuel t key at.0 (suc at.1)
      ]
    ]

  unfoldable pub upper_bound : (fuel : ℕ) → Tree V → (key : ℕ) → Option (Option (ℕ × V))
  upper_bound fuel t key =
      in_data fuel t key none (λ d. upper_bound_loop fuel t key d (lower_bound d.pairs key))

  -- `results.add(iter)`, then the rest of the loop.
  abbrev pub add_then : DataBlock V → (pos : ℕ) → Option (List (ℕ × V)) → Option (List (ℕ × V))
  add_then d pos rest = do x ← get_elem? d.pairs pos; xs ← rest; some (x ∷ xs)

  unfoldable pub find_range_loop :
      (limit : ℕ) → Tree V → (end : ℕ) → DataBlock V → (pos : ℕ) → Option (List (ℕ × V))
  find_range_loop zero t end d pos = some []
  find_range_loop (suc limit) t end d pos = do
    at ← hop t d pos
    elim (at.1 == length at.0.pairs) [
      | true ↦ some []
      | false ↦ elim (ltb (key_at at.0.pairs at.1) end) [
        | true ↦ add_then at.0 at.1 (find_range_loop limit t end at.0 (suc at.1))
        | false ↦ some []
      ]
    ]

  unfoldable pub find_range : (fuel : ℕ) → Tree V → (begin end limit : ℕ) → Option (List (ℕ × V))
  find_range fuel t begin end limit =
      if ltb end begin || begin == end
      then some []
      else in_data fuel t begin [] (λ d. find_range_loop limit t end d (lower_bound d.pairs begin))

  -- The loops of `above_or_equal` and of `search_from_begin`.
  unfoldable pub rest_loop : (limit : ℕ) → Tree V → DataBlock V → (pos : ℕ) → Option (List (ℕ × V))
  rest_loop zero t d pos = some []
  rest_loop (suc limit) t d pos = elim (not (pos == length d.pairs) || have_next d) [
    | false ↦ some []
    | true ↦ do
      at ← hop t d pos
      assert (not (at.1 == length at.0.pairs))
      add_then at.0 at.1 (rest_loop limit t at.0 (suc at.1))
  ]

  unfoldable pub above_or_equal : (fuel : ℕ) → Tree V → (key limit : ℕ) → Option (List (ℕ × V))
  above_or_equal fuel t key limit =
      in_data fuel t key [] (λ d. rest_loop limit t d (lower_bound d.pairs key))

  unfoldable pub below_loop :
      (limit : ℕ) → Tree V → (key : ℕ) → DataBlock V → (pos : ℕ) → Option (List (ℕ × V))
  below_loop zero t key d pos = some []
  below_loop (suc limit) t key d pos =
      elim ((not (pos == length d.pairs) && ltb (key_at d.pairs pos) key)
        || (pos == length d.pairs && have_next d)) [
          | false ↦ some []
          | true ↦ do
            at ← hop t d pos
            assert (not (at.1 == length at.0.pairs))
            add_then at.0 at.1 (below_loop limit t key at.0 (suc at.1))
        ]
