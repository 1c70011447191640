-- ===== src/BpTree/Ends.antt =====
-- Base/BPTree_impls/BPTree.hpp: the searches from the two ends of the tree, and the updates in place.
use tiny_backend.Prelude.Partial.{◌>>=◌, ◌>>◌, assert}
use tiny_backend.Prelude.{
  ℕ, zero, suc, ◌-◌, Bool, true, false, not, ◌||◌, Option, none, some, List, [], ◌∷◌, length,
  get_elem?, take, ◌==◌, if◌then◌else◌,
}
use tiny_backend.BpTree.{DataBlock}
use tiny_backend.BpTree.Pairs.{key_at, lower_bound}
use tiny_backend.BpTree.Store.{Tree, get_data, get_index, is_data_block, pointer_at, put_pairs}
use tiny_backend.BpTree.Search.{find_data, to_prev, have_prev, add_then, rest_loop, below_loop}

module _ {ℓ} {V : Type ℓ} where
  -- The loops down along the first pointers, and along the last ones.
  unfoldable pub first_data : (fuel : ℕ) → Tree V → (index : ℕ) → Option (DataBlock V)
  first_data zero t index = none
  first_data (suc fuel) t index = do
    es ← get_index t index
    child ← pointer_at es 0
    on_data ← is_data_block t child
    elim on_data [ true ↦ get_data t child | false ↦ first_data fuel t child ]

  unfoldable pub last_data : (fuel : ℕ) → Tree V → (index : ℕ) → Option (DataBlock V)
  last_data zero t index = none
  last_data (suc fuel) t index = do
    es ← get_index t index
    child ← pointer_at es (length es - 1)
    on_data ← is_data_block t child
    elim on_data [ true ↦ get_data t child | false ↦ last_data fuel t child ]

  unfoldable pub below : (fuel : ℕ) → Tree V → (key limit : ℕ) → Option (List (ℕ × V))
  below fuel t key limit = if t.begin_block_index == 0 then some [] else (do
    on_data ← is_data_block t t.begin_block_index
    elim on_data [
      | true ↦ do
        d ← get_data t t.begin_block_index
        some (take limit (take (lower_bound d.pairs key) d.pairs))
      | false ↦ do d ← first_data fuel t t.begin_block_index; below_loop limit t key d 0
    ])

  unfoldable pub search_from_begin : (fuel : ℕ) → Tree V → (limit : ℕ) → Option (List (ℕ × V))
  search_from_begin fuel t limit = if t.begin_block_index == 0 then some [] else (do
    on_data ← is_data_block t t.begin_block_index
    elim on_data [
      | true ↦ do d ← get_data t t.begin_block_index; some (take limit d.pairs)
      | false ↦ do d ← first_data fuel t t.begin_block_index; rest_loop limit t d 0
    ])

  -- The loop back from `pos` in one block, and the loop along the blocks.
  unfoldable pub back_loop : (limit : ℕ) → DataBlock V → (pos : ℕ) → Option (List (ℕ × V))
  back_loop zero d pos = some []
  back_loop (suc limit) d zero = some []
  back_loop (suc limit) d (suc pos) = add_then d pos (back_loop limit d pos)

  unfoldable pub hop_back : Tree V → DataBlock V → (pos : ℕ) → Option (DataBlock V × ℕ)
  hop_back t d pos =
      if pos == 0
      then (do d' ← to_prev t d; assert (not (length d'.pairs == 0)); some (d', length d'.pairs))
      else some (d, pos)

  unfoldable pub end_loop : (limit : ℕ) → Tree V → DataBlock V → (pos : ℕ) → Option (List (ℕ × V))
  end_loop zero t d pos = some []
  end_loop (suc limit) t d pos = elim (not (pos == 0) || have_prev d) [
    | false ↦ some []
    | true ↦ do at ← hop_back t d pos; add_then at.0 (at.1 - 1) (end_loop limit t at.0 (at.1 - 1))
  ]

  unfoldable pub search_from_end : (fuel : ℕ) → Tree V → (limit : ℕ) → Option (List (ℕ × V))
  search_from_end fuel t limit = if t.begin_block_index == 0 then some [] else (do
    on_data ← is_data_block t t.begin_block_index
    elim on_data [
      | true ↦ do d ← get_data t t.begin_block_index; back_loop limit d (length d.pairs)
      | false ↦ do d ← last_data fuel t t.begin_block_index; end_loop limit t d (length d.pairs)
    ])

  -- The update of a value of a fixed size always fits.
  unfoldable pub update_value : List (ℕ × V) → (pos : ℕ) → V → List (ℕ × V)
  update_value [] pos value = []
  update_value (x ∷ ps) zero value = (x.0, value) ∷ ps
  update_value (x ∷ ps) (suc pos) value = x ∷ update_value ps pos value

  -- `find_for_update`, and `update` where the function gives the new value whatever the old one is.
  unfoldable pub find_for_update :
      (fuel : ℕ) → Tree V → (key : ℕ) → (V → V) → Option (Bool × Tree V)
  find_for_update fuel t key fun = do
    found ← find_data fuel t key
    elim found [
      | none ↦ some (false, t)
      | some index ↦ do
        d ← get_data t index
        let pos = lower_bound d.pairs key
        (if pos == length d.pairs || not (key_at d.pairs pos == key) then some (false, t) else (do
          x ← get_elem? d.pairs pos
          some (true, put_pairs t index d (update_value d.pairs pos (fun x.1)))))
    ]

  unfoldable pub update : (fuel : ℕ) → Tree V → (key : ℕ) → V → Option (Bool × Tree V)
  update fuel t key value = find_for_update fuel t key (λ _. value)
