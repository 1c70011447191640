-- ===== src/BpTree/Shape.antt =====
-- Base/BPTree_impls: what the blocks below one block hold. A `Shape` of height `h` gives the number of
-- the block and, for a data block, its pairs, for an index block the keys and the shapes of those
-- below; all data blocks stand at one depth.
use tiny_backend.Prelude.{
  ℕ, zero, suc, ◌≡◌, ◌≢◌, Option, none, some, List, [], ◌∷◌, ◌++◌, map, get_elem?, ◌⊎◌, ◌≤◌,
}
use tiny_backend.BpTree.{Block, data_block}
use tiny_backend.BpTree.Pairs.{first_key}
use tiny_backend.BpTree.Store.{Tree, as_index}
use tiny_backend.BpTree.Bound.{IsSorted}

module _ {ℓ κ} {A : Type ℓ} {B : Type κ} where
  abbrev pub concat_map : (A → List B) → List A → List B
  concat_map f [] = []
  concat_map f (x ∷ xs) = f x ++ concat_map f xs

abbrev pub All {ℓ κ} : {A : Type ℓ} → (A → Type κ) → List A → Type κ
All P [] = Unit
All P (x ∷ xs) = P x × All P xs

module _ {ℓ} {V : Type ℓ} where
  -- The pairs of a block of data.
  abbrev pub pairs_of : Option (Block V) → Option (List (ℕ × V))
  pairs_of (some (data_block d)) = some d.pairs
  pairs_of _ = none

module _ {ℓ} (V : Type ℓ) where
  abbrev pub Shape : ℕ → Type ℓ
  Shape zero = ℕ × List (ℕ × V)
  Shape (suc h) = ℕ × List (ℕ × Shape h)

  abbrev pub root : (h : ℕ) → Shape h → ℕ
  root zero s = s.0
  root (suc h) s = s.0

  abbrev pub contents : (h : ℕ) → Shape h → List (ℕ × V)
  contents zero s = s.1
  contents (suc h) s = concat_map (λ c. contents h c.1) s.1

  -- The blocks, and the data blocks from left to right.
  abbrev pub nodes : (h : ℕ) → Shape h → List ℕ
  nodes zero s = s.0 ∷ []
  nodes (suc h) s = s.0 ∷ concat_map (λ c. nodes h c.1) s.1

  abbrev pub leaves : (h : ℕ) → Shape h → List (ℕ × List (ℕ × V))
  leaves zero s = s ∷ []
  leaves (suc h) s = concat_map (λ c. leaves h c.1) s.1

  abbrev pub entry : (h : ℕ) → ℕ × Shape h → ℕ × ℕ
  entry h c = (c.0, root h c.1)

  -- The blocks hold the shape.
  abbrev pub IsStored : List (Block V) → (h : ℕ) → Shape h → Type ℓ
  IsStored bs zero s = pairs_of (get_elem? bs s.0) ≡ some s.1
  IsStored bs (suc h) s =
      (as_index (get_elem? bs s.0) ≡ some (map (entry h) s.1)) × All (λ c. IsStored bs h c.1) s.1

  -- Keys grow from left to right, no block is empty, and an index block names the first key of each
  -- block below.
  abbrev pub IsOrdered : (h : ℕ) → Shape h → Type ℓ
  IsOrdered zero s = IsSorted s.1 × (s.1 ≢ [])
  IsOrdered (suc h) s =
      IsSorted (concat_map (λ c. contents h c.1) s.1)
      × (s.1 ≢ [])
      × All (λ c. IsOrdered h c.1 × (first_key (contents h c.1) ≡ some c.0)) s.1

module _ {ℓ} {V : Type ℓ} where
  abbrev pub head_index : List (ℕ × List (ℕ × V)) → ℕ
  head_index [] = 0
  head_index (l ∷ ls) = l.0

  -- Data blocks one after another, none of them empty: `prev_index` and `next_index` name the
  -- neighbours.
  abbrev pub IsLinked : List (Block V) → (prev : ℕ) → List (ℕ × List (ℕ × V)) → Type ℓ
  IsLinked bs prev [] = Unit
  IsLinked bs prev (l ∷ ls) =
      (get_elem? bs l.0
        ≡ some (data_block (record { prev_index = prev; next_index = head_index ls; pairs = l.1 })))
      × (l.0 ≢ 0)
      × (l.1 ≢ [])
      × IsLinked bs l.0 ls

  -- The tree is the shape.
  pub record IsTree (t : Tree V) (h : ℕ) (s : Shape V h) : Type ℓ where
    pub at_root : t.begin_block_index ≡ root V h s
    pub in_use : t.begin_block_index ≢ 0
    pub stored : IsStored V t.blocks h s
    pub ordered : IsOrdered V h s
    pub linked : IsLinked t.blocks 0 (leaves V h s)

  -- The tree holds the pairs, on at most `fuel` levels of index blocks; an empty one has no root.
  abbrev pub HoldsPairs : (fuel : ℕ) → Tree V → List (ℕ × V) → Type ℓ
  HoldsPairs fuel t all =
      ((t.begin_block_index ≡ 0) × (all ≡ []))
      ⊎ ((h : ℕ) × (s : Shape V h) × IsTree t h s × (h ≤ fuel) × (all ≡ contents V h s))
