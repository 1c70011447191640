-- ===== src/BpTree/Grow/Made.antt =====
-- Base/BPTree_impls/BPTree.hpp: where an insertion stands in the tree, and what it leaves there.
use tiny_backend.Prelude.{
  ℕ, ◌≤◌, ◌<◌, ◌≡◌, ◌⊎◌, true, Option, none, some, List, [], ◌∷◌, ◌++◌, length,
}
use tiny_backend.BpTree.Pairs.{first_key}
use tiny_backend.BpTree.Bound.{IsSorted}
use tiny_backend.BpTree.Store.{Tree}
use tiny_backend.BpTree.Insert.{IterKey, Inserted, success}
use tiny_backend.BpTree.Shape.{concat_map, All, Shape, root, contents, leaves, IsOrdered}
use tiny_backend.BpTree.Rows.{IsRow}
use tiny_backend.BpTree.Nodes.{inside, Distinct, inodes, IsNodes, Keeps}
use tiny_backend.BpTree.Grow.{ins}

module _ {ℓ} (V : Type ℓ) where
  -- A row of data blocks.
  abbrev pub Row : Type ℓ
  Row = List (ℕ × List (ℕ × V))

  -- The block `s` with the data blocks left and right of it, in a tree without deleted blocks.
  pub record Context (t : Tree V) (before after : Row) (h : ℕ) (s : Shape V h) : Type ℓ where
    pub none_free : t.deleted_blocks_size ≡ 0
    pub positive : 0 < length t.blocks
    pub nodes : IsNodes V t.blocks h s
    pub row : IsRow t.blocks 0 0 (before ++ (leaves V h s ++ after))
    pub sorted : IsSorted (concat_map (λ l. l.1) (before ++ (leaves V h s ++ after)))
    pub ordered : IsOrdered V h s
    pub distinct : Distinct (inodes V h s)

  -- The `IterKey` for a block that was split off.
  abbrev pub link : (h : ℕ) → Option (ℕ × Shape V h) → IterKey
  link h none = none
  link h (some c) = some (root V h c.1, c.0)

  abbrev pub made : (h : ℕ) → ℕ × Shape V h → Option (ℕ × Shape V h) → List (ℕ × Shape V h)
  made h c none = c ∷ []
  made h c (some d) = c ∷ d ∷ []

  abbrev pub Good : (h : ℕ) → ℕ × Shape V h → Type ℓ
  Good h c = IsOrdered V h c.1 × (first_key (contents V h c.1) ≡ some c.0)

  -- The block after the insertion, and the one that was split off it, with their first keys.
  pub record Grown (t t' : Tree V) (before after : Row) (h : ℕ) (s : Shape V h) (k : ℕ) (v : V)
      (up : IterKey) : Type ℓ where
    pub first : ℕ × Shape V h
    pub off : Option (ℕ × Shape V h)
    pub up_is : up ≡ link h off
    pub same_root : root V h first.1 ≡ root V h s
    pub nodes : All (λ c. IsNodes V t'.blocks h c.1) (made h first off)
    pub row :
        IsRow t'.blocks 0 0
          (before ++ (concat_map (λ c. leaves V h c.1) (made h first off) ++ after))
    pub good : All (Good h) (made h first off)
    pub whole : concat_map (λ c. contents V h c.1) (made h first off) ≡ ins (contents V h s) k v
    pub distinct : Distinct (concat_map (λ c. inodes V h c.1) (made h first off))
    pub old_or_new :
        (j : ℕ)
        → inside j (concat_map (λ c. inodes V h c.1) (made h first off)) ≡ true
        → (inside j (inodes V h s) ≡ true) ⊎ (length t.blocks ≤ j)
    pub keeps : Keeps V t.blocks t'.blocks (inodes V h s)
    pub none_free : t'.deleted_blocks_size ≡ 0
    pub same_begin : t'.begin_block_index ≡ t.begin_block_index
    pub grows : length t.blocks ≤ length t'.blocks

  -- A run that succeeds so.
  pub record Inserts (run : Option (Inserted V)) (t : Tree V) (before after : Row) (h : ℕ)
      (s : Shape V h) (k : ℕ) (v : V) : Type ℓ where
    pub up : IterKey
    pub t' : Tree V
    pub ran : run ≡ some (success, up, t')
    pub grown : Grown t t' before after h s k v up
