-- ===== src/Pool/Tree.antt =====
-- The tree of Base/Buffer/src/BufferPool.cpp: which entries fit together, and on which level a node
-- stands. A tree of `depth` levels below its root has blocks of `block_size` at its leaves.
use tiny_backend.Prelude.{
  ℕ, zero, suc, ◌+◌, ◌-◌, ◌*◌, ◌/◌, ◌%◌, ◌^◌, ◌≤◌, ◌<◌, max, ◌≡◌, ◌≢◌, ◌⊎◌, inl, inr, Bool, true,
  ◌&&◌, ◌||◌, List, [], ◌∷◌, length, set, leb, ◌==◌, if◌then◌else◌, arith, Bool-cases, ==_iff, refl,
}
use tiny_backend.Pool.{block_size, at, parent_sibling}

-- The size of the blocks `d` levels above the leaves.
unfoldable pub block : ℕ → ℕ
block zero = block_size
block (suc d) = block d * 2

-- An entry `x` over two entries for blocks of `b` bytes: the larger of them, unless both blocks are
-- free. Then they make one block, which is free or was handed out.
unfoldable pub is_joined : (b x l r : ℕ) → Bool
is_joined b x l r =
    leb l b && leb r b && (if l == b && r == b then (x == 0 || x == b * 2) else x == max l r)

unfoldable pub is_node : List ℕ → (d i : ℕ) → Bool
is_node rest zero i = at rest i == 0 || at rest i == block_size
is_node rest (suc d) i = is_joined (block d) (at rest i) (at rest (i * 2 + 1)) (at rest (i * 2 + 2))

-- The block of the node was handed out as a whole.
unfoldable pub is_handed_out : List ℕ → (d i : ℕ) → Bool
is_handed_out rest zero i = at rest i == 0
is_handed_out rest (suc d) i =
    at rest i == 0 && at rest (i * 2 + 1) == block d && at rest (i * 2 + 2) == block d

abbrev pub OnLevel : (n i : ℕ) → Type 0
OnLevel n i = (2 ^ n ≤ i + 1) × (i + 1 < 2 ^ n * 2)

-- Every node fits to those below it, but for the node above `i`.
abbrev pub FitsBut : (depth : ℕ) → List ℕ → ℕ → Type 0
FitsBut depth rest i =
    (n d j : ℕ) → n + d ≡ depth → OnLevel n j → (0 < i → j ≢ (i - 1) / 2) → is_node rest d j ≡ true

pub block_positive : (d : ℕ) → 0 < block d
unfolding block
block_positive zero = omega arith
block_positive (suc d) = omega (arith, block_positive d)

pub block-suc : (d : ℕ) → block (suc d) ≡ block d * 2
unfolding block
block-suc d = refl

pub is_joined_sym : (b x l r : ℕ) → is_joined b x l r ≡ is_joined b x r l
unfolding is_joined
is_joined_sym b x l r = ground arith

-- A free block below falls.
pub is_joined_fall :
    (b x l l' r : ℕ)
    → is_joined b x l r ≡ true
    → 0 < b
    → 0 < x
    → l' < b
    → l' ≤ l
    → (is_joined b (max l' r) l' r ≡ true)
      × (leb (max l' r) x ≡ true)
      × (max l' r < b * 2)
      × (max l' r ≤ x)
unfolding is_joined
is_joined_fall b x l l' r h hb hx hl h' = ground arith

-- A free block below rises.
pub is_joined_rise :
    (b x l l' r : ℕ)
    → is_joined b x l r ≡ true
    → 0 < b
    → l < b
    → l ≤ l'
    → l' ≤ b
    → let ms = if l' == b && b == r then b * 2 else max l' r in
      (is_joined b ms l' r ≡ true) × (leb x ms ≡ true) × (x < b * 2) × (x ≤ ms) × (ms ≤ b * 2)
unfolding is_joined
is_joined_rise b x l l' r h hb hl h' h'' = ground arith

pub at-set :
    (xs : List ℕ) (i v j : ℕ) → i < length xs → at (set xs i v) j ≡ (if i == j then v else at xs j)
at-set [] i v j h = absurd (omega arith)
at-set (x ∷ xs) zero v zero h = ground arith
at-set (x ∷ xs) zero v (suc j) h = ground arith
at-set (x ∷ xs) (suc i) v zero h = ground arith
at-set (x ∷ xs) (suc i) v (suc j) h = ground (arith, at-set xs i v j)

-- The node above, for both of the nodes below it.
pub parent_sibling-OnLevel :
    (n i : ℕ)
    → OnLevel (suc n) i
    → let (p, s) = parent_sibling i in
      (p ≡ (i - 1) / 2)
      × OnLevel n p
      × (((i ≡ p * 2 + 1) × (s ≡ p * 2 + 2)) ⊎ ((i ≡ p * 2 + 2) × (s ≡ p * 2 + 1)))
unfolding parent_sibling
parent_sibling-OnLevel n i (h, h') =
    let twice : 2 ^ suc n ≡ 2 ^ n * 2 = omega arith in
    let full : 0 < 2 ^ n = omega arith in
    elim (Bool-cases (i % 2 == 1)) [
      | inl odd ↦
          let q : i % 2 ≡ 1 = (==_iff (i % 2) 1).0 odd in
          rw odd (refl, (omega arith, omega arith), inl (omega arith, omega arith))
      | inr even ↦
          let q : i % 2 ≢ 1 = λ e. cc ((==_iff (i % 2) 1).1 e, even) in
          rw even (omega arith, (omega arith, omega arith), inr (omega arith, omega arith))
    ]
