-- ===== src/Pool/Descent.antt =====
-- `positioning` of Base/Buffer/src/BufferPool.cpp: the way down to a free block of a size.
use tiny_backend.Prelude.{
  ℕ, zero, suc, ◌+◌, ◌*◌, ◌/◌, ◌%◌, ◌^◌, ◌≤◌, ◌<◌, ◌≡◌, ◌⊎◌, inl, inr, refl, sym, ap, true, false,
  ◌&&◌, ◌||◌, Option, some, List, ltb, leb, ◌==◌, arith, Bool-cases, ==_iff, if◌then◌else◌,
}
use tiny_backend.Pool.{at, parent_sibling, descend}
use tiny_backend.Pool.Tree.{block, block-suc, block_positive, is_joined, is_node, OnLevel, FitsBut}
use tiny_backend.Pool.Sizes.{block_above, block_le}
use tiny_backend.Pool.Loops.{Alive}

-- Below a node with room for the size, one side has it, and that side is taken.
is_joined_choice :
    (b x l r size : ℕ)
    → is_joined b x l r ≡ true
    → size ≤ x
    → size ≤ b
    → 0 < size
    → let go_left = ltb r size || (leb size l && leb l r) in
      (leb size l || leb size r ≡ true) × (size ≤ (if go_left then l else r))
unfolding is_joined
is_joined_choice b x l r size h hx hb h0 = ground arith

-- An entry is no larger than the block.
pub is_node_bound : (rest : List ℕ) (d i : ℕ) → is_node rest d i ≡ true → at rest i ≤ block d
unfolding is_node is_joined block
is_node_bound rest zero i h = ground arith
is_node_bound rest (suc d) i h = ground arith

parent_left : (i : ℕ) → (parent_sibling (i * 2 + 1)).0 ≡ i
unfolding parent_sibling
parent_left i = rw ((==_iff ((i * 2 + 1) % 2) 1).1 (omega arith)) (omega arith)

parent_right : (i : ℕ) → (parent_sibling (i * 2 + 2)).0 ≡ i
unfolding parent_sibling
parent_right i = let even : ((i * 2 + 2) % 2 == 1) ≡ false = ground arith in rw even (omega arith)

module _ (depth : ℕ) where
  -- A node with a free block of `block e` bytes, under nodes that have it too.
  pub record Found (rest : List ℕ) (e : ℕ) (result : Option (ℕ × ℕ)) : Type 0 where
    pub node : ℕ
    pub below : ℕ
    pub returned : result ≡ some (node, below)
    pub height : below + e ≡ depth
    pub level : OnLevel below node
    pub free : at rest node ≡ block e
    pub alive : Alive rest below node

  descend_here :
      (fuel : ℕ) (rest : List ℕ) (n d e i : ℕ)
      → e ≡ d
      → FitsBut depth rest 0
      → n + d ≡ depth
      → OnLevel n i
      → block e ≤ at rest i
      → Alive rest n i
      → Found rest e (descend (suc fuel) rest i n (block d) (block e))
  unfolding descend
  descend_here fuel rest n d e i same fits sum level free a =
      let bound = is_node_bound rest d i (fits n d i sum level (λ h. absurd (omega arith))) in
      let equal : block d ≡ block e = ap block (sym same) in
      record {
        node = i;
        below = n;
        returned = rw ((==_iff (block d) (block e)).1 equal) refl;
        height = omega arith;
        level = level;
        free = omega (arith, bound, free, equal);
        alive = a;
      }

  -- The way goes on from the side that is taken, a node below `i`.
  descend_below :
      (fuel : ℕ) (rest : List ℕ) (n d e i c : ℕ)
      → OnLevel n i
      → block e ≤ at rest i
      → Alive rest n i
      → (c ≡ i * 2 + 1) ⊎ (c ≡ i * 2 + 2)
      → (OnLevel (suc n) c
          → Alive rest (suc n) c
          → Found rest e (descend fuel rest c (suc n) (block d) (block e)))
      → Found rest e (descend fuel rest c (n + 1) (block (suc d) / 2) (block e))
  unfolding Alive
  descend_below fuel rest n d e i c level free a side found =
      let twice : 2 ^ suc n ≡ 2 ^ n * 2 = omega arith in
      let half : block (suc d) / 2 ≡ block d = omega (arith, block-suc d) in
      let next : n + 1 ≡ suc n = omega arith in
      let above : (parent_sibling c).0 ≡ i = elim side [
        | inl l ↦ rw l (parent_left i)
        | inr r ↦ rw r (parent_right i)
      ] in
      rw (half, next)
        (found (grind (arith, side), grind (arith, side))
          (rw above (omega (arith, block_positive e, free), a)))

  pub descend-Found :
      (fuel : ℕ) (rest : List ℕ) (n d e i : ℕ)
      → FitsBut depth rest 0
      → n + d ≡ depth
      → e ≤ d
      → d < e + fuel
      → OnLevel n i
      → block e ≤ at rest i
      → Alive rest n i
      → Found rest e (descend fuel rest i n (block d) (block e))
  unfolding descend is_node
  descend-Found zero rest n d e i fits sum h h' level free a = absurd (omega arith)
  descend-Found (suc fuel) rest n zero e i fits sum h h' level free a =
      descend_here fuel rest n zero e i (omega arith) fits sum level free a
  descend-Found (suc fuel) rest n (suc d) e i fits sum h h' level free a =
      let left = at rest (i * 2 + 1) in
      let right = at rest (i * 2 + 2) in
      let go_left = ltb right (block e) || (leb (block e) left && leb left right) in
      elim (Bool-cases (e == suc d)) [
        | inl same ↦
            descend_here fuel rest n (suc d) e i ((==_iff e (suc d)).0 same) fits sum level free a
        | inr other ↦
            let e_in : e ≤ d = ground arith in
            let deeper : (block (suc d) == block e) ≡ false =
              ground (arith, block_above e (suc d) (omega arith), block_positive e) in
            let (found, wide) =
              is_joined_choice (block d) (at rest i) left right (block e)
                (fits n (suc d) i sum level (λ h. absurd (omega arith))) free (block_le e d e_in)
                (block_positive e) in
            elim (Bool-cases go_left) [
              | inl l ↦
                  rw (deeper, found, l)
                    (descend_below fuel rest n d e i (i * 2 + 1) level free a (inl refl)
                      (λ level' a'.
                        descend-Found fuel rest (suc n) d e (i * 2 + 1) fits (omega arith) e_in
                          (omega arith) level' (rw l at wide) a'))
              | inr r ↦
                  rw (deeper, found, r)
                    (descend_below fuel rest n d e i (i * 2 + 2) level free a (inr refl)
                      (λ level' a'.
                        descend-Found fuel rest (suc n) d e (i * 2 + 2) fits (omega arith) e_in
                          (omega arith) level' (rw r at wide) a'))
            ]
      ]
