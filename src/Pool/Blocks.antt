-- ===== src/Pool/Blocks.antt =====
-- `get` and `put` of Base/Buffer/src/BufferPool.cpp against the blocks that were handed out.
use tiny_backend.Prelude.{
  ℕ, zero, suc, ◌+◌, ◌-◌, ◌*◌, ◌/◌, ◌^◌, ◌≤◌, ◌<◌, ◌≡◌, ◌≢◌, refl, ap, ◌∙◌, true, Option, some,
  List, length, set, arith, ltb, ltb→lt, Bool-cases, inl, inr,
}
use native.Mathlib.Nat.{add-mul-div_right, zero-div}
use tiny_backend.Pool.{Pool, at, bits, before_level, location}
use tiny_backend.Pool.Tree.{block, is_joined, is_node, is_handed_out, FitsBut, block_positive}
use tiny_backend.Pool.Sizes.{level_of-block, block_above}
use tiny_backend.Pool.Climb.{at-set_self, at-set_ne}

-- The entries of the tree fit together.
pub record IsConsistent (p : Pool) : Type 0 where
  pub depth : ℕ
  pub size_is : p.size ≡ block depth
  pub small : depth ≤ 51
  pub room : length p.rest ≡ 2 ^ depth * 2
  pub fits : FitsBut depth p.rest 0

-- The block at the offset was handed out and has not been put back: it is block number `index` of
-- its level, and inside the pool.
pub record IsOut (p : Pool) (offset size : ℕ) : Type 0 where
  pub exponent : ℕ
  pub below : ℕ
  pub index : ℕ
  pub size_is : size ≡ block exponent
  pub total : p.size ≡ block (exponent + below)
  pub offset_is : offset ≡ index * size
  pub inside : index < 2 ^ below
  pub out : is_handed_out p.rest exponent (2 ^ below - 1 + index) ≡ true

-- What `get` promises of the block that it hands out.
pub record Granted (p : Pool) (size : ℕ) (result : Option (Option ℕ × ℕ × Pool)) : Type 0 where
  pub offset : ℕ
  pub after : Pool
  pub returned : result ≡ some (some offset, size, after)
  pub consistent : IsConsistent after
  pub out : IsOut after offset size
  pub others : (o z : ℕ) → IsOut p o z → IsOut after o z

-- What `put` promises of the block that it takes back.
pub record Returned (p : Pool) (offset size : ℕ) (result : Option Pool) : Type 0 where
  pub after : Pool
  pub returned : result ≡ some after
  pub consistent : IsConsistent after
  pub node : ℕ
  pub located : location p offset size ≡ some node
  pub free : at after.rest node ≡ size
  pub others : (o z : ℕ) → IsOut p o z → ((o ≡ offset) → z ≢ size) → IsOut after o z

pub taken :
    (rest : List ℕ) (d i : ℕ)
    → i < length rest
    → is_node rest d i ≡ true
    → at rest i ≡ block d
    → is_handed_out (set rest i 0) d i ≡ true
unfolding is_handed_out is_node is_joined block
taken rest zero i h n e = rw (at-set_self rest i 0 h) refl
taken rest (suc d) i h n e =
    rw
      (
        at-set_self rest i 0 h,
        at-set_ne rest i 0 (i * 2 + 1) h (λ q. absurd (omega arith)),
        at-set_ne rest i 0 (i * 2 + 2) h (λ q. absurd (omega arith)),
      )
      (ground (arith, block_positive d))

pub handed_out_node :
    (rest : List ℕ) (d i : ℕ) → is_handed_out rest d i ≡ true → is_node rest d i ≡ true
unfolding is_handed_out is_node is_joined
handed_out_node rest zero i h = ground arith
handed_out_node rest (suc d) i h = ground arith

pub put_back :
    (rest : List ℕ) (d i : ℕ)
    → i < length rest
    → is_handed_out rest d i ≡ true
    → is_node (set rest i (block d)) d i ≡ true
unfolding is_handed_out is_node is_joined block
put_back rest zero i h n = rw (at-set_self rest i (block 0) h) refl
put_back rest (suc d) i h n =
    rw
      (
        at-set_self rest i (block (suc d)) h,
        at-set_ne rest i (block (suc d)) (i * 2 + 1) h (λ q. absurd (omega arith)),
        at-set_ne rest i (block (suc d)) (i * 2 + 2) h (λ q. absurd (omega arith)),
      )
      (ground (arith, block_positive d))

pub before_level-small : (n : ℕ) → n ≤ 30 → before_level n ≡ some (2 ^ n - 1)
unfolding before_level
before_level-small n h = let inside : ltb n 31 ≡ true = ground arith in rw inside refl

-- `location` finds the node of the block.
pub location-block :
    (p : Pool) (e n k : ℕ)
    → p.size ≡ block (e + n)
    → e + n ≤ 30
    → location p (k * block e) (block e) ≡ some (2 ^ n - 1 + k)
unfolding location
location-block p e n k total small =
    let divided : k * block e / block e ≡ k =
      ap (λ x. x / block e) (omega arith)
      ∙ add-mul-div_right 0 k (block_positive e)
      ∙ omega (arith, zero-div (block e)) in
    rw
      (
        total,
        level_of-block bits n e (omega (arith, small)) (omega arith),
        before_level-small n (omega (arith, small)),
        divided,
      )
      refl

-- The size at which a pool has at most 30 levels below its root.
pub depth_small : (d : ℕ) → block d ≤ 2 ^ 42 → d ≤ 30
unfolding block
depth_small d h =
    let top : block 30 ≡ 2 ^ 42 = refl in
    elim (Bool-cases (ltb 30 d)) [
      | inl deep ↦
          absurd (omega (arith, block_above 30 d (ltb→lt 30 d deep), top, h, block_positive 30))
      | inr flat ↦ ground arith
    ]
