-- ===== src/Pool.antt =====
-- Base/Buffer/BufferPool.hpp and src/BufferPool.cpp: a pool of blocks in a binary tree, stored as an
-- array in the order of a heap. `_rest[i]` is the largest block that is free below node `i`. A
-- pointer into the pool is an offset from `_buffer`, and the null pointer is `none`. The result `none`
-- of an operation is a failed assertion or undefined behaviour.
pub mod Tree
pub mod Sizes
pub mod Climb
pub mod Start
pub mod Loops
pub mod Frame
pub mod Descent
pub mod Blocks
pub mod Grant
pub mod Return
pub mod Fresh
mod Tests
use tiny_backend.Prelude.Partial.{◌>>=◌, ◌>>◌, assert}
use tiny_backend.Prelude.{
  ℕ, zero, suc, ◌+◌, ◌-◌, ◌*◌, ◌/◌, ◌%◌, ◌^◌, max, Bool, ◌&&◌, ◌||◌, not, Option, none, some, List,
  [], ◌∷◌, ◌++◌, get_or, set, replicate, ltb, leb, ◌==◌, if◌then◌else◌,
}

abbrev pub block_size : ℕ
block_size = 4096

pub record Pool : Type 0 where
  pub size : ℕ
  pub rest : List ℕ

abbrev pub at : List ℕ → ℕ → ℕ
at rest i = get_or rest i 0

-- The largest block that is free.
abbrev pub max_block : Pool → ℕ
max_block p = at p.rest 0

-- The node above, and the one beside.
unfoldable pub parent_sibling : ℕ → ℕ × ℕ
parent_sibling i = if i % 2 == 1 then ((i - 1) / 2, i + 1) else ((i - 2) / 2, i - 1)

-- A uint64 is doubled at most 64 times before it is 0, and halved as often. This fuel serves all
-- loops, as each goes up or down one level of the tree.
abbrev pub bits : ℕ
bits = 64

unfoldable pub round_loop : (fuel target pre size : ℕ) → ℕ × ℕ
round_loop zero target pre size = (pre, size)
round_loop (suc fuel) target pre size =
    let next = round_loop fuel target size (size * 2 % 2 ^ 64) in
    if ltb size target && ltb pre size then next else (pre, size)

unfoldable pub round_size : ℕ → ℕ
round_size target =
    let (pre, size) = round_loop bits target 0 block_size in if ltb size pre then pre else size

-- The levels from the root down: `t` nodes of blocks of `s` bytes each.
unfoldable pub fill : (fuel s t : ℕ) → List ℕ
fill zero s t = []
fill (suc fuel) s t =
    let below = fill fuel (s / 2) (t * 2) in if leb block_size s then replicate t s ++ below else []

-- The constructor, when the memory was allocated. The array has one entry more than the tree.
unfoldable pub init : ℕ → Pool
init total_size =
    let size = round_size total_size in record { size = size; rest = fill bits size 1 ++ (0 ∷ []) }

-- The loop of `positioning`: the node, and its level.
unfoldable pub descend : (fuel : ℕ) → List ℕ → (i n s size : ℕ) → Option (ℕ × ℕ)
descend zero rest i n s size = none
descend (suc fuel) rest i n s size =
    let left = i * 2 + 1 in
    let right = i * 2 + 2 in
    let go_left =
      ltb (at rest right) size || (leb size (at rest left) && leb (at rest left) (at rest right)) in
    let below = descend fuel rest (if go_left then left else right) (n + 1) (s / 2) size in
    if s == size
    then some (i, n)
    else (do assert (leb size (at rest left) || leb size (at rest right)); below)

-- `(1 << n) - 1` on an int of 32 bits: undefined from 31 on, where the shift or the difference
-- overflows.
unfoldable pub before_level : ℕ → Option ℕ
before_level n = if ltb n 31 then some (2 ^ n - 1) else none

-- The node of a free block of `size` bytes, and the offset of the block.
unfoldable pub positioning : Pool → ℕ → Option (ℕ × ℕ)
positioning p size = do
  (i, n) ← descend bits p.rest 0 0 p.size size
  first ← before_level n
  some (i, (i - first) * size)

unfoldable pub level_of : (fuel total s : ℕ) → ℕ
level_of zero total s = 0
level_of (suc fuel) total s =
    let above = level_of fuel total (s * 2 % 2 ^ 64) in if ltb s total then above + 1 else 0

-- The node of the block at an offset.
unfoldable pub location : Pool → (offset size : ℕ) → Option ℕ
location p offset size = do
  first ← before_level (level_of bits p.size size)
  some (first + offset / size)

-- The loop of `get`, from a node whose entry has fallen.
unfoldable pub take_up : (fuel : ℕ) → List ℕ → ℕ → Option (List ℕ)
take_up zero rest i = none
take_up (suc fuel) rest i =
    let (p, s) = parent_sibling i in
    let ms = max (at rest i) (at rest s) in
    let above = take_up fuel (set rest p ms) p in
    if ltb 0 i
    then (do assert (leb ms (at rest p)); if at rest p == ms then some rest else above)
    else some rest

-- The offset and the size of the buffer, or `none` and 0.
unfoldable pub get : Pool → ℕ → Option (Option ℕ × ℕ × Pool)
get p wanted =
    let size = round_size wanted in
    if ltb (at p.rest 0) size then some (none, 0, p) else (do
      (i, offset) ← positioning p size
      assert (at p.rest i == size)
      rest ← take_up bits (set p.rest i 0) i
      some (some offset, size, record p { rest = rest }))

-- The loop of `put`, from a node whose entry has risen; `fs` is the size of its block.
unfoldable pub put_up : (fuel : ℕ) → List ℕ → (i fs : ℕ) → Option (List ℕ)
put_up zero rest i fs = none
put_up (suc fuel) rest i fs =
    let (p, s) = parent_sibling i in
    let ms = if at rest i == fs && fs == at rest s then fs * 2 else max (at rest i) (at rest s) in
    let above = put_up fuel (set rest p ms) p (fs * 2) in
    if ltb 0 i
    then (do assert (leb (at rest p) ms); if at rest p == ms then some rest else above)
    else some rest

unfoldable pub put : Pool → (offset size : ℕ) → Option Pool
put p offset size = do
  i ← location p offset size
  assert (at p.rest i == 0)
  rest ← put_up bits (set p.rest i size) i size
  some (record p { rest = rest })

-- The owner type Buffer: the offset and the size of its block, or `none` when its pointer is null.
abbrev pub Buffer : Type 0
Buffer = Option (ℕ × ℕ)

-- The destructor too: the pool takes the block back, and the pointer becomes null.
unfoldable pub put_back : Buffer → Pool → Option (Buffer × Pool)
put_back none p = some (none, p)
put_back (some (offset, size)) p = do p' ← put p offset size; some (none, p')

-- The move constructor: the new owner, and the old one.
unfoldable pub move : Buffer → Buffer × Buffer
move other = (other, none)

-- The move assignment: the block of this owner goes back first.
unfoldable pub move_assign : Buffer → Buffer → Pool → Option (Buffer × Buffer × Pool)
move_assign this other p = do (_, p') ← put_back this p; some (other, none, p')
