-- ===== src/Pool/Fresh.antt =====
-- The constructor of Base/Buffer/src/BufferPool.cpp: the entries of a new pool, level by level.
use tiny_backend.Prelude.{
  ℕ, zero, suc, ◌+◌, ◌-◌, ◌*◌, ◌/◌, ◌^◌, ◌≤◌, ◌<◌, ◌≡◌, refl, sym, ap, ◌∙◌, true, List, [], ◌∷◌,
  ◌++◌, length, length-append, length-replicate, replicate, leb, arith,
}
use tiny_backend.Pool.{at, bits, block_size, fill, init, round_size}
use tiny_backend.Pool.Tree.{block, block-suc, is_joined, is_node, OnLevel, block_positive}
use tiny_backend.Pool.Sizes.{block_le, round_size-Rounds}
use tiny_backend.Pool.Climb.{pow_above}
use tiny_backend.Pool.Blocks.{IsConsistent}

at-append : (xs ys : List ℕ) (i : ℕ) → i < length xs → at (xs ++ ys) i ≡ at xs i
at-append [] ys i h = absurd (omega arith)
at-append (x ∷ xs) ys zero h = refl
at-append (x ∷ xs) ys (suc i) h = at-append xs ys i (omega arith)

at-replicate : (t v i : ℕ) → i < t → at (replicate t v) i ≡ v
at-replicate zero v i h = absurd (omega arith)
at-replicate (suc t) v zero h = refl
at-replicate (suc t) v (suc i) h = at-replicate t v i (omega arith)

at-append_beyond : (t v : ℕ) (ys : List ℕ) (i : ℕ) → at (replicate t v ++ ys) (t + i) ≡ at ys i
at-append_beyond zero v ys i = ap (at ys) (omega arith)
at-append_beyond (suc t) v ys i =
    let e : suc t + i ≡ suc (t + i) = omega arith in rw e (at-append_beyond t v ys i)

leb-true : (a b : ℕ) → a ≤ b → leb a b ≡ true
leb-true a b h = ground arith

-- One level, and those below it.
fill_level :
    (fuel d t : ℕ)
    → fill (suc fuel) (block d) t ≡ replicate t (block d) ++ fill fuel (block d / 2) (t * 2)
unfolding fill block
fill_level fuel d t =
    let large : leb block_size (block d) ≡ true =
      leb-true block_size (block d) (block_le 0 d (omega arith)) in
    rw large refl

fill_end : (fuel t : ℕ) → fill fuel (block 0 / 2) t ≡ []
unfolding fill block
fill_end zero t = refl
fill_end (suc fuel) t = refl

at-fill :
    (fuel m n c j : ℕ)
    → m + c < fuel
    → OnLevel (n + m) j
    → at (fill fuel (block (m + c)) (2 ^ n)) (j - (2 ^ n - 1)) ≡ block c
at-fill zero m n c j h level = absurd (omega arith)
at-fill (suc fuel) zero n c j h level =
    let same : n + 0 ≡ n = omega arith in
    let power : 2 ^ (n + 0) ≡ 2 ^ n = ap (λ n. 2 ^ n) same in
    let here : j - (2 ^ n - 1) < 2 ^ n = omega arith in
    let first : 0 + c ≡ c = omega arith in
    rw (first, fill_level fuel c (2 ^ n))
      (at-append (replicate (2 ^ n) (block c)) _ _ (rw (length-replicate (2 ^ n) (block c)) here)
        ∙ at-replicate (2 ^ n) (block c) _ here)
at-fill (suc fuel) (suc m) n c j h level =
    let next : suc m + c ≡ suc (m + c) = omega arith in
    let half : block (suc (m + c)) / 2 ≡ block (m + c) = omega (arith, block-suc (m + c)) in
    let twice : 2 ^ n * 2 ≡ 2 ^ suc n = omega arith in
    let shift : n + suc m ≡ suc n + m = omega arith in
    let level' : OnLevel (suc n + m) j = rw shift at level in
    let beyond : 2 ^ n * 2 ≤ 2 ^ (suc n + m) = pow_above n (suc n + m) (omega arith) in
    let index : j - (2 ^ n - 1) ≡ 2 ^ n + (j - (2 ^ suc n - 1)) =
      omega (arith, level', beyond, twice) in
    rw (next, index, fill_level fuel (suc (m + c)) (2 ^ n), half, twice)
      (at-append_beyond (2 ^ n) (block (suc (m + c))) _ _
        ∙ at-fill fuel m (suc n) c j (omega arith) level')

length-fill :
    (fuel d n : ℕ) → d < fuel → length (fill fuel (block d) (2 ^ n)) + 2 ^ n ≡ 2 ^ (n + d) * 2
length-fill zero d n h = absurd (omega arith)
length-fill (suc fuel) zero n h =
    let power : 2 ^ (n + 0) ≡ 2 ^ n = ap (λ n. 2 ^ n) (omega arith) in
    rw (fill_level fuel zero (2 ^ n), fill_end fuel (2 ^ n * 2))
      (omega (
        arith,
        power,
        length-append (replicate (2 ^ n) (block zero)) [],
        length-replicate (2 ^ n) (block zero),
      ))
length-fill (suc fuel) (suc d) n h =
    let half : block (suc d) / 2 ≡ block d = omega (arith, block-suc d) in
    let twice : 2 ^ n * 2 ≡ 2 ^ suc n = omega arith in
    let power : 2 ^ (n + suc d) ≡ 2 ^ (suc n + d) = ap (λ n. 2 ^ n) (omega arith) in
    let rest = length-fill fuel d (suc n) (omega arith) in
    rw (fill_level fuel (suc d) (2 ^ n), half, twice)
      (omega (
        arith,
        power,
        rest,
        twice,
        length-append (replicate (2 ^ n) (block (suc d))) (fill fuel (block d) (2 ^ suc n)),
        length-replicate (2 ^ n) (block (suc d)),
      ))

free_node :
    (rest : List ℕ) (n d j : ℕ)
    → ((m c i : ℕ) → m + c ≡ n + d → OnLevel m i → at rest i ≡ block c)
    → OnLevel n j
    → is_node rest d j ≡ true
unfolding is_node is_joined block
free_node rest n zero j full level = rw (full n zero j refl level) refl
free_node rest n (suc d) j full level =
    let twice : 2 ^ suc n ≡ 2 ^ n * 2 = omega arith in
    let shift : suc n + d ≡ n + suc d = omega arith in
    rw
      (
        full n (suc d) j refl level,
        full (suc n) d (j * 2 + 1) shift (omega arith, omega arith),
        full (suc n) d (j * 2 + 2) shift (omega arith, omega arith),
      )
      (ground (arith, block_positive d))

tree_entry :
    (depth m c i : ℕ)
    → depth ≤ 51
    → m + c ≡ depth
    → OnLevel m i
    → at (fill bits (block depth) (2 ^ 0) ++ (0 ∷ [])) i ≡ block c
tree_entry depth m c i small sum level =
    let first : 0 + m ≡ m = omega arith in
    let start : i - (2 ^ 0 - 1) ≡ i = omega arith in
    let level' : OnLevel (0 + m) i = rw first level in
    let power : 2 ^ (0 + depth) ≡ 2 ^ depth = ap (λ n. 2 ^ n) (omega arith) in
    let inside : i < length (fill bits (block depth) (2 ^ 0)) =
      grind (arith, power, length-fill bits depth 0 (omega arith), pow_above m depth, level, sum) in
    let entry : at (fill bits (block (m + c)) (2 ^ 0)) i ≡ block c =
      ap (at (fill bits (block (m + c)) (2 ^ 0))) (sym start)
      ∙ at-fill bits m 0 c i (omega (arith, sum, small)) level' in
    at-append _ _ i inside ∙ rw (sym sum) entry

-- A new pool has the smallest size of a block that holds the total, up to 2 ^ 63. Its entries fit
-- together, and the whole of it is free.
pub init-IsConsistent :
    (total : ℕ)
    → (IsConsistent (init total))
      × ((init total).size ≡ round_size total)
      × (at (init total).rest 0 ≡ (init total).size)
unfolding init
init-IsConsistent total =
    let r = round_size-Rounds total in
    let depth = r.exponent in
    let tree = fill bits (block depth) (2 ^ 0) in
    let size_of = length-fill bits depth 0 (omega (arith, r.bounded)) in
    let power : 2 ^ (0 + depth) ≡ 2 ^ depth = ap (λ n. 2 ^ n) (omega arith) in
    let room : length (tree ++ (0 ∷ [])) ≡ 2 ^ depth * 2 =
      omega (arith, power, size_of, length-append tree (0 ∷ [])) in
    let full : (m c i : ℕ) → m + c ≡ depth → OnLevel m i → at (tree ++ (0 ∷ [])) i ≡ block c =
      λ m c i sum level. tree_entry depth m c i r.bounded sum level in
    (
      record {
        depth = depth;
        size_is = r.result_is;
        small = r.bounded;
        room = rw r.result_is room;
        fits = λ n d j sum level _.
            rw r.result_is (free_node _ n d j (λ m c i e. full m c i (e ∙ sum)) level);
      },
      refl,
      rw r.result_is (full 0 depth 0 (omega arith) (omega arith, omega arith)),
    )
