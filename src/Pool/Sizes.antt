-- ===== src/Pool/Sizes.antt =====
-- The sizes of the blocks of Base/Buffer/src/BufferPool.cpp: what `round_size` gives, and the level
-- that `location` finds.
use tiny_backend.Prelude.{
  ℕ, zero, suc, ◌+◌, ◌*◌, ◌%◌, ◌^◌, ◌≤◌, ◌<◌, ◌≡◌, inl, inr, refl, ap, ltb, ◌==◌, arith, Bool-cases,
  ltb→lt, lt→ltb, ==_iff, true, false, if◌then◌else◌,
}
use tiny_backend.Pool.{bits, round_loop, round_size, level_of}
use tiny_backend.Pool.Tree.{block, block-suc, block_positive}

pub block_above : (d e : ℕ) → d < e → block d * 2 ≤ block e
unfolding block
block_above d zero h = absurd (omega arith)
block_above d (suc e) h = elim (Bool-cases (ltb d e)) [
  | inl below ↦ omega (arith, block_above d e (ltb→lt d e below))
  | inr last ↦ let same : d ≡ e = ground arith in rw same (omega arith)
]

pub block_le : (d e : ℕ) → d ≤ e → block d ≤ block e
block_le d e h = elim (Bool-cases (d == e)) [
  | inl same ↦ rw ((==_iff d e).0 same) (omega arith)
  | inr other ↦
      let beyond : d < e = ground arith in omega (arith, block_above d e beyond, block_positive e)
]

pub block_injective : (d e : ℕ) → block d ≡ block e → d ≡ e
block_injective d e h = grind (arith, block_above d e, block_above e d, block_positive d)

-- A block is below the range of a uint64 if its tree has at most 51 levels below the root.
block_top : block 51 ≡ 2 ^ 63
unfolding block
block_top = refl

pub block_bounded : (d : ℕ) → d ≤ 51 → block d ≤ 2 ^ 63
block_bounded d h = omega (arith, block_top, block_le d 51 h)

-- What `round_size` promises of its result: a block that holds the target, and no smaller one does.
pub record Rounds (target result : ℕ) : Type 0 where
  pub exponent : ℕ
  pub result_is : result ≡ block exponent
  pub bounded : exponent ≤ 51
  pub enough : target ≤ 2 ^ 63 → target ≤ result
  pub least : (e : ℕ) → target ≤ block e → result ≤ block e

-- The loop ends at `block d` when every smaller block is below the target.
Rounds-here :
    (target d : ℕ)
    → d ≤ 51
    → (target ≤ 2 ^ 63 → target ≤ block d)
    → ((e : ℕ) → e < d → block e < target)
    → Rounds target (block d)
Rounds-here target d h enough tight = record {
  exponent = d;
  result_is = refl;
  bounded = h;
  enough = enough;
  least = λ e h'. elim (Bool-cases (ltb e d)) [
    | inl below ↦ absurd (omega (arith, tight e (ltb→lt e d below), h'))
    | inr above ↦ let beyond : d ≤ e = ground arith in block_le d e beyond
  ];
}

-- Once the size has wrapped to 0 the loop ends.
round_loop_wrapped : (fuel target pre : ℕ) → round_loop fuel target pre 0 ≡ (pre, 0)
unfolding round_loop
round_loop_wrapped zero target pre = refl
round_loop_wrapped (suc fuel) target pre = ground arith

round_loop-Rounds :
    (fuel target pre d : ℕ)
    → d ≤ 51
    → 51 < d + fuel
    → pre < block d
    → ((e : ℕ) → e < d → block e < target)
    → let (pre', size') = round_loop fuel target pre (block d) in
      Rounds target (if ltb size' pre' then pre' else size')
unfolding round_loop
round_loop-Rounds zero target pre d h h' above tight = absurd (omega arith)
round_loop-Rounds (suc fuel) target pre d h h' above tight =
    let on : ltb pre (block d) ≡ true = lt→ltb pre (block d) above in
    let tight' : (e : ℕ) → ltb (block d) target ≡ true → e < suc d → block e < target = λ e more h.
      elim (Bool-cases (ltb e d)) [
        | inl below ↦ tight e (ltb→lt e d below)
        | inr last ↦ let same : e ≡ d = ground arith in rw same (ltb→lt (block d) target more)
      ] in
    elim (Bool-cases (ltb (block d) target)) [
      | inl more ↦ elim (Bool-cases (ltb d 51)) [
        | inl further ↦
            let d_in : suc d ≤ 51 = ltb→lt d 51 further in
            let next : block d * 2 % 2 ^ 64 ≡ block (suc d) =
              omega (arith, block-suc d, block_bounded (suc d) d_in) in
            let onward =
              round_loop-Rounds fuel target (block d) (suc d) d_in (omega arith)
                (omega (arith, block-suc d, block_positive d)) (λ e. tight' e more) in
            rw (more, on, next) onward
        | inr last ↦
            let top : d ≡ 51 = ground arith in
            let full : block d ≡ 2 ^ 63 = rw top block_top in
            let next : block d * 2 % 2 ^ 64 ≡ 0 = omega (arith, full) in
            let some_left : ltb 0 (block d) ≡ true = lt→ltb 0 (block d) (block_positive d) in
            rw (more, on, next, round_loop_wrapped fuel target (block d), some_left)
              (Rounds-here target d h (λ small. omega (arith, full, small)) tight)
      ]
      | inr done ↦
          let stays : ltb (block d) pre ≡ false = ground arith in
          rw (done, stays) (Rounds-here target d h (λ _. ground arith) tight)
    ]

-- `round_size` gives the smallest block that holds the target, up to the largest power of two below
-- the range of a uint64.
pub round_size-Rounds : (target : ℕ) → Rounds target (round_size target)
unfolding round_size block
round_size-Rounds target =
    round_loop-Rounds bits target 0 0 (omega arith) (omega arith) (block_positive 0)
      (λ e h. absurd (omega arith))

pub level_of-block :
    (fuel k e : ℕ) → e + k ≤ 51 → k < fuel → level_of fuel (block (e + k)) (block e) ≡ k
unfolding level_of
level_of-block zero k e h h' = absurd (omega arith)
level_of-block (suc fuel) zero e h h' = ground arith
level_of-block (suc fuel) (suc k) e h h' =
    let below : ltb (block e) (block (e + suc k)) ≡ true =
      lt→ltb _ _ (omega (arith, block_above e (e + suc k) (omega arith), block_positive e)) in
    let next : block e * 2 % 2 ^ 64 ≡ block (suc e) =
      omega (arith, block-suc e, block_bounded (suc e) (omega arith)) in
    let total : block (e + suc k) ≡ block (suc e + k) = ap block (omega arith) in
    let rest : level_of fuel (block (e + suc k)) (block (suc e)) ≡ k =
      rw total (level_of-block fuel k (suc e) (omega arith) (omega arith)) in
    rw (below, next, rest) (omega arith)
