-- ===== src/Pool/Tests.antt =====
-- Runs of the pool of Base/Buffer, and the results on them.
use tiny_backend.Prelude.Partial.{◌>>=◌}
use tiny_backend.Prelude.{
  ℕ, zero, suc, ◌+◌, ◌≤◌, ◌<◌, ◌^◌, none, some, [], ◌∷◌, ◌≡◌, refl, true, arith,
}
use tiny_backend.Pool.{
  Pool, at, parent_sibling, round_loop, round_size, fill, init, descend, positioning, before_level,
  level_of, location, take_up, get, put_up, put, max_block, put_back, move, move_assign,
}
use tiny_backend.Pool.Tree.{block, is_node, is_handed_out, OnLevel}
use tiny_backend.Pool.Sizes.{Rounds, round_size-Rounds}
use tiny_backend.Pool.Blocks.{IsConsistent, IsOut, Granted, Returned}
use tiny_backend.Pool.Fresh.{init-IsConsistent}
use tiny_backend.Pool.Grant.{get-Granted}
use tiny_backend.Pool.Return.{put-Returned}

abbrev pool : Pool
pool = record { size = 16384; rest = 16384 ∷ 8192 ∷ 8192 ∷ 4096 ∷ 4096 ∷ 4096 ∷ 4096 ∷ 0 ∷ [] }

-- Three blocks are handed out, and the second is put back.
sizes : (round_size 4097 ≡ 8192) × (round_size 0 ≡ 4096) × (init 16000 ≡ pool)
unfolding round_loop round_size fill init
sizes = (refl, refl, refl)

runs :
    ((get pool 5000 >>= λ (a, n, p). some a) ≡ some (some 0))
    × ((get pool 5000 >>= λ (a, n, p). get p 4000 >>= λ (b, m, p'). some b) ≡ some (some 8192))
    × ((get pool 5000 >>= λ (a, n, p).
          get p 4000 >>= λ (b, m, p'). put p' 8192 4096 >>= λ p''. put p'' 0 8192)
        ≡ some pool)
    × ((get pool 5000 >>= λ (a, n, p). get p 9000 >>= λ (b, m, p'). some (at p'.rest 0))
        ≡ some 8192)
unfolding parent_sibling round_loop round_size descend positioning before_level level_of location
    take_up get put_up put
runs = (refl, refl, refl, refl)

round_size-Rounds_example : Rounds 5000 (round_size 5000)
round_size-Rounds_example = round_size-Rounds 5000

init-IsConsistent_example :
    IsConsistent (init 16000)
    × ((init 16000).size ≡ round_size 16000)
    × (at (init 16000).rest 0 ≡ (init 16000).size)
init-IsConsistent_example = init-IsConsistent 16000

init_small : (init 16000).size ≤ 2 ^ 42
unfolding round_loop round_size init
init_small = omega arith

get-Granted_example :
    (at (init 16000).rest 0 < round_size 5000 → get (init 16000) 5000 ≡ some (none, 0, init 16000))
    × (round_size 5000 ≤ at (init 16000).rest 0
        → Granted (init 16000) (round_size 5000) (get (init 16000) 5000))
get-Granted_example = get-Granted (init-IsConsistent 16000).0 5000 init_small

-- A pool of one block, which is out.
abbrev full : Pool
full = record { size = 4096; rest = 0 ∷ 0 ∷ [] }

one_node : (n d j : ℕ) → n + d ≡ 0 → OnLevel n j → is_node full.rest d j ≡ true
unfolding is_node
one_node zero zero zero sum level = refl
one_node zero zero (suc j) sum level = absurd (omega arith)
one_node zero (suc d) j sum level = absurd (omega arith)
one_node (suc n) d j sum level = absurd (omega arith)

full-IsConsistent : IsConsistent full
unfolding block
full-IsConsistent = record {
  depth = 0;
  size_is = refl;
  small = omega arith;
  room = refl;
  fits = λ n d j sum level _. one_node n d j sum level;
}

full-IsOut : IsOut full 0 4096
unfolding block is_handed_out
full-IsOut = record {
  exponent = 0;
  below = 0;
  index = 0;
  size_is = refl;
  total = refl;
  offset_is = refl;
  inside = omega arith;
  out = refl;
}

put-Returned_example : Returned full 0 4096 (put full 0 4096)
put-Returned_example = put-Returned full-IsConsistent 0 4096 (omega arith) full-IsOut

-- An owner that takes the block of another one puts its own back.
owners :
    ((move_assign (some (0, 4096)) none full >>= λ (a, b, p). some (max_block p)) ≡ some 4096)
    × (move (some (0, 4096)) ≡ (some (0, 4096), none))
unfolding move_assign put_back move put location before_level level_of put_up parent_sibling
owners = (refl, refl)
