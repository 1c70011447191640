-- ===== src/BpTree/Scans.antt =====
-- Base/BPTree_impls/BPTree.hpp: what each loop along the data blocks returns.
use tiny_backend.Prelude.{ℕ, zero, suc, ◌<◌, ◌≡◌, refl, some, List, [], ◌∷◌, length, take, arith}
use tiny_backend.BpTree.{DataBlock}
use tiny_backend.BpTree.Store.{Tree}
use tiny_backend.BpTree.Search.{hop, find_range_loop, rest_loop, upper_bound_loop}
use tiny_backend.BpTree.Cursor.{until, from, head?, At, At-More, At-done}

module _ {ℓ} {V : Type ℓ} (t : Tree V) where
  -- At the end of all pairs `hop` stays.
  pub hop_done : (d : DataBlock V) (pos : ℕ) → At t d pos [] → hop t d pos ≡ some (d, pos)
  unfolding hop
  hop_done d pos a = let e = At-done t d pos a in rw (e.0, e.1) refl

  pub rest_loop-take :
      (limit : ℕ) (all : List (ℕ × V)) (d : DataBlock V) (pos : ℕ)
      → At t d pos all
      → rest_loop limit t d pos ≡ some (take limit all)
  unfolding rest_loop
  rest_loop-take zero all d pos a = refl
  rest_loop-take (suc limit) [] d pos a = let e = At-done t d pos a in ground arith
  rest_loop-take (suc limit) (x ∷ all) d pos a =
      let m = At-More t d pos x all a in
      let more = rest_loop-take limit all m.block (suc m.place) m.then_at in
      ground (arith, m.ready, m.hopped, m.inside, m.found, more)

  pub find_range_loop-until :
      (limit end : ℕ) (all : List (ℕ × V)) (d : DataBlock V) (pos : ℕ)
      → At t d pos all
      → find_range_loop limit t end d pos ≡ some (take limit (until end all))
  unfolding find_range_loop
  find_range_loop-until zero end all d pos a = refl
  find_range_loop-until (suc limit) end [] d pos a =
      let e = At-done t d pos a in rw (hop_done d pos a) (ground arith)
  find_range_loop-until (suc limit) end (x ∷ all) d pos a =
      let m = At-More t d pos x all a in
      let more = find_range_loop-until limit end all m.block (suc m.place) m.then_at in
      ground (arith, m.hopped, m.inside, m.key, m.found, more)

  -- A round passes one pair, so the pairs bound the rounds.
  pub upper_bound_loop-from :
      (fuel k : ℕ) (all : List (ℕ × V)) (d : DataBlock V) (pos : ℕ)
      → At t d pos all
      → length all < fuel
      → upper_bound_loop fuel t k d pos ≡ some (head? (from (suc k) all))
  unfolding upper_bound_loop
  upper_bound_loop-from zero k all d pos a h = absurd (omega arith)
  upper_bound_loop-from (suc fuel) k [] d pos a h =
      let e = At-done t d pos a in rw (hop_done d pos a) (ground arith)
  upper_bound_loop-from (suc fuel) k (x ∷ all) d pos a h =
      let m = At-More t d pos x all a in
      let more = upper_bound_loop-from fuel k all m.block (suc m.place) m.then_at (omega arith) in
      ground (arith, m.hopped, m.inside, m.key, m.found, more)
