-- ===== src/Pool/Grant.antt =====
-- `get` of Base/Buffer/src/BufferPool.cpp on a pool whose entries fit together.
use tiny_backend.Prelude.{
  ℕ, ◌+◌, ◌-◌, ◌*◌, ◌^◌, ◌≤◌, ◌<◌, ◌≡◌, ◌≢◌, inl, inr, refl, sym, ap, ◌∙◌, true, false, Option,
  none, some, List, length, length-set, set, ltb, ◌==◌, arith, ==_iff, lt→ltb,
}
use tiny_backend.Pool.{Pool, at, bits, round_size, positioning, descend, take_up, get}
use tiny_backend.Pool.Tree.{block, is_handed_out, OnLevel, block_positive}
use tiny_backend.Pool.Sizes.{round_size-Rounds, block_above}
use tiny_backend.Pool.Start.{Climb-start}
use tiny_backend.Pool.Climb.{at-set_self, at-set_ne, pow_above}
use tiny_backend.Pool.Loops.{Settled, Alive, take_up-Settled, Outside, Alive-set}
use tiny_backend.Pool.Descent.{Found, descend-Found, is_node_bound}
use tiny_backend.Pool.Frame.{
  Alive-Outside, below_Outside, child_Outside, is_handed_out-cong, handed_out_empty,
}
use tiny_backend.Pool.Blocks.{
  IsConsistent, Granted, taken, handed_out_node, before_level-small, depth_small,
}

module _ (depth : ℕ) (rest : List ℕ) (n i v : ℕ) (inside : i < length rest)
    (level : OnLevel n i) where
  -- A loop from `i` leaves a block alone that is not above `i`.
  pub stays_out :
      {result : Option (List ℕ)} (s : Settled depth (set rest i v) n i result) (d j : ℕ)
      → Outside j n i
      → i ≢ j
      → is_handed_out s.after d j ≡ is_handed_out rest d j
  stays_out s d j out ne =
      let kept : (c : ℕ) → Outside c n i → i ≢ c → at s.after c ≡ at rest c =
        λ c out' ne'. s.same c out' ∙ at-set_ne rest i v c inside ne' in
      let (l, l') = child_Outside n i j (j * 2 + 1) level (inl refl) out in
      let (r, r') = child_Outside n i j (j * 2 + 2) level (inr refl) out in
      is_handed_out-cong rest s.after d j (kept j out ne) (kept (j * 2 + 1) l (λ q. l' (sym q)))
        (kept (j * 2 + 2) r (λ q. r' (sym q)))

  -- Nor the block of `i` itself.
  stays_taken :
      {result : Option (List ℕ)} (s : Settled depth (set rest i v) n i result) (d : ℕ)
      → is_handed_out s.after d i ≡ is_handed_out (set rest i v) d i
  stays_taken s d =
      let kept : (c : ℕ) → i ≤ c → at s.after c ≡ at (set rest i v) c =
        λ c h. s.same c (below_Outside n i c level h) in
      is_handed_out-cong (set rest i v) s.after d i (kept i (omega arith))
        (kept (i * 2 + 1) (omega arith)) (kept (i * 2 + 2) (omega arith))

module _ {p : Pool} (v : IsConsistent p) where
  -- The loop of `get` from the block that was found.
  take-Found :
      (e : ℕ) {result : Option (ℕ × ℕ)} (f : Found v.depth p.rest e result)
      → Settled v.depth
          (set p.rest f.node 0)
          f.below
          f.node
          (take_up bits (set p.rest f.node 0) f.node)
  take-Found e f =
      let i = f.node in
      let n = f.below in
      let inside : i < length p.rest =
        grind (arith, f.level, f.height, v.room, pow_above n v.depth) in
      let node = v.fits n e i f.height f.level (λ h. absurd (omega arith)) in
      let zero_now = at-set_self p.rest i 0 inside in
      take_up-Settled v.depth bits n e i (at p.rest i) (set p.rest i 0)
        (omega (arith, f.height, v.small))
        (Climb-start v.depth p.rest n e i 0 f.level f.height v.room v.fits
          (handed_out_node (set p.rest i 0) e i (taken p.rest e i inside node f.free)))
        (Alive-set v.depth p.rest n i i 0 inside (omega arith) f.level f.alive)
        (rw zero_now (block_positive e)) (rw zero_now (omega arith))

  -- The descent from the root to a block of a size that is free.
  find_free :
      (size e : ℕ)
      → size ≡ block e
      → size ≤ at p.rest 0
      → Found v.depth p.rest e (descend bits p.rest 0 0 p.size size)
  unfolding Alive
  find_free size e size_is free =
      let bound =
        is_node_bound p.rest v.depth 0 (
          v.fits 0 v.depth 0 (omega arith) (omega arith, omega arith)
            (λ h. absurd (omega arith))) in
      let sum : 0 + v.depth ≡ v.depth = omega arith in
      let e_in : e ≤ v.depth = grind (arith, block_above v.depth e, block_positive v.depth) in
      rw (v.size_is, size_is)
        (descend-Found v.depth bits p.rest 0 v.depth e 0 v.fits sum e_in (omega (arith, v.small))
          (omega arith, omega arith) (omega arith) tt)

  -- What was found is handed out, and nothing else changes hands.
  grant :
      (size e : ℕ)
      → size ≡ block e
      → Found v.depth p.rest e (descend bits p.rest 0 0 p.size size)
      → (wanted : ℕ) → round_size wanted ≡ size
      → size ≤ at p.rest 0
      → p.size ≤ 2 ^ 42
      → Granted p size (get p wanted)
  unfolding get positioning
  grant size e size_is f wanted rounded free narrow =
      let i = f.node in
      let n = f.below in
      let k = i - (2 ^ n - 1) in
      let s = take-Found e f in
      let inside : i < length p.rest =
        grind (arith, f.level, f.height, v.room, pow_above n v.depth) in
      let number : 2 ^ n - 1 + k ≡ i = omega (arith, f.level) in
      let fits_all : ltb (at p.rest 0) (round_size wanted) ≡ false = ground arith in
      let shallow = depth_small v.depth (rw v.size_is at narrow) in
      let first = before_level-small n (omega (arith, f.height, shallow)) in
      let equal : (at p.rest i == size) ≡ true =
        (==_iff (at p.rest i) size).1 (f.free ∙ sym size_is) in
      let node = v.fits n e i f.height f.level (λ h. absurd (omega arith)) in
      record {
        offset = k * size;
        after = record p { rest = s.after };
        returned = rw (fits_all, rounded, f.returned, first, equal, s.returned) refl;
        consistent = record {
          depth = v.depth;
          size_is = v.size_is;
          small = v.small;
          room = s.room ∙ length-set p.rest i 0 ∙ v.room;
          fits = s.fits;
        };
        out = record {
          exponent = e;
          below = n;
          index = k;
          size_is = size_is;
          total = v.size_is ∙ ap block (omega (arith, f.height));
          offset_is = refl;
          inside = omega (arith, f.level);
          out = rw number (
              stays_taken v.depth p.rest n i 0 inside f.level s e
              ∙ taken p.rest e i inside node f.free);
        };
        others = λ o z q.
            let j = 2 ^ q.below - 1 + q.index in
            let vacant = handed_out_empty p.rest q.exponent j q.out in
            record {
              exponent = q.exponent;
              below = q.below;
              index = q.index;
              size_is = q.size_is;
              total = q.total;
              offset_is = q.offset_is;
              inside = q.inside;
              out =
                  stays_out v.depth p.rest n i 0 inside f.level s q.exponent j
                    (Alive-Outside p.rest n i j f.alive vacant)
                    (λ x.
                      absurd (omega (arith, ap (at p.rest) x, f.free, block_positive e, vacant)))
                  ∙ q.out;
            };
      }

  -- On a pool of at most 2 ^ 42 bytes whose entries fit together `get` fails no assertion, and the
  -- int in `positioning` does not overflow. It hands out a block of the size
  -- that `round_size` gives if one is free, which is as the root says, and then the entries fit
  -- together again, the block is out, and every other block that was out still is. If none is free,
  -- it returns the null pointer and leaves the pool as it was.
  pub get-Granted :
      (wanted : ℕ)
      → p.size ≤ 2 ^ 42
      → (at p.rest 0 < round_size wanted → get p wanted ≡ some (none, 0, p))
        × (round_size wanted ≤ at p.rest 0 → Granted p (round_size wanted) (get p wanted))
  unfolding get
  get-Granted wanted narrow =
      let r = round_size-Rounds wanted in
      (
        λ h. rw (lt→ltb (at p.rest 0) (round_size wanted) h) refl,
        λ h.
            grant (round_size wanted) r.exponent r.result_is
              (find_free (round_size wanted) r.exponent r.result_is h) wanted refl h narrow,
      )
