-- ===== src/Pool/Return.antt =====
-- `put` of Base/Buffer/src/BufferPool.cpp on a pool whose entries fit together.
use tiny_backend.Prelude.{
  ℕ, ◌+◌, ◌-◌, ◌*◌, ◌^◌, ◌<◌, ◌≤◌, ◌≡◌, refl, some, sym, ap, ap₂, ◌∙◌, length, length-set, set,
  arith, ==_iff,
}
use mathlib.Core.Path.{subst}
use tiny_backend.Pool.{Pool, at, bits, location, put_up, put}
use tiny_backend.Pool.Tree.{block, OnLevel, block_positive}
use tiny_backend.Pool.Sizes.{block_injective}
use tiny_backend.Pool.Start.{Climb-start}
use tiny_backend.Pool.Climb.{at-set_self, pow_above, OnLevel-unique}
use tiny_backend.Pool.Loops.{Settled, put_up-Settled}
use tiny_backend.Pool.Frame.{below_Outside, handed_out_empty, not_free-Outside}
use tiny_backend.Pool.Blocks.{IsConsistent, IsOut, Returned, put_back, location-block, depth_small}
use tiny_backend.Pool.Grant.{stays_out}

module _ {p : Pool} (v : IsConsistent p) where
  out_height : {o z : ℕ} (q : IsOut p o z) → q.below + q.exponent ≡ v.depth
  out_height q =
      omega (arith, block_injective (q.exponent + q.below) v.depth (sym q.total ∙ v.size_is))

  -- The node of a block that is out.
  abbrev node_of : {o z : ℕ} → IsOut p o z → ℕ
  node_of q = 2 ^ q.below - 1 + q.index

  out_level : {o z : ℕ} (q : IsOut p o z) → OnLevel q.below (node_of q)
  out_level q = (omega (arith, q.inside), omega (arith, q.inside))

  -- Two blocks at one node are the same.
  same_block :
      {o z o' z' : ℕ} (q : IsOut p o z) (q' : IsOut p o' z')
      → node_of q ≡ node_of q'
      → (o ≡ o') × (z ≡ z')
  same_block q q' e =
      let level : OnLevel q'.below (node_of q) = subst (OnLevel q'.below) (sym e) (out_level q') in
      let below_is = OnLevel-unique q.below q'.below (node_of q) (out_level q) level in
      let exponent_is : q.exponent ≡ q'.exponent =
        omega (arith, out_height q, out_height q', below_is) in
      let size_is = q.size_is ∙ ap block exponent_is ∙ sym q'.size_is in
      let power_is : 2 ^ q.below ≡ 2 ^ q'.below = ap (λ n. 2 ^ n) below_is in
      let index_is : q.index ≡ q'.index = omega (arith, e, power_is) in
      (q.offset_is ∙ ap₂ (λ a b. a * b) index_is size_is ∙ sym q'.offset_is, size_is)

  -- The loop of `put` from the node of the block.
  put-Settled :
      {o z : ℕ} (q : IsOut p o z)
      → Settled v.depth
          (set p.rest (node_of q) z)
          q.below
          (node_of q)
          (put_up bits (set p.rest (node_of q) z) (node_of q) z)
  put-Settled q =
      let i = node_of q in
      let e = q.exponent in
      let inside : i < length p.rest =
        grind (arith, out_level q, out_height q, v.room, pow_above q.below v.depth) in
      let now = at-set_self p.rest i (block e) inside in
      rw q.size_is (
        put_up-Settled v.depth bits q.below e i (at p.rest i) (set p.rest i (block e))
          (omega (arith, out_height q, v.small))
          (Climb-start v.depth p.rest q.below e i (block e) (out_level q) (out_height q) v.room
            v.fits (put_back p.rest e i inside q.out))
          (rw now (omega arith)) (rw (handed_out_empty p.rest e i q.out) (block_positive e))
          (omega (arith, handed_out_empty p.rest e i q.out)))

  -- A block of a pool of at most 2 ^ 42 bytes that is out can be put back: `put` fails no assertion,
  -- the int in `location` does not overflow, the entries fit together again,
  -- the block is free as a whole, and every other block that was out still is.
  pub put-Returned :
      (offset size : ℕ)
      → p.size ≤ 2 ^ 42
      → IsOut p offset size
      → Returned p offset size (put p offset size)
  unfolding put
  put-Returned offset size narrow q =
      let i = node_of q in
      let s = put-Settled q in
      let shallow = depth_small v.depth (rw v.size_is at narrow) in
      let inside : i < length p.rest =
        grind (arith, out_level q, out_height q, v.room, pow_above q.below v.depth) in
      let located : location p offset size ≡ some i =
        rw (q.offset_is, q.size_is)
          (location-block p q.exponent q.below q.index q.total
            (omega (arith, out_height q, shallow))) in
      let vacant = handed_out_empty p.rest q.exponent i q.out in
      record {
        after = record p { rest = s.after };
        returned = rw (located, (==_iff (at p.rest i) 0).1 vacant, s.returned) refl;
        consistent = record {
          depth = v.depth;
          size_is = v.size_is;
          small = v.small;
          room = s.room ∙ length-set p.rest i size ∙ v.room;
          fits = s.fits;
        };
        node = i;
        located = located;
        free =
            s.same i (below_Outside q.below i i (out_level q) (omega arith))
            ∙ at-set_self p.rest i size inside;
        others = λ o z q' other.
            let j = node_of q' in
            record {
              exponent = q'.exponent;
              below = q'.below;
              index = q'.index;
              size_is = q'.size_is;
              total = q'.total;
              offset_is = q'.offset_is;
              inside = q'.inside;
              out =
                  stays_out v.depth p.rest q.below i size inside (out_level q) s q'.exponent j
                    (not_free-Outside p.rest q.below q.exponent i q'.below q'.exponent j v.fits
                      (out_height q) (out_level q) (rw vacant (block_positive q.exponent))
                      (out_height q') (out_level q') q'.out)
                    (λ x. let (a, b) = same_block q' q (sym x) in other a b)
                  ∙ q'.out;
            };
      }
