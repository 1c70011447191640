-- ===== src/Pool/Start.antt =====
-- Where the loops of Base/Buffer/src/BufferPool.cpp start: at the node that `get` or `put` writes.
use tiny_backend.Prelude.{
  ℕ, zero, suc, ◌+◌, ◌*◌, ◌^◌, ◌<◌, ◌≡◌, ◌≢◌, inl, inr, sym, ap₂, ◌∙◌, true, List, length, set,
  ◌==◌, arith, Bool-cases, ==_iff, length-set,
}
use mathlib.Core.Path.{subst}
use tiny_backend.Pool.{at, parent_sibling}
use tiny_backend.Pool.Tree.{block, is_joined, is_node, OnLevel, FitsBut, parent_sibling-OnLevel}
use tiny_backend.Pool.Climb.{
  Climb, pow_above, OnLevel-unique, at-set_ne, is_node-set, is_node_family,
}

module _ (depth : ℕ) where
  started_fits :
      (rest : List ℕ) (n d i v : ℕ)
      → OnLevel n i
      → n + d ≡ depth
      → i < length rest
      → FitsBut depth rest 0
      → is_node (set rest i v) d i ≡ true
      → FitsBut depth (set rest i v) i
  started_fits rest n d i v level sum room fits h m e j sum' level' ne =
      elim (Bool-cases (j == i)) [
        | inl same ↦
            let j_is : j ≡ i = (==_iff j i).0 same in
            let m_is = OnLevel-unique m n j level' (subst (OnLevel n) (sym j_is) level) in
            let e_is : e ≡ d = omega (arith, m_is, sum, sum') in
            ap₂ (is_node (set rest i v)) e_is j_is ∙ h
        | inr other ↦
            let j_not : i ≢ j = λ q. cc ((==_iff j i).1 (sym q), other) in
            is_node-set rest i v e j room j_not (λ q. ne (omega arith) (omega arith))
              (λ q. ne (omega arith) (omega arith))
            ∙ fits m e j sum' level' (λ h. absurd (omega arith))
      ]

  started_joined :
      (rest : List ℕ) (n d i v : ℕ)
      → OnLevel n i
      → n + d ≡ depth
      → i < length rest
      → FitsBut depth rest 0
      → 0 < i
      → is_joined
          (block d)
          (at (set rest i v) (parent_sibling i).0)
          (at rest i)
          (at (set rest i v) (parent_sibling i).1)
        ≡ true
  started_joined rest zero d i v level sum room fits h = absurd (omega arith)
  started_joined rest (suc n) d i v level sum room fits h =
      let p = (parent_sibling i).0 in
      let (p_is, on, sides) = parent_sibling-OnLevel n i level in
      rw
        (
          at-set_ne rest i v p room (grind (arith, sides)),
          at-set_ne rest i v (parent_sibling i).1 room (grind (arith, sides)),
        )
        (sym (is_node_family rest n d i level)
          ∙ fits n (suc d) p (omega arith) on (λ h. absurd (omega arith)))

  -- A loop starts where an entry was written that fits to those below it.
  pub Climb-start :
      (rest : List ℕ) (n d i v : ℕ)
      → OnLevel n i
      → n + d ≡ depth
      → length rest ≡ 2 ^ depth * 2
      → FitsBut depth rest 0
      → is_node (set rest i v) d i ≡ true
      → Climb depth (set rest i v) n d i (at rest i)
  Climb-start rest n d i v level sum room fits h =
      let inside : i < length rest = grind (arith, pow_above n depth) in
      record {
        level = level;
        height = sum;
        room = length-set rest i v ∙ room;
        fits = started_fits rest n d i v level sum inside fits h;
        joined = started_joined rest n d i v level sum inside fits;
      }
