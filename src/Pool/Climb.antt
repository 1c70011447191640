-- ===== src/Pool/Climb.antt =====
-- One step of the loops of `get` and `put` of Base/Buffer/src/BufferPool.cpp, from a node to the
-- one above it.
use tiny_backend.Prelude.{
  ℕ, zero, suc, ◌+◌, ◌*◌, ◌^◌, ◌≤◌, ◌<◌, ◌≡◌, ◌≢◌, inl, inr, sym, ap₂, ◌∙◌, true, List, length, set,
  ◌==◌, arith, Bool-cases, ==_iff, ltb, ltb→lt, length-set,
}
use mathlib.Core.Path.{subst}
use tiny_backend.Pool.{at, parent_sibling}
use tiny_backend.Pool.Tree.{
  block, is_joined, is_node, OnLevel, FitsBut, is_joined_sym, at-set, parent_sibling-OnLevel,
}

pub pow_above : (m n : ℕ) → m < n → 2 ^ m * 2 ≤ 2 ^ n
pow_above m zero h = absurd (omega arith)
pow_above m (suc n) h = elim (Bool-cases (ltb m n)) [
  | inl below ↦ omega (arith, pow_above m n (ltb→lt m n below))
  | inr last ↦ let e : m ≡ n = ground arith in rw e (omega arith)
]

pub OnLevel-unique : (m n i : ℕ) → OnLevel m i → OnLevel n i → m ≡ n
OnLevel-unique m n i h h' = elim (Bool-cases (m == n)) [
  | inl e ↦ (==_iff m n).0 e
  | inr ne ↦
      let e : m ≢ n = λ e. cc ((==_iff m n).1 e, ne) in grind (arith, pow_above m n, pow_above n m)
]

-- The entry that a write sets, and the others.
pub at-set_self : (xs : List ℕ) (i v : ℕ) → i < length xs → at (set xs i v) i ≡ v
at-set_self xs i v h = ground (arith, at-set xs i v i h)

pub at-set_ne : (xs : List ℕ) (i v j : ℕ) → i < length xs → i ≢ j → at (set xs i v) j ≡ at xs j
at-set_ne xs i v j h ne = ground (arith, at-set xs i v j h)

pub is_node-set :
    (rest : List ℕ) (p v d j : ℕ)
    → p < length rest
    → p ≢ j
    → p ≢ j * 2 + 1
    → p ≢ j * 2 + 2
    → is_node (set rest p v) d j ≡ is_node rest d j
unfolding is_node
is_node-set rest p v zero j h ne l r = rw (at-set_ne rest p v j h ne)
is_node-set rest p v (suc d) j h ne l r = rw (
  at-set_ne rest p v j h ne,
  at-set_ne rest p v (j * 2 + 1) h l,
  at-set_ne rest p v (j * 2 + 2) h r,
)

-- The node above fits to a node and the one beside it.
pub is_node_family :
    (rest : List ℕ) (n d i : ℕ)
    → OnLevel (suc n) i
    → let (p, s) = parent_sibling i in
      is_node rest (suc d) p ≡ is_joined (block d) (at rest p) (at rest i) (at rest s)
unfolding is_node
is_node_family rest n d i level =
    let p = (parent_sibling i).0 in
    elim (parent_sibling-OnLevel n i level).2 [
      | inl (left, right) ↦ cc (left, right)
      | inr (right, left) ↦
          is_joined_sym (block d) (at rest p) (at rest (p * 2 + 1)) (at rest (p * 2 + 2))
          ∙ cc (left, right)
    ]

module _ (depth : ℕ) where
  -- Where a loop stands: at node `i`, `n` levels below the root and `d` above the leaves. All nodes
  -- fit but the one above, which fitted when the entry of node `i` was `o`.
  pub record Climb (rest : List ℕ) (n d i o : ℕ) : Type 0 where
    pub level : OnLevel n i
    pub height : n + d ≡ depth
    pub room : length rest ≡ 2 ^ depth * 2
    pub fits : FitsBut depth rest i
    pub joined :
        0 < i
        → is_joined (block d) (at rest (parent_sibling i).0) o (at rest (parent_sibling i).1) ≡ true

  pub Climb-inside : {rest : List ℕ} {n d i o : ℕ} → Climb rest n d i o → i < length rest
  Climb-inside {rest} {n} {d} {i} c = grind (arith, c.level, c.height, c.room, pow_above n depth)

  -- A node of the tree with the index of the node above is that one.
  above_unique :
      {rest : List ℕ} {n d i o : ℕ} (c : Climb rest (suc n) d i o) (m e j : ℕ)
      → m + e ≡ depth
      → OnLevel m j
      → j ≡ (parent_sibling i).0
      → e ≡ suc d
  above_unique {n = n} {d} {i} c m e j sum level same =
      let on : OnLevel n j = subst (OnLevel n) (sym same) (parent_sibling-OnLevel n i c.level).1 in
      omega (arith, OnLevel-unique m n j level on, sum, c.height)

  -- The node above fits again, and all do.
  pub Climb-settled :
      {rest : List ℕ} {n d i o : ℕ}
      → Climb rest (suc n) d i o
      → is_joined
          (block d)
          (at rest (parent_sibling i).0)
          (at rest i)
          (at rest (parent_sibling i).1)
        ≡ true
      → FitsBut depth rest 0
  Climb-settled {rest} {n} {d} {i} c h m e j sum level _ =
      let p = (parent_sibling i).0 in
      elim (Bool-cases (j == p)) [
        | inl same ↦
            let j_is : j ≡ p = (==_iff j p).0 same in
            ap₂ (is_node rest) (above_unique c m e j sum level j_is) j_is
            ∙ is_node_family rest n d i c.level
            ∙ h
        | inr other ↦
            let j_not : j ≢ p = λ q. cc ((==_iff j p).1 q, other) in
            c.fits m e j sum level (λ _ q. j_not (q ∙ sym (parent_sibling-OnLevel n i c.level).0))
      ]

  -- The entry of the node above is written so that it fits, and the loop goes on from there.
  risen_fits :
      {rest : List ℕ} {n d i o : ℕ} (c : Climb rest (suc n) d i o) (v : ℕ)
      → is_joined (block d) v (at rest i) (at rest (parent_sibling i).1) ≡ true
      → FitsBut depth (set rest (parent_sibling i).0 v) (parent_sibling i).0
  risen_fits {rest} {n} {d} {i} c v h m e j sum level ne =
      let p = (parent_sibling i).0 in
      let inside = Climb-inside c in
      let (p_is, on, sides) = parent_sibling-OnLevel n i c.level in
      let room : p < length rest = grind (arith, sides, inside) in
      elim (Bool-cases (j == p)) [
        | inl same ↦
            let j_is : j ≡ p = (==_iff j p).0 same in
            ap₂ (is_node (set rest p v)) (above_unique c m e j sum level j_is) j_is
            ∙ is_node_family (set rest p v) n d i c.level
            ∙ rw
                (
                  at-set_self rest p v room,
                  at-set_ne rest p v i room (grind (arith, sides)),
                  at-set_ne rest p v (parent_sibling i).1 room (grind (arith, sides)),
                )
                h
        | inr other ↦
            let j_not : j ≢ p = λ q. cc ((==_iff j p).1 q, other) in
            is_node-set rest p v e j room (λ q. j_not (sym q)) (λ q. ne (omega arith) (omega arith))
              (λ q. ne (omega arith) (omega arith))
            ∙ c.fits m e j sum level (λ _ q. j_not (q ∙ sym p_is))
      ]

  joined_above :
      {rest : List ℕ} {d i o : ℕ} (n : ℕ) (c : Climb rest (suc n) d i o) (v : ℕ)
      → let p = (parent_sibling i).0 in
        0 < p
        → is_joined
            (block (suc d))
            (at (set rest p v) (parent_sibling p).0)
            (at rest p)
            (at (set rest p v) (parent_sibling p).1)
          ≡ true
  joined_above {rest} {d} {i} zero c v h =
      absurd (omega (arith, (parent_sibling-OnLevel zero i c.level).1))
  joined_above {rest} {d} {i} (suc n) c v h =
      let p = (parent_sibling i).0 in
      let g = (parent_sibling p).0 in
      let (p_is, on, sides) = parent_sibling-OnLevel (suc n) i c.level in
      let (g_is, on', sides') = parent_sibling-OnLevel n p on in
      let room : p < length rest = grind (arith, sides, Climb-inside c) in
      let not_g : p ≢ g = grind (arith, sides') in
      rw
        (
          at-set_ne rest p v g room not_g,
          at-set_ne rest p v (parent_sibling p).1 room (grind (arith, sides')),
        )
        (sym (is_node_family rest n (suc d) p on)
          ∙ c.fits n (suc (suc d)) g (omega (arith, c.height)) on' (λ _ q. not_g (p_is ∙ sym q)))

  pub Climb-risen :
      {rest : List ℕ} {n d i o : ℕ} (c : Climb rest (suc n) d i o) (v : ℕ)
      → is_joined (block d) v (at rest i) (at rest (parent_sibling i).1) ≡ true
      → let p = (parent_sibling i).0 in Climb (set rest p v) n (suc d) p (at rest p)
  Climb-risen {rest} {n} {d} {i} c v h =
      let p = (parent_sibling i).0 in
      record {
        level = (parent_sibling-OnLevel n i c.level).1;
        height = omega (arith, c.height);
        room = length-set rest p v ∙ c.room;
        fits = risen_fits c v h;
        joined = joined_above n c v;
      }
