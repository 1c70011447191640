-- ===== src/Pool/Frame.antt =====
-- Which nodes the loops of Base/Buffer/src/BufferPool.cpp leave alone: blocks that were handed out
-- before do not stand above a node with something free above it.
use tiny_backend.Prelude.{
  ℕ, zero, suc, ◌+◌, ◌*◌, ◌≤◌, ◌<◌, ◌≡◌, ◌≢◌, ◌⊎◌, inl, inr, refl, sym, ap, ap₂, ◌∙◌, true, List,
  arith,
}
use tiny_backend.Pool.{at, parent_sibling}
use mathlib.Core.Path.{subst}
use tiny_backend.Pool.Tree.{
  block, block-suc, block_positive, is_joined, is_handed_out, OnLevel, FitsBut,
  parent_sibling-OnLevel,
}
use tiny_backend.Pool.Climb.{is_node_family, OnLevel-unique}
use tiny_backend.Pool.Loops.{Alive, Outside}

pub Alive-Outside : (rest : List ℕ) (n i j : ℕ) → Alive rest n i → at rest j ≡ 0 → Outside j n i
unfolding Alive Outside
Alive-Outside rest zero i j a e = tt
Alive-Outside rest (suc n) i j (a, a') e = (
  λ q. absurd (omega (arith, a, ap (at rest) (sym q) ∙ e)),
  Alive-Outside rest n (parent_sibling i).0 j a' e,
)

pub below_Outside : (n i j : ℕ) → OnLevel n i → i ≤ j → Outside j n i
unfolding Outside
below_Outside zero i j level h = tt
below_Outside (suc n) i j level h =
    let (p_is, on, sides) = parent_sibling-OnLevel n i level in
    (grind (arith, sides), below_Outside n (parent_sibling i).0 j on (grind (arith, sides)))

-- Nor does a node below such a node stand above `i`, or is `i`, unless `i` is at the root.
pub child_Outside :
    (n i j c : ℕ)
    → OnLevel n i
    → (c ≡ j * 2 + 1) ⊎ (c ≡ j * 2 + 2)
    → Outside j n i
    → Outside c n i × (c ≢ i)
unfolding Outside
child_Outside zero i j c level side out = (tt, grind (arith, side))
child_Outside (suc n) i j c level side (ne, out) =
    let (p_is, on, sides) = parent_sibling-OnLevel n i level in
    let (out', ne') = child_Outside n (parent_sibling i).0 j c on side out in
    ((ne', out'), grind (arith, side, sides))

pub is_handed_out-cong :
    (rest rest' : List ℕ) (d j : ℕ)
    → at rest' j ≡ at rest j
    → at rest' (j * 2 + 1) ≡ at rest (j * 2 + 1)
    → at rest' (j * 2 + 2) ≡ at rest (j * 2 + 2)
    → is_handed_out rest' d j ≡ is_handed_out rest d j
unfolding is_handed_out
is_handed_out-cong rest rest' zero j e l r = rw e refl
is_handed_out-cong rest rest' (suc d) j e l r = rw (e, l, r) refl

pub handed_out_empty : (rest : List ℕ) (d j : ℕ) → is_handed_out rest d j ≡ true → at rest j ≡ 0
unfolding is_handed_out
handed_out_empty rest zero j h = ground arith
handed_out_empty rest (suc d) j h = ground arith

-- A node over one that is not free was not handed out as a whole, and is not free itself.
handed_out_full :
    (rest : List ℕ) (d j : ℕ)
    → is_handed_out rest (suc d) j ≡ true
    → (at rest (j * 2 + 1) ≡ block d) × (at rest (j * 2 + 2) ≡ block d)
unfolding is_handed_out
handed_out_full rest d j h = ground arith

is_joined_small : (b x l r : ℕ) → is_joined b x l r ≡ true → 0 < b → l < b → x < b * 2
unfolding is_joined
is_joined_small b x l r h hb hl = ground arith

pub not_free-Outside :
    {depth : ℕ} (rest : List ℕ) (n d i m e j : ℕ)
    → FitsBut depth rest 0
    → n + d ≡ depth
    → OnLevel n i
    → at rest i < block d
    → m + e ≡ depth
    → OnLevel m j
    → is_handed_out rest e j ≡ true
    → Outside j n i
unfolding Outside
not_free-Outside rest zero d i m e j fits sum level small sum' level' out = tt
not_free-Outside rest (suc n) d i m e j fits sum level small sum' level' out =
    let p = (parent_sibling i).0 in
    let (p_is, on, sides) = parent_sibling-OnLevel n i level in
    let node = fits n (suc d) p (omega arith) on (λ h. absurd (omega arith)) in
    let joined = sym (is_node_family rest n d i level) ∙ node in
    let small' =
      is_joined_small (block d) (at rest p) (at rest i) (at rest (parent_sibling i).1) joined
        (block_positive d) small in
    (
      λ q.
          let m_is = OnLevel-unique m n p (subst (OnLevel m) q level') on in
          let e_is : e ≡ suc d = omega (arith, m_is, sum, sum') in
          let (l, r) = handed_out_full rest d p (sym (ap₂ (is_handed_out rest) e_is q) ∙ out) in
          elim sides [
            | inl (i_is, s_is) ↦ absurd (omega (arith, ap (at rest) i_is, l, small))
            | inr (i_is, s_is) ↦ absurd (omega (arith, ap (at rest) i_is, r, small))
          ],
      not_free-Outside rest n (suc d) p m e j fits (omega arith) on (rw (block-suc d) small') sum'
          level' out,
    )
