-- ===== src/Version/Order.antt =====
-- The window order of Base/VersionNumber.hpp: `a < b` if `b` is less than half a turn ahead.
use tiny_backend.Prelude.{
  ℕ, ◌+◌, ◌*◌, ◌-◌, ◌<◌, ◌≡◌, ◌≢◌, inl, inr, true, false, not, ltb, ◌^◌, arith,
}
use tiny_backend.Version.Arith.{mod-cases, add-mod}
use tiny_backend.Version.{add, lt, gt, ge, increment, lt32, gt32, increment32}

module _ (m h : ℕ) (even : m ≡ 2 * h) (positive : 0 < h) where
  -- For two different versions within the word exactly one is below the other, `>` is `<` the
  -- other way round, and `>=` is the negation of `<`.
  pub lt-trichotomy :
      (a b : ℕ)
      → a < m
      → b < m
      → a ≢ b
      → (lt m b a ≡ not (lt m a b)) × (gt m a b ≡ lt m b a) × (ge m a b ≡ not (lt m a b))
  unfolding lt gt ge
  lt-trichotomy a b ha hb ne = ground arith

  -- Advancing a version by a step shorter than half a turn, which may pass the wrap-around, gives
  -- a version above it.
  pub lt-add : (v k : ℕ) → v < m → 0 < k → k < h → lt m v (add m v k) ≡ true
  unfolding lt
  lt-add v k hv h0 hk =
      rw (add-mod m v k hv (omega arith) (omega arith)).0
        (elim (mod-cases m (v + k) (omega arith)) [
          | inl (below, e) ↦ rw e (grind (arith, mod-cases m (v + k + m - v)))
          | inr (above, e) ↦ rw e (grind (arith, mod-cases m (v + m - (v + k - m))))
        ])

-- Below half of the word, where nothing has wrapped, the order is that of the numbers.
pub lt_small :
    (a b : ℕ)
    → a < 2 ^ 31
    → b < 2 ^ 31
    → (lt32 a b ≡ ltb a b) × (gt32 a b ≡ ltb b a) × (increment32 a ≡ a + 1)
unfolding lt gt increment
lt_small a b ha hb = ground arith

pub not-lt_self : (v : ℕ) → lt32 v v ≡ false
unfolding lt
not-lt_self v = ground arith

-- Neither the next version nor one that is above is below.
pub not-lt-increment : (v : ℕ) → v < 2 ^ 32 → lt32 (increment32 v) v ≡ false
unfolding lt increment
not-lt-increment v h = ground arith

pub not-lt_of_gt : (a b : ℕ) → a < 2 ^ 32 → b < 2 ^ 32 → gt32 a b ≡ true → lt32 a b ≡ false
unfolding lt gt
not-lt_of_gt a b ha hb h = ground arith
