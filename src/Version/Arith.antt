-- ===== src/Version/Arith.antt =====
-- Stepping a version of Base/VersionNumber.hpp is addition modulo the number of its values.
use native.Mathlib.Nat.{mod-eq_of_lt, mod-eq-sub-mod}
use tiny_backend.Prelude.{ℕ, ◌+◌, ◌-◌, ◌%◌, ◌≤◌, ◌<◌, ◌≡◌, ◌⊎◌, arith}
use tiny_backend.Version.{sub_word, max_word, increment, add}

-- A value below two turns, reduced.
pub mod-cases : (m x : ℕ) → x < m + m → ((x < m) × (x % m ≡ x)) ⊎ ((m ≤ x) × (x % m ≡ x - m))
mod-cases m x h = grind (
  arith,
  mod-eq_of_lt {n = x} {m = m},
  mod-eq-sub-mod {n = x} {m = m},
  mod-eq_of_lt {n = x - m} {m = m},
)

-- For a version and a step within the word, `+=` is addition modulo the number of values, and
-- `++` is a step by one.
pub add-mod :
    (m v s : ℕ) → v < m → s < m → 1 < m → (add m v s ≡ (v + s) % m) × (increment m v ≡ (v + 1) % m)
unfolding add increment
add-mod m v s hv hs hm =
    let res : sub_word m (max_word m) v ≡ m - 1 - v =
      grind (arith, mod-cases m (max_word m + m - v)) in
    let rest : s + m - (m - 1 - v) < m + m = omega arith in
    grind (
      arith,
      res,
      mod-cases m (v + s),
      mod-cases m (v + 1),
      mod-cases m (s + m - (m - 1 - v)),
      mod-cases m (sub_word m s (m - 1 - v) + m - 1),
    )
