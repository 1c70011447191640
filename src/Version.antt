-- ===== src/Version.antt =====
-- Base/VersionNumber.hpp: the wrapping version counters VersionNumber64 and VersionNumber32.
-- The two classes have one text at two widths, so each operation is written once over the number
-- `m` of values of the word, and named at 2 ^ 64 and at 2 ^ 32.
pub mod Arith
pub mod Order
mod Tests
use tiny_backend.Prelude.{
  ℕ, ◌+◌, ◌-◌, ◌/◌, ◌%◌, ◌^◌, Bool, not, ◌||◌, ltb, leb, ◌==◌, if◌then◌else◌,
}

-- Unsigned subtraction of the word wraps.
abbrev pub sub_word : ℕ → ℕ → ℕ → ℕ
sub_word m a b = (a + m - b) % m

-- MAX_ULLONG or MAX_UINT.
abbrev pub max_word : ℕ → ℕ
max_word m = m - 1

-- `operator++`, before and after.
unfoldable pub increment : ℕ → ℕ → ℕ
increment m version = if not (version == max_word m) then (version + 1) % m else 0

-- `operator+=` and `operator+`.
unfoldable pub add : ℕ → ℕ → ℕ → ℕ
add m version step =
    let res = sub_word m (max_word m) version in
    if ltb step res then (version + step) % m else sub_word m (sub_word m step res) 1

unfoldable pub lt : ℕ → ℕ → ℕ → Bool
lt m left right =
    if ltb left right
    then leb (sub_word m right left) (max_word m / 2)
    else ltb (max_word m / 2) (sub_word m left right)

unfoldable pub gt : ℕ → ℕ → ℕ → Bool
gt m left right =
    if ltb right left
    then leb (sub_word m left right) (max_word m / 2)
    else ltb (max_word m / 2) (sub_word m right left)

unfoldable pub le : ℕ → ℕ → ℕ → Bool
le m left right = left == right || lt m left right

unfoldable pub ge : ℕ → ℕ → ℕ → Bool
ge m left right = left == right || gt m left right

abbrev pub word32 : ℕ
word32 = 2 ^ 32

abbrev pub word64 : ℕ
word64 = 2 ^ 64

abbrev pub increment32 : ℕ → ℕ
increment32 = increment word32

abbrev pub add32 : ℕ → ℕ → ℕ
add32 = add word32

abbrev pub lt32 : ℕ → ℕ → Bool
lt32 = lt word32

abbrev pub gt32 : ℕ → ℕ → Bool
gt32 = gt word32

abbrev pub increment64 : ℕ → ℕ
increment64 = increment word64
