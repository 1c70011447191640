-- ===== src/Version/Tests.antt =====
-- Tests of Base/VersionNumber.hpp, and its theorems at concrete versions.
use tiny_backend.Prelude.{◌+◌, ◌-◌, ◌^◌, ◌%◌, ◌≡◌, refl, true, false, not, arith}
use tiny_backend.Version.{word32, word64, add, increment, add32, lt, gt, ge, lt32, increment64}
use tiny_backend.Version.Arith
use tiny_backend.Version.Order

wraps :
    (add32 (2 ^ 32 - 2) 5 ≡ 3)
    × (increment64 (2 ^ 64 - 1) ≡ 0)
    × (add32 7 (2 ^ 32 - 8) ≡ 2 ^ 32 - 1)
unfolding add increment
wraps = (refl, refl, refl)

lt_over_the_wrap : (lt32 (2 ^ 32 - 1) 4 ≡ true) × (lt32 4 (2 ^ 32 - 1) ≡ false)
unfolding lt
lt_over_the_wrap = (refl, refl)

add-mod_example :
    (add word64 (2 ^ 64 - 1) 2 ≡ (2 ^ 64 - 1 + 2) % word64)
    × (increment word64 (2 ^ 64 - 1) ≡ (2 ^ 64 - 1 + 1) % word64)
add-mod_example = Arith.add-mod word64 (2 ^ 64 - 1) 2 (omega arith) (omega arith) (omega arith)

lt-trichotomy_example :
    (lt word32 9 3 ≡ not (lt word32 3 9))
    × (gt word32 3 9 ≡ lt word32 9 3)
    × (ge word32 3 9 ≡ not (lt word32 3 9))
lt-trichotomy_example =
    Order.lt-trichotomy word32 (2 ^ 31) (omega arith) (omega arith) 3 9 (omega arith) (omega arith)
      (omega arith)

lt-add_example : lt word64 (2 ^ 64 - 1) (add word64 (2 ^ 64 - 1) 12) ≡ true
lt-add_example =
    Order.lt-add word64 (2 ^ 63) (omega arith) (omega arith) (2 ^ 64 - 1) 12 (omega arith)
      (omega arith) (omega arith)
