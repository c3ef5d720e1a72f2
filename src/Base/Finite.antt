-- ===== src/Base/Finite.antt =====
-- A Boolean property of all numbers below a bound, checked by evaluation.
use Prim.Native.Nat.{ℕ, zero, suc, ◌<◌}
use mathlib.Core.Path.{◌≡◌}
use mathlib.Core.Bool.{Bool, true, false, ◌&&◌, not}
use native.Mathlib.Omega.{arith}

unfoldable pub all_codes : ℕ → (ℕ → Bool) → Bool
all_codes zero test = true
all_codes (suc n) test = all_codes n test && test n

pub all_codes-at :
    (n : ℕ) (test : ℕ → Bool) (code : ℕ) → code < n → all_codes n test ≡ true → test code ≡ true
unfolding all_codes
all_codes-at zero test code lt all = absurd (omega arith)
all_codes-at (suc n) test code lt all = ground (arith, all_codes-at n test code)

unfoldable pub bool_eq : Bool → Bool → Bool
bool_eq true b = b
bool_eq false b = not b

pub bool_eq→eq : (a b : Bool) → bool_eq a b ≡ true → a ≡ b
unfolding bool_eq
bool_eq→eq a b h = ground arith
