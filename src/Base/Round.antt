-- ===== src/Base/Round.antt =====
-- Python's rounding of exact quotients: `round(x, 2)` of a Decimal is half-to-even, `int(x)` cuts
-- towards zero.
use Prim.Native.Nat.{ℕ, ◌+◌, ◌*◌, ◌/◌, ◌%◌, ◌≤◌, ◌<◌}
use native.Mathlib.Omega.{arith}
use retail_iq.Base.Tests.{ltb, if◌then◌else◌}
use retail_iq.Base.Int.{ℤ, pos, negsuc, neg}

-- n / d to the nearest whole number, a tie to the even one.
unfoldable pub half_even : ℕ → ℕ → ℕ
half_even n d =
    let q = n / d in
    let r = n % d in if ltb (2 * r) d then q else if ltb d (2 * r) then q + 1 else q + q % 2

unfoldable pub round_div : ℤ → ℕ → ℤ
round_div (pos n) d = pos (half_even n d)
round_div (negsuc n) d = neg (pos (half_even (n + 1) d))

-- `int(a / b)` for b ≠ 0.
unfoldable pub trunc_div : ℤ → ℤ → ℤ
trunc_div (pos a) (pos b) = pos (a / b)
trunc_div (pos a) (negsuc b) = neg (pos (a / (b + 1)))
trunc_div (negsuc a) (pos b) = neg (pos ((a + 1) / b))
trunc_div (negsuc a) (negsuc b) = pos ((a + 1) / (b + 1))

-- The rounded value is within half a unit of the exact one.
pub half_even_nearest :
    (n d : ℕ)
    → 0 < d
    → (2 * (half_even n d * d) ≤ 2 * n + d) × (2 * n ≤ 2 * (half_even n d * d) + d)
unfolding half_even
half_even_nearest n d h = grind arith
