-- ===== src/Base/Double.antt =====
-- The arithmetic of JavaScript's numbers, as the services use it on amounts: nonnegative doubles, each
-- counted in 2 ^ -1074, the step of the least of them. A result is rounded to 53 bits, to the even
-- neighbour where two are as near. No amount is so large that it overflows.
use Prim.Native.Nat.{ℕ, zero, suc, ◌+◌, ◌*◌, ◌/◌, ◌%◌, ◌^◌}
use mathlib.Core.Path.{◌≡◌, refl}
use mathlib.Core.Bool.{true, false, ◌&&◌, ◌||◌}
use mathlib.Core.List.{List, [], ◌∷◌}
use pfe.Base.Tests.{ltb, ◌==◌, if◌then◌else◌}

-- How many bits of a number stand below the first 53. Halving it as often as it counts is enough.
unfoldable low_bits : ℕ → ℕ → ℕ
low_bits zero n = 0
low_bits (suc rounds) n = elim (ltb n (2 ^ 53)) [ true ↦ 0 | false ↦ suc (low_bits rounds (n / 2)) ]

unfoldable to_multiple : ℕ → ℕ → ℕ
to_multiple step n =
    let q = n / step in
    let r = n % step in
    if ltb (2 * r) step || 2 * r == step && q % 2 == 0 then q * step else (q + 1) * step

unfoldable pub rounded : ℕ → ℕ
unfolding low_bits to_multiple
rounded n = to_multiple (2 ^ low_bits n n) n

-- `+`
unfoldable pub add_double : ℕ → ℕ → ℕ
add_double a b = rounded (a + b)

-- `*` by a whole number.
unfoldable pub times_double : ℕ → ℕ → ℕ
times_double n a = rounded (n * a)

-- `reduce((sum, x) => sum + x, total)`
unfoldable pub sum_doubles : ℕ → List ℕ → ℕ
sum_doubles total [] = total
sum_doubles total (x ∷ xs) = sum_doubles (add_double total x) xs

-- 0.7 + 0.1 is below 0.8, which is 57646075230342352 on the same scale.
seven_tenths_and_one : add_double 50440315826549552 7205759403792794 ≡ 57646075230342344
unfolding add_double rounded
seven_tenths_and_one = refl
