-- ===== src/Base/Decimal.antt =====
-- The decimal print of a number, as JavaScript's template strings make it, and that different
-- numbers print differently.
use Prim.Native.Nat.{ℕ, zero, suc, ◌+◌, ◌-◌, ◌*◌, ◌/◌, ◌%◌, ◌<◌}
use Prim.Native.Char.{Char, code}
use Prim.Native.String.{String, [], ◌∷◌}
use mathlib.Core.Path.{◌≡◌, refl, sym, ap, ◌∙◌}
use native.Mathlib.Omega.{arith}
use pfe.Base.Tests.{ltb, if◌then◌else◌}
use pfe.Base.Text.{nth}

unfoldable digit : ℕ → Char
digit d = nth "0123456789" d

unfoldable digits : ℕ → ℕ → String → String
digits zero n out = out
digits (suc fuel) n out =
    let rest = digits fuel (n / 10) (digit (n % 10) ∷ out) in
    if ltb n 10 then digit n ∷ out else rest

unfoldable pub decimal : ℕ → String
unfolding digits digit
decimal n = digits (suc n) n []

value : ℕ → String → ℕ
value n [] = n
value n (c ∷ s) = value (n * 10 + (code c - 48)) s

-- A text of characters whose numbers count up, and how many they are.
abbrev CountsUp : ℕ → String → Type 0
CountsUp k [] = Unit
CountsUp k (c ∷ s) = (code c ≡ k) × CountsUp (suc k) s

abbrev size : String → ℕ
size [] = 0
size (c ∷ s) = suc (size s)

nth-code : (k : ℕ) (s : String) (d : ℕ) → CountsUp k s → d < size s → code (nth s d) ≡ k + d
nth-code k [] d up h = absurd (omega arith)
nth-code k (c ∷ s) zero (e, up) h = omega arith
nth-code k (c ∷ s) (suc d) (e, up) h = omega (arith, nth-code (suc k) s d up (omega arith))

digit-code : (d : ℕ) → d < 10 → code (digit d) ≡ 48 + d
unfolding digit
digit-code d h =
    nth-code 48 "0123456789" d
      (refl, (refl, (refl, (refl, (refl, (refl, (refl, (refl, (refl, (refl, tt)))))))))) h

-- Reading the digits of a number gives it back.
value-digits : (fuel n : ℕ) (out : String) → n < fuel → value 0 (digits fuel n out) ≡ value n out
unfolding digits value
value-digits zero n out h = absurd (omega arith)
value-digits (suc fuel) n out h =
    ground
      (arith, digit-code n, digit-code (n % 10), value-digits fuel (n / 10) (digit (n % 10) ∷ out))

pub decimal_injective : (m n : ℕ) → decimal m ≡ decimal n → m ≡ n
unfolding decimal value
decimal_injective m n h =
    sym (value-digits (suc m) m [] (omega arith))
    ∙ ap (value 0) h
    ∙ value-digits (suc n) n [] (omega arith)
