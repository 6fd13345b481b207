-- ===== src/Base/Text.antt =====
-- `String.prototype.trim`, and the use of a text as a condition.
use Prim.Native.Nat.{ℕ, zero, suc, ◌-◌}
use Prim.Native.Char.{Char, code}
use Prim.Native.String.{String}
use mathlib.Core.Bool.{Bool, true, false, ◌&&◌, ◌||◌}
use mathlib.Core.Option.{Option, none, some}
use pfe.Base.Tests.{leb, ◌==◌, if◌then◌else◌}

-- White space and line terminators of ECMAScript.
abbrev pub is_space : Char → Bool
is_space c =
    (leb 9 (code c) && leb (code c) 13)
    || code c == 32
    || code c == 160
    || code c == 0x1680
    || (leb 0x2000 (code c) && leb (code c) 0x200a)
    || code c == 0x2028
    || code c == 0x2029
    || code c == 0x202f
    || code c == 0x205f
    || code c == 0x3000
    || code c == 0xfeff

abbrev pub is_empty : String → Bool
is_empty String.[] = true
is_empty (String.◌∷◌ _ _) = false

abbrev pub trim_end : String → String
trim_end String.[] = String.[]
trim_end (String.◌∷◌ c s) =
    let rest = trim_end s in if is_space c && is_empty rest then String.[] else String.◌∷◌ c rest

abbrev pub trim_start : String → String
trim_start String.[] = String.[]
trim_start (String.◌∷◌ c s) = if is_space c then trim_start s else String.◌∷◌ c s

unfoldable pub trim : String → String
trim s = trim_end (trim_start s)

-- `s?.trim() || null`
unfoldable pub trimmed : Option String → Option String
trimmed none = none
trimmed (some s) = if is_empty (trim s) then none else some (trim s)

-- A text as a condition: the empty text counts as missing.
abbrev pub nonempty : Option String → Option String
nonempty none = none
nonempty (some s) = if is_empty s then none else some s

-- `a || b` and `a ?? b` of nullable texts.
abbrev pub first_of_texts : Option String → Option String → Option String
first_of_texts none b = b
first_of_texts (some a) b = some a

-- The character at a place of a text.
abbrev pub nth : String → ℕ → Char
nth String.[] d = "0"
nth (String.◌∷◌ c s) zero = c
nth (String.◌∷◌ c s) (suc d) = nth s d

-- `toLowerCase`, of the letters that it takes to ASCII: the capitals of ASCII, the Kelvin sign, which
-- becomes a k, and the capital I with a dot, which becomes an i and a mark that is no letter (here the
-- capital itself). Other letters stay as they are.
unfoldable pub lower : String → String
lower String.[] = String.[]
lower (String.◌∷◌ c s) =
    let rest = lower s in
    if leb 65 (code c) && leb (code c) 90
    then String.◌∷◌ (nth "abcdefghijklmnopqrstuvwxyz" (code c - 65)) rest
    else if code c == 0x212a
    then String.◌∷◌ "k" rest
    else if code c == 0x130
    then String.◌∷◌ "i" (String.◌∷◌ c rest)
    else String.◌∷◌ c rest
