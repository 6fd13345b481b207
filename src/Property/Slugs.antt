-- ===== src/Property/Slugs.antt =====
-- backend/src/building/building.service.ts and space/space.service.ts: the slug of a building or a
-- space.
pub mod Laws
pub mod Unique
use Prim.Native.Nat.{zero, suc}
use Prim.Native.Char.{Char, code}
use Prim.Native.String
use pfe.Base.{
  ℕ, Bool, true, false, ◌&&◌, ◌||◌, Option, none, some, String, leb, ◌==◌, if◌then◌else◌, trim,
  is_empty, decimal, lower, is_some, str_eq, is_some, str_eq,
}
use pfe.Prisma.{Prisma}

-- `[a-z0-9]`
abbrev pub is_slug_char : Char → Bool
is_slug_char c = leb 97 (code c) && leb (code c) 122 || leb 48 (code c) && leb (code c) 57

abbrev is_dash : Char → Bool
is_dash c = code c == 45

-- `.replace(/[^a-z0-9]+/g, '-')`: `gap` tells that the run of other characters has its dash already.
unfoldable dashed : Bool → String → String
dashed gap String.[] = String.[]
dashed gap (String.◌∷◌ c s) =
    let inside = dashed true s in
    let after = dashed false s in
    if is_slug_char c then String.◌∷◌ c after else if gap then inside else String.◌∷◌ "-" inside

-- `.replace(/^-+|-+$/g, '')`
unfoldable drop_dashes : String → String
drop_dashes String.[] = String.[]
drop_dashes (String.◌∷◌ c s) = if is_dash c then drop_dashes s else String.◌∷◌ c s

unfoldable drop_end_dashes : String → String
drop_end_dashes String.[] = String.[]
drop_end_dashes (String.◌∷◌ c s) =
    let rest = drop_end_dashes s in
    if is_dash c && is_empty rest then String.[] else String.◌∷◌ c rest

-- `.slice(0, n)`, on a text of ASCII.
unfoldable first_chars : ℕ → String → String
first_chars n String.[] = String.[]
first_chars zero (String.◌∷◌ c s) = String.[]
first_chars (suc n) (String.◌∷◌ c s) = String.◌∷◌ c (first_chars n s)

-- `toSlug`: `width` is 60 for a building and 70 for a space, and `fallback` the text for a value
-- without a letter or a digit.
unfoldable pub to_slug : ℕ → String → String → String
unfolding lower dashed drop_dashes drop_end_dashes first_chars
to_slug width fallback value =
    let slug =
      first_chars width (drop_end_dashes (drop_dashes (dashed false (trim (lower value))))) in
    if is_empty slug then fallback else slug

-- `${baseSlug}-${i}`
unfoldable pub numbered : String → ℕ → String
numbered base i = String.◌++◌ base (String.◌∷◌ "-" (decimal i))

-- The loop of `buildUniqueSlug`, for a number of rounds: `slug` is the next to try, and `i` the number
-- of the one after it.
unfoldable pub free_slug : (String → Bool) → String → ℕ → String → ℕ → Option String
unfolding numbered
free_slug taken base zero slug i = none
free_slug taken base (suc rounds) slug i =
    let rest = free_slug taken base rounds (numbered base i) (suc i) in
    if taken slug then rest else some slug

module _ ⦃P : Prisma⦄ where
  open P use {Table, find_first, count}

  -- `buildUniqueSlug` on the rows of a table that are not left out. Each round but the last meets a row
  -- of its own, and so there is one round more than there are rows.
  unfoldable pub unique_slug :
      {R : Type 0} → (R → String) → (R → Bool) → String → Table R → Option String
  unfolding free_slug
  unique_slug slug_of searched base t =
      free_slug (λ s. is_some (find_first (λ r. searched r && str_eq (slug_of r) s) t)) base
        (suc (count searched t)) base 2
