-- ===== src/Property/Slugs/Laws.antt =====
-- backend/src/building/building.service.ts and space/space.service.ts: what a slug is made of, and
-- that the search for a free one ends.
use Prim.Native.Nat.{zero, suc}
use Prim.Native.Char.{Char}
use pfe.Base.{
  ℕ, ◌≤◌, ◌<◌, ◌≡◌, ◌≢◌, inl, inr, refl, sym, ◌∙◌, Bool, true, false, not, ◌&&◌, ◌||◌, some, String,
  str_eq, eq_iff, List, [], ◌∷◌, arith, trim, is_empty, decimal_injective, lower, any, select,
  length, Bool-cases,
}
use text.Mathlib.TextLemmas.{append_cancel_left, append-nil, tail-eq_of_cons-eq, nil≢cons}
use pfe.Property.Slugs.{
  is_slug_char, is_dash, dashed, drop_dashes, drop_end_dashes, first_chars, to_slug, numbered,
  free_slug,
}

-- A text of small letters, digits and dashes.
abbrev pub all_chars : (Char → Bool) → String → Bool
all_chars p String.[] = true
all_chars p (String.◌∷◌ c s) = p c && all_chars p s

abbrev pub is_slug_part : Char → Bool
is_slug_part c = is_slug_char c || is_dash c

dashed-chars : (gap : Bool) (s : String) → all_chars is_slug_part (dashed gap s) ≡ true
unfolding dashed
dashed-chars gap String.[] = refl
dashed-chars gap (String.◌∷◌ c s) = ground (arith, dashed-chars true s, dashed-chars false s)

drop_dashes-chars :
    (s : String) → all_chars is_slug_part s ≡ true → all_chars is_slug_part (drop_dashes s) ≡ true
unfolding drop_dashes
drop_dashes-chars String.[] h = refl
drop_dashes-chars (String.◌∷◌ c s) h = ground (arith, drop_dashes-chars s)

drop_end_dashes-chars :
    (s : String)
    → all_chars is_slug_part s ≡ true
    → all_chars is_slug_part (drop_end_dashes s) ≡ true
unfolding drop_end_dashes
drop_end_dashes-chars String.[] h = refl
drop_end_dashes-chars (String.◌∷◌ c s) h = ground (arith, drop_end_dashes-chars s)

first_chars-chars :
    (n : ℕ) (s : String)
    → all_chars is_slug_part s ≡ true
    → all_chars is_slug_part (first_chars n s) ≡ true
unfolding first_chars
first_chars-chars n String.[] h = refl
first_chars-chars zero (String.◌∷◌ c s) h = refl
first_chars-chars (suc n) (String.◌∷◌ c s) h = ground (arith, first_chars-chars n s)

-- Whatever a building or a space is called, its slug is not empty and has small letters, digits and
-- dashes only, if the fallback is such a text.
pub to_slug-is_slug :
    (width : ℕ) (fallback value : String)
    → is_empty fallback ≡ false
    → all_chars is_slug_part fallback ≡ true
    → (is_empty (to_slug width fallback value) ≡ false)
      × (all_chars is_slug_part (to_slug width fallback value) ≡ true)
unfolding to_slug
to_slug-is_slug width fallback value filled proper =
    let spaced = dashed false (trim (lower value)) in
    let inner = drop_dashes spaced in
    let stripped = drop_end_dashes inner in
    let chars = first_chars-chars width stripped (
      drop_end_dashes-chars inner
        (drop_dashes-chars spaced (dashed-chars false (trim (lower value))))) in
    ground (arith, chars)

is_in : String → List String → Bool
is_in s xs = any (λ x. str_eq x s) xs

-- Without a text, a list that has it is shorter, and it has every other text still.
others : String → List String → List String
others s xs = select (λ x. not (str_eq x s)) xs

length-others_le : (s : String) (xs : List String) → length (others s xs) ≤ length xs
unfolding others
length-others_le s [] = omega arith
length-others_le s (x ∷ xs) = ground (arith, length-others_le s xs)

length-others_lt :
    (s : String) (xs : List String) → is_in s xs ≡ true → length (others s xs) < length xs
unfolding others is_in
length-others_lt s [] h = ground arith
length-others_lt s (x ∷ xs) h = ground (arith, length-others_lt s xs, length-others_le s xs)

is_in-others :
    (s t : String) (xs : List String) → t ≢ s → is_in t xs ≡ true → is_in t (others s xs) ≡ true
unfolding others is_in
is_in-others s t [] ne h = ground arith
is_in-others s t (x ∷ xs) ne h = elim (Bool-cases (str_eq x s)) [
  | inl same ↦
      let first : x ≡ s = (eq_iff x s).0 same in
      let later : str_eq x t ≡ false = elim (Bool-cases (str_eq x t)) [
        | inl hit ↦ absurd (ne (sym ((eq_iff x t).0 hit) ∙ first))
        | inr miss ↦ miss
      ] in
      ground (arith, is_in-others s t xs ne)
  | inr other ↦ ground (arith, is_in-others s t xs ne)
]

numbered_injective : (base : String) (i j : ℕ) → numbered base i ≡ numbered base j → i ≡ j
unfolding numbered
numbered_injective base i j h =
    decimal_injective i j (tail-eq_of_cons-eq (append_cancel_left base _ _ h))

base≢numbered : (base : String) (i : ℕ) → base ≢ numbered base i
unfolding numbered
base≢numbered base i h = nil≢cons (append_cancel_left base _ _ (append-nil base ∙ h))

suc_apart : (i j : ℕ) → suc i ≤ j → i ≢ j
suc_apart i j le e = omega arith

-- After more rounds than there are texts taken, the search has a slug, which is not taken: the text
-- tried first is one of the `left` if it is taken, and so is each numbered one to come.
free_slug-left :
    (taken : String → Bool) (base : String) (rounds : ℕ) (slug : String) (i : ℕ)
    (left : List String)
    → length left < rounds
    → (taken slug ≡ true → is_in slug left ≡ true)
    → ((j : ℕ) → i ≤ j → taken (numbered base j) ≡ true → is_in (numbered base j) left ≡ true)
    → ((j : ℕ) → i ≤ j → slug ≢ numbered base j)
    → (r : String) × (free_slug taken base rounds slug i ≡ some r) × (taken r ≡ false)
unfolding free_slug
free_slug-left taken base zero slug i left enough now later apart = absurd (omega arith)
free_slug-left taken base (suc rounds) slug i left enough now later apart =
    elim (Bool-cases (taken slug)) [
      | inr free ↦ (slug, rw free refl, free)
      | inl used ↦
          let fewer = length-others_lt slug left (now used) in
          let (r, found, free) =
            free_slug-left taken base rounds (numbered base i) (suc i) (others slug left)
              (omega arith)
              (λ t.
                is_in-others slug (numbered base i) left (λ e. apart i (omega arith) (sym e))
                  (later i (omega arith) t))
              (λ j le t.
                is_in-others slug (numbered base j) left (λ e. apart j (omega arith) (sym e))
                  (later j (omega arith) t))
              (λ j le e. absurd (suc_apart i j le (numbered_injective base i j e))) in
          (r, rw used found, free)
    ]

-- The search of `buildUniqueSlug` ends: with one round more than there are slugs in use, it has a
-- slug, and one that is not in use.
pub free_slug-found :
    (used : List String) (base : String)
    → (r : String) × (free_slug (λ s. any (λ x. str_eq x s) used) base (suc (length used)) base 2
        ≡ some r)
      × (any (λ x. str_eq x r) used ≡ false)
unfolding is_in
free_slug-found used base =
    free_slug-left (λ s. any (λ x. str_eq x s) used) base (suc (length used)) base 2 used
      (omega arith) (λ t. t) (λ j le t. t) (λ j le. base≢numbered base j)
