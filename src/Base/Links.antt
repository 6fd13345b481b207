-- ===== src/Base/Links.antt =====
-- Rows that refer to rows of another list by key, and what the references keep when rows go.
use Prim.Native.Nat.{ℕ}
use mathlib.Core.Path.{◌≡◌, refl}
use mathlib.Core.Logic.{◌⊎◌, inl, inr}
use mathlib.Core.Bool.{Bool, true, false}
use mathlib.Core.Option.{Option, none, some}
use mathlib.Core.List.{List, [], ◌∷◌, map}
use native.Mathlib.Omega.{arith}
use pfe.Base.Tests.{◌==◌, Bool-cases}
use pfe.Base.Lists.{any, select, modify, All}

-- `{ in: ids }`
abbrev pub is_in : List ℕ → ℕ → Bool
is_in ids i = any (λ j. j == i) ids

abbrev pub is_in_some : List ℕ → Option ℕ → Bool
is_in_some ids none = false
is_in_some ids (some i) = is_in ids i

pub is_in_some_nil : (o : Option ℕ) → is_in_some [] o ≡ false
is_in_some_nil none = refl
is_in_some_nil (some i) = refl

pub is_in_apart :
    (ids : List ℕ) (i j : ℕ) → is_in ids i ≡ true → is_in ids j ≡ false → (i == j) ≡ false
is_in_apart [] i j there out = ground arith
is_in_apart (k ∷ ids) i j there out = ground (arith, is_in_apart ids i j)

module _ {ℓ} {A : Type ℓ} where
  pub All-always {κ} : {P : A → Type κ} → ((a : A) → P a) → (xs : List A) → All P xs
  All-always f [] = tt
  All-always f (x ∷ xs) = (f x, All-always f xs)

  pub All-zip {κ μ} :
      (P : A → Type κ) (Q : A → Type μ) (xs : List A)
      → All P xs
      → All Q xs
      → All (λ a. P a × Q a) xs
  All-zip P Q [] h k = tt
  All-zip P Q (x ∷ xs) (p, h) (q, k) = ((p, q), All-zip P Q xs h k)

  -- What the rows that stay have, of what all rows had.
  pub All-kept {κ μ} :
      (q : A → Bool) {X : A → Type κ} {Y : A → Type μ}
      → ((a : A) → q a ≡ true → X a → Y a)
      → (xs : List A) → All X xs
      → All Y (select q xs)
  All-kept q keep [] h = tt
  All-kept q keep (x ∷ xs) (p, h) = elim (Bool-cases (q x)) [
    | inl e ↦ rw e (keep x e p, All-kept q keep xs h)
    | inr e ↦ rw e (All-kept q keep xs h)
  ]

  -- What all rows have after some of them were changed.
  pub All-changed {κ μ} :
      (q : A → Bool) (f : A → A) {X : A → Type κ} {Y : A → Type μ}
      → ((a : A) → q a ≡ true → X a → Y (f a))
      → ((a : A) → q a ≡ false → X a → Y a)
      → (xs : List A) → All X xs
      → All Y (modify q f xs)
  All-changed q f changed kept [] h = tt
  All-changed q f changed kept (x ∷ xs) (p, h) = elim (Bool-cases (q x)) [
    | inl e ↦ rw e (changed x e p, All-changed q f changed kept xs h)
    | inr e ↦ rw e (kept x e p, All-changed q f changed kept xs h)
  ]

  pub select_always : (p : A → Bool) → ((a : A) → p a ≡ true) → (xs : List A) → select p xs ≡ xs
  select_always p e [] = refl
  select_always p e (x ∷ xs) = rw (e x, select_always p e xs) refl

  pub modify_never :
      (p : A → Bool) (f : A → A) → ((a : A) → p a ≡ false) → (xs : List A) → modify p f xs ≡ xs
  modify_never p f e [] = refl
  modify_never p f e (x ∷ xs) = rw (e x, modify_never p f e xs) refl

module _ {A : Type 0} (key : A → ℕ) where
  -- Some row has the key, and the same of a nullable reference.
  abbrev pub has : List A → ℕ → Bool
  has xs i = any (λ a. key a == i) xs

  abbrev pub has_some : List A → Option ℕ → Bool
  has_some xs none = true
  has_some xs (some i) = has xs i

  -- The keys of the rows that pass a test.
  abbrev pub keys_of : (A → Bool) → List A → List ℕ
  keys_of q xs = map key (select q xs)

  keys_of-All_in :
      (q : A → Bool) (ids : List ℕ) (xs : List A)
      → ((i : ℕ) → is_in (keys_of q xs) i ≡ true → is_in ids i ≡ true)
      → All (λ a. (q a ≡ false) ⊎ (is_in ids (key a) ≡ true)) xs
  keys_of-All_in q ids [] within = tt
  keys_of-All_in q ids (x ∷ xs) within = elim (Bool-cases (q x)) [
    | inl e ↦ (
      inr (within (key x) (ground arith)),
      keys_of-All_in q ids xs (λ i h. within i (ground arith)),
    )
    | inr e ↦ (inl e, keys_of-All_in q ids xs (λ i h. within i (ground arith)))
  ]

  -- The key of a row that passes is among those collected.
  pub keys_of-All :
      (q : A → Bool) (xs : List A)
      → All (λ a. (q a ≡ false) ⊎ (is_in (keys_of q xs) (key a) ≡ true)) xs
  keys_of-All q xs = keys_of-All_in q (keys_of q xs) xs (λ i h. h)

  -- A row stays that has a key which is none of those gone.
  pub has-select :
      (q : A → Bool) (gone : List ℕ) (i : ℕ) (xs : List A)
      → All (λ a. (q a ≡ true) ⊎ (is_in gone (key a) ≡ true)) xs
      → is_in gone i ≡ false
      → has xs i ≡ true
      → has (select q xs) i ≡ true
  has-select q gone i [] h out there = there
  has-select q gone i (x ∷ xs) (p, h) out there =
      ground (arith, is_in_apart gone (key x) i, has-select q gone i xs h out)
