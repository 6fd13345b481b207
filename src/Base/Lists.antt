-- ===== src/Base/Lists.antt =====
-- Lists as the rows of a table: search, selection, change in place, sums, and their laws.
use Prim.Native.Nat.{ℕ, suc, ◌+◌}
use mathlib.Core.Path.{◌≡◌, refl}
use mathlib.Core.Logic.{inl, inr}
use mathlib.Core.Bool.{Bool, true, false}
use mathlib.Core.Option.{Option, none, some}
use mathlib.Core.List.{List, [], ◌∷◌, ◌++◌}
use native.Mathlib.Omega.{arith}
use pfe.Base.Tests.{leb, if◌then◌else◌, Bool-cases}

module _ {ℓ} {A : Type ℓ} where
  abbrev pub length : List A → ℕ
  length [] = 0
  length (x ∷ xs) = suc (length xs)

  abbrev pub find : (A → Bool) → List A → Option A
  find p [] = none
  find p (x ∷ xs) = if p x then some x else find p xs

  abbrev pub select : (A → Bool) → List A → List A
  select p [] = []
  select p (x ∷ xs) = if p x then x ∷ select p xs else select p xs

  -- Every element that passes the test is replaced.
  abbrev pub modify : (A → Bool) → (A → A) → List A → List A
  modify p f [] = []
  modify p f (x ∷ xs) = (if p x then f x else x) ∷ modify p f xs

  abbrev pub sum_by : (A → ℕ) → List A → ℕ
  sum_by f [] = 0
  sum_by f (x ∷ xs) = f x + sum_by f xs

  abbrev pub any : (A → Bool) → List A → Bool
  any p [] = false
  any p (x ∷ xs) = if p x then true else any p xs

  -- The first of the elements whose key is least.
  abbrev pub earlier : (A → ℕ) → A → Option A → Option A
  earlier key x none = some x
  earlier key x (some y) = if leb (key x) (key y) then some x else some y

  abbrev pub first_by : (A → ℕ) → List A → Option A
  first_by key [] = none
  first_by key (x ∷ xs) = earlier key x (first_by key xs)

module _ {ℓ κ} {A : Type ℓ} where
  abbrev pub All : (A → Type κ) → List A → Type κ
  All P [] = Unit
  All P (x ∷ xs) = P x × All P xs

  abbrev pub Pairwise : (A → A → Type κ) → List A → Type κ
  Pairwise R [] = Unit
  Pairwise R (x ∷ xs) = All (R x) xs × Pairwise R xs

module _ {ℓ κ} {A : Type ℓ} {P Q : A → Type κ} where
  pub All-map : ((a : A) → P a → Q a) → (xs : List A) → All P xs → All Q xs
  All-map f [] h = tt
  All-map f (x ∷ xs) (p, h) = (f x p, All-map f xs h)

module _ {ℓ κ} {A : Type ℓ} (P : A → Type κ) where
  pub All-append : (xs ys : List A) → All P xs → All P ys → All P (xs ++ ys)
  All-append [] ys h k = k
  All-append (x ∷ xs) ys (p, h) k = (p, All-append xs ys h k)

  pub All-select : (p : A → Bool) (xs : List A) → All P xs → All P (select p xs)
  All-select p [] h = tt
  All-select p (x ∷ xs) (q, h) =
      elim (p x) as (λ b. All P (if b then x ∷ select p xs else select p xs)) [
        | true ↦ (q, All-select p xs h)
        | false ↦ All-select p xs h
      ]

  pub All-modify :
      (p : A → Bool) (f : A → A)
      → ((a : A) → p a ≡ true → P a → P (f a))
      → (xs : List A) → All P xs
      → All P (modify p f xs)
  All-modify p f keep [] h = tt
  All-modify p f keep (x ∷ xs) (q, h) = (changed (p x) refl, All-modify p f keep xs h)
    where
      changed : (b : Bool) → p x ≡ b → P (if b then f x else x)
      changed true e = keep x e q
      changed false e = q

module _ {ℓ} {A : Type ℓ} where
  -- An element found passes the test.
  pub find-some : (p : A → Bool) (xs : List A) (a : A) → find p xs ≡ some a → p a ≡ true
  find-some p [] a h = ground arith
  find-some p (x ∷ xs) a h = ground (arith, find-some p xs a)

  -- The first match after a change that keeps the test is the changed first match.
  pub find-modify :
      (p q : A → Bool) (f : A → A)
      → ((a : A) → p (f a) ≡ p a)
      → (xs : List A) (a : A) → find p xs ≡ some a
      → find p (modify q f xs) ≡ some (if q a then f a else a)
  find-modify p q f keep [] a h = ground arith
  find-modify p q f keep (x ∷ xs) a h = ground (arith, keep x, find-modify p q f keep xs a)

  pub find-modify-none :
      (p q : A → Bool) (f : A → A)
      → ((a : A) → p (f a) ≡ p a)
      → (xs : List A) → find p xs ≡ none
      → find p (modify q f xs) ≡ none
  find-modify-none p q f keep [] h = refl
  find-modify-none p q f keep (x ∷ xs) h = ground (arith, keep x, find-modify-none p q f keep xs)

  pub find-append :
      (p : A → Bool) (xs ys : List A) (a : A) → find p xs ≡ some a → find p (xs ++ ys) ≡ some a
  find-append p [] ys a h = ground arith
  find-append p (x ∷ xs) ys a h = ground (arith, find-append p xs ys a)

  -- A search that fails has seen every element fail.
  pub find-none : (p : A → Bool) (xs : List A) → find p xs ≡ none → All (λ a. p a ≡ false) xs
  find-none p [] h = tt
  find-none p (x ∷ xs) h = (ground arith, find-none p xs (ground arith))

  pub find_of_All : (p : A → Bool) (xs : List A) → All (λ a. p a ≡ false) xs → find p xs ≡ none
  find_of_All p [] h = refl
  find_of_All p (x ∷ xs) (e, h) = ground (arith, find_of_All p xs h)

  pub find-append_none :
      (p : A → Bool) (xs : List A) (b : A)
      → All (λ a. p a ≡ false) xs
      → p b ≡ true
      → find p (xs ++ (b ∷ [])) ≡ some b
  find-append_none p [] b h e = rw e
  find-append_none p (x ∷ xs) b (m, h) e = rw m (find-append_none p xs b h e)

  pub select_of_All : (p : A → Bool) (xs : List A) → All (λ a. p a ≡ true) xs → select p xs ≡ xs
  select_of_All p [] h = refl
  select_of_All p (x ∷ xs) (e, h) = ground (arith, select_of_All p xs h)

  pub select_none : (p : A → Bool) (xs : List A) → All (λ a. p a ≡ false) xs → select p xs ≡ []
  select_none p [] h = refl
  select_none p (x ∷ xs) (e, h) = ground (arith, select_none p xs h)

  pub select-All : (p : A → Bool) (xs : List A) → All (λ a. p a ≡ true) (select p xs)
  select-All p [] = tt
  select-All p (x ∷ xs) = elim (Bool-cases (p x)) [
    | inl e ↦ ground (arith, select-All p xs)
    | inr e ↦ ground (arith, select-All p xs)
  ]

  pub sum_by-append : (f : A → ℕ) (xs ys : List A) → sum_by f (xs ++ ys) ≡ sum_by f xs + sum_by f ys
  sum_by-append f [] ys = omega arith
  sum_by-append f (x ∷ xs) ys = omega (arith, sum_by-append f xs ys)

  pub length-append : (xs ys : List A) → length (xs ++ ys) ≡ length xs + length ys
  length-append [] ys = omega arith
  length-append (x ∷ xs) ys = omega (arith, length-append xs ys)

  pub select-append :
      (p : A → Bool) (xs ys : List A) → select p (xs ++ ys) ≡ select p xs ++ select p ys
  select-append p [] ys = refl
  select-append p (x ∷ xs) ys = ground (arith, select-append p xs ys)

  pub select_ext :
      (p q : A → Bool) → ((a : A) → p a ≡ q a) → (xs : List A) → select p xs ≡ select q xs
  select_ext p q same [] = refl
  select_ext p q same (x ∷ xs) = ground (arith, same x, select_ext p q same xs)
