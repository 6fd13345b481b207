-- ===== src/Base/Found.antt =====
-- The row that a search finds, where keys are distinct, and a change of that row.
use Prim.Native.Nat.{ℕ}
use mathlib.Core.Path.{◌≡◌, refl, subst}
use mathlib.Core.Logic.{◌≢◌, inl, inr}
use mathlib.Core.Bool.{Bool}
use mathlib.Core.Option.{some}
use mathlib.Core.List.{List, [], ◌∷◌}
use native.Mathlib.Omega.{arith}
use pfe.Base.Tests.{◌==◌, ==_iff, ==_refl, Bool-cases}
use pfe.Base.Lists.{find, modify, All, All-map, Pairwise}
use pfe.Base.Keyed.{modify_absent}

module _ {ℓ} {A : Type ℓ} (key : A → ℕ) where
  -- The row found is none of those that have another key.
  pub find-apart :
      (q : A → Bool) (i : ℕ) (xs : List A) (b : A)
      → All (λ a. i ≢ key a) xs
      → find q xs ≡ some b
      → i ≢ key b
  find-apart q i [] b h found = ground arith
  find-apart q i (x ∷ xs) b (ne, h) found = ground (arith, find-apart q i xs b h)

  -- Whatever it was searched by, the row is found by its key.
  pub find_by_key :
      (q : A → Bool) (xs : List A) (b : A)
      → Pairwise (λ a c. key a ≢ key c) xs
      → find q xs ≡ some b
      → find (λ a. key a == key b) xs ≡ some b
  find_by_key q [] b distinct found = ground arith
  find_by_key q (x ∷ xs) b (apart, distinct) found = elim (Bool-cases (q x)) [
    | inl hit ↦ let first : x ≡ b = ground arith in rw (first, ==_refl (key b)) refl
    | inr miss ↦
        let later : find q xs ≡ some b = ground arith in
        let other = find-apart q (key x) xs b apart later in
        ground (arith, find_by_key q xs b distinct later)
  ]

module _ {ℓ κ} {A : Type ℓ} (key : A → ℕ) (f : A → A) where
  pub modify-All_found :
      (P : A → Type κ) (i : ℕ) (xs : List A) (b : A)
      → Pairwise (λ a c. key a ≢ key c) xs
      → find (λ a. key a == i) xs ≡ some b
      → P (f b)
      → All P xs
      → All P (modify (λ a. key a == i) f xs)
  modify-All_found P i [] b distinct found new old = tt
  modify-All_found P i (x ∷ xs) b (apart, distinct) found new (p, old) =
      elim (Bool-cases (key x == i)) [
        | inl here ↦
            let first : x ≡ b = ground arith in
            let absent : All (λ a. i ≢ key a) xs = rw ((==_iff _ _).0 here) at apart in
            rw (here, modify_absent key i f xs absent, first) (new, old)
        | inr there ↦ rw there (p, modify-All_found P i xs b distinct (ground arith) new old)
      ]

  -- A symmetric relation of any two rows, after the change of one that keeps it to all the others.
  pub modify-Pairwise_found :
      (S : A → A → Type κ) (i : ℕ) (xs : List A) (b : A)
      → ((a c : A) → S a c → S c a)
      → Pairwise (λ a c. key a ≢ key c) xs
      → find (λ a. key a == i) xs ≡ some b
      → All (λ a. S a (f b)) xs
      → Pairwise S xs
      → Pairwise S (modify (λ a. key a == i) f xs)
  modify-Pairwise_found S i [] b symmetric distinct found new old = tt
  modify-Pairwise_found S i (x ∷ xs) b symmetric (apart, distinct) found (n, new) (o, old) =
      elim (Bool-cases (key x == i)) [
        | inl here ↦
            let first : x ≡ b = ground arith in
            let absent : All (λ a. i ≢ key a) xs = rw ((==_iff _ _).0 here) at apart in
            rw (here, modify_absent key i f xs absent, first)
              (All-map (λ a r. symmetric a (f b) r) xs new, old)
        | inr there ↦ rw there (
          modify-All_found (S x) i xs b distinct (ground arith) n o,
          modify-Pairwise_found S i xs b symmetric distinct (ground arith) new old,
        )
      ]

module _ {ℓ κ} {A : Type ℓ} where
  -- What holds of every row holds of the one found.
  pub All-found :
      (P : A → Type κ) (q : A → Bool) (xs : List A) (b : A) → find q xs ≡ some b → All P xs → P b
  All-found P q [] b found h = ground arith
  All-found P q (x ∷ xs) b found (p, h) = elim (Bool-cases (q x)) [
    | inl hit ↦ let first : x ≡ b = ground arith in subst P first p
    | inr miss ↦ All-found P q xs b (ground arith) h
  ]

  -- The row found is related to every row, where the relation is reflexive and symmetric.
  pub Pairwise-found :
      (S : A → A → Type κ) (q : A → Bool) (xs : List A) (b : A)
      → ((a c : A) → S a c → S c a)
      → ((a : A) → S a a)
      → find q xs ≡ some b
      → Pairwise S xs
      → All (λ a. S a b) xs
  Pairwise-found S q [] b symmetric reflexive found distinct = tt
  Pairwise-found S q (x ∷ xs) b symmetric reflexive found (apart, distinct) =
      elim (Bool-cases (q x)) [
        | inl hit ↦
            let first : x ≡ b = ground arith in
            (
              subst (λ c. S x c) first (reflexive x),
              All-map (λ a r. symmetric b a (subst (λ c. S c a) first r)) xs apart,
            )
        | inr miss ↦
            let later : find q xs ≡ some b = ground arith in
            (
              All-found (S x) q xs b later apart,
              Pairwise-found S q xs b symmetric reflexive later distinct,
            )
      ]
