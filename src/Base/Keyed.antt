-- ===== src/Base/Keyed.antt =====
-- Lists of rows with a key: two lists that agree place by place up to a relation, and what a change
-- of the row with a given key keeps.
use Prim.Native.Nat.{ℕ}
use mathlib.Core.Path.{◌≡◌, refl, sym, subst}
use mathlib.Core.Logic.{◌≢◌, inl, inr}
use mathlib.Core.Bool.{Bool, true, false}
use mathlib.Core.Option.{some}
use mathlib.Core.List.{List, [], ◌∷◌, ◌++◌}
use native.Mathlib.Omega.{arith}
use pfe.Base.Tests.{◌==◌, ==_iff, Bool-cases, if◌then◌else◌}
use pfe.Base.Lists.{find, modify, select, All, Pairwise, All-append, All-select}

module _ {ℓ κ} {A : Type ℓ} where
  pub data Pointwise (R : A → A → Type κ) : List A → List A → Type (ℓ ⊔ κ) where
    done : Pointwise R [] []
    next : {x y : A} {xs ys : List A} → R x y → Pointwise R xs ys → Pointwise R (x ∷ xs) (y ∷ ys)

  pub Pointwise-refl : {R : A → A → Type κ} → ((a : A) → R a a) → (xs : List A) → Pointwise R xs xs
  Pointwise-refl r [] = done
  Pointwise-refl r (x ∷ xs) = next (r x) (Pointwise-refl r xs)

  pub Pointwise-trans :
      {R S T : A → A → Type κ}
      → ((a b c : A) → R a b → S b c → T a c)
      → {xs ys zs : List A} → Pointwise R xs ys
      → Pointwise S ys zs
      → Pointwise T xs zs
  Pointwise-trans t done done = done
  Pointwise-trans t (next {x = a} {y = b} r p) (next {y = c} s q) =
      next (t a b c r s) (Pointwise-trans t p q)

module _ {ℓ κ} {A : Type ℓ} (R : A → A → Type κ) where
  -- A relation of one row to all the others.
  pub Pointwise-All :
      (P Q : A → Type κ)
      → ((a b : A) → R a b → P a → Q b)
      → {xs ys : List A} → Pointwise R xs ys
      → All P xs
      → All Q ys
  Pointwise-All P Q keep done h = tt
  Pointwise-All P Q keep (next {x} {y} r p) (q, h) = (keep x y r q, Pointwise-All P Q keep p h)

  pub Pointwise-Pairwise :
      (S : A → A → Type κ)
      → ((a b c d : A) → R a b → R c d → S a c → S b d)
      → {xs ys : List A} → Pointwise R xs ys
      → Pairwise S xs
      → Pairwise S ys
  Pointwise-Pairwise S keep done h = tt
  Pointwise-Pairwise S keep (next {x} {y} r p) (q, h) =
      (Pointwise-All (S x) (S y) (λ c d r'. keep x y c d r r') p q, Pointwise-Pairwise S keep p h)

module _ {ℓ κ} {A : Type ℓ} (R : A → A → Type κ) where
  pub Pairwise-append_one :
      (xs : List A) (y : A) → Pairwise R xs → All (λ x. R x y) xs → Pairwise R (xs ++ (y ∷ []))
  Pairwise-append_one [] y h k = (tt, tt)
  Pairwise-append_one (x ∷ xs) y (q, h) (r, k) =
      (All-append (R x) xs (y ∷ []) q (r, tt), Pairwise-append_one xs y h k)

  pub Pairwise-select : (p : A → Bool) (xs : List A) → Pairwise R xs → Pairwise R (select p xs)
  Pairwise-select p [] h = tt
  Pairwise-select p (x ∷ xs) (q, h) =
      elim (p x) as (λ b. Pairwise R (if b then x ∷ select p xs else select p xs)) [
        | true ↦ (All-select (R x) p xs q, Pairwise-select p xs h)
        | false ↦ Pairwise-select p xs h
      ]

module _ {ℓ} {A : Type ℓ} (key : A → ℕ) where
  -- Where no row has the key, a change of the rows with that key changes nothing.
  pub modify_absent :
      (i : ℕ) (f : A → A) (xs : List A)
      → All (λ a. i ≢ key a) xs
      → modify (λ a. key a == i) f xs ≡ xs
  modify_absent i f [] h = refl
  modify_absent i f (x ∷ xs) (ne, h) = ground (arith, modify_absent i f xs h)

  All-ne_of_eq :
      (i : ℕ) (x : A) (xs : List A)
      → key x ≡ i
      → All (λ a. key x ≢ key a) xs
      → All (λ a. i ≢ key a) xs
  All-ne_of_eq i x xs e h = rw e at h

module _ {ℓ κ} {A : Type ℓ} (key : A → ℕ) (R : A → A → Type κ) (same : (a : A) → R a a) where
  -- Keys being distinct, a change of the row found by its key relates each row to its successor.
  pub modify-Pointwise :
      (i : ℕ) (f : A → A) (xs : List A) (b : A)
      → Pairwise (λ a c. key a ≢ key c) xs
      → find (λ a. key a == i) xs ≡ some b
      → R b (f b)
      → Pointwise R xs (modify (λ a. key a == i) f xs)
  modify-Pointwise i f [] b u found r = done
  modify-Pointwise i f (x ∷ xs) b (ne, u) found r = elim (Bool-cases (key x == i)) [
    | inl hit ↦
        let first : x ≡ b = ground arith in
        rw (hit, modify_absent key i f xs (All-ne_of_eq key i x xs ((==_iff _ _).0 hit) ne))
          (next (subst (λ c. R c (f c)) (sym first) r) (Pointwise-refl same xs))
    | inr miss ↦ rw miss (next (same x) (modify-Pointwise i f xs b u (ground arith) r))
  ]

  -- A change that every row survives.
  pub modify-Pointwise_all :
      (p : A → Bool) (f : A → A)
      → ((a : A) → R a (f a))
      → (xs : List A) → Pointwise R xs (modify p f xs)
  modify-Pointwise_all p f keep [] = done
  modify-Pointwise_all p f keep (x ∷ xs) =
      elim (p x) as (λ b. Pointwise R (x ∷ xs) ((if b then f x else x) ∷ modify p f xs)) [
        | true ↦ next (keep x) (modify-Pointwise_all p f keep xs)
        | false ↦ next (same x) (modify-Pointwise_all p f keep xs)
      ]

  -- The row found by a key in one list is related to the row found by it in the other.
  pub Pointwise-find :
      ((a b : A) → R a b → key a ≡ key b)
      → (i : ℕ) (b : A) {xs ys : List A} → Pointwise R xs ys
      → find (λ a. key a == i) xs ≡ some b
      → (c : A) × (find (λ a. key a == i) ys ≡ some c) × R b c
  Pointwise-find keep i b done found = ground arith
  Pointwise-find keep i b (next {x} {y} {xs} {ys} r p) found = elim (Bool-cases (key x == i)) [
    | inl hit ↦
        let first : x ≡ b = ground arith in
        (y, ground (arith, keep x y r), subst (λ c. R c y) first r)
    | inr miss ↦
        let (c, found', r') = Pointwise-find keep i b p (ground arith) in
        (c, ground (arith, keep x y r), r')
  ]
