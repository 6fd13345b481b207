-- ===== src/Service.antt =====
-- A handler of a service: it reads and writes a state, and it returns a value or throws one of
-- NestJS's exceptions. What was written before a throw stays written, since the services open no
-- transaction around a handler.
use pfe.Base.{ℕ, ◌≡◌, refl, ap, ◌⊎◌, inl, inr, String, Bool, true, false, Option, none, some}

-- `internal_error` is any exception that is none of NestJS's, such as Prisma's for data that names no
-- column.
pub data HttpError : Type 0 where
  bad_request unauthorized forbidden not_found conflict internal_error : HttpError

pub data Result (A : Type 0) : Type 0 where
  ok : A → Result A
  throw : HttpError → Result A

pub Result-cases :
    {A : Type 0} (r : Result A) → ((a : A) × (r ≡ ok a)) ⊎ ((e : HttpError) × (r ≡ throw e))
Result-cases (ok a) = inl (a, refl)
Result-cases (throw e) = inr (e, refl)

module _ {S A : Type 0} where
  abbrev pub pure : A → S → Result A × S
  pure a s = (ok a, s)

  abbrev pub throw_error : HttpError → S → Result A × S
  throw_error e s = (throw e, s)

  abbrev pub or_throw : HttpError → Option A → S → Result A × S
  or_throw e none s = (throw e, s)
  or_throw e (some a) s = (ok a, s)

  abbrev pub reads : (S → A) → S → Result A × S
  reads f s = (ok (f s), s)

  -- A lookup whose missing row is an exception.
  abbrev pub reads_or : HttpError → (S → Option A) → S → Result A × S
  reads_or e f s = or_throw e (f s) s

module _ {S : Type 0} where
  abbrev pub throw_if : Bool → HttpError → S → Result (Unit {0}) × S
  throw_if true e s = (throw e, s)
  throw_if false e s = (ok tt, s)

  abbrev pub writes : (S → S) → S → Result (Unit {0}) × S
  writes f s = (ok tt, f s)

infixl 5 ◌>>=◌ ◌>>◌
abbrev pub ◌>>=◌ : {S A B : Type 0} → (S → Result A × S) → (A → S → Result B × S) → S → Result B × S
◌>>=◌ m f s = let (r, s') = m s in elim r [ ok a ↦ f a s' | throw e ↦ (throw e, s') ]

abbrev pub ◌>>◌ :
    {S B : Type 0} → (S → Result (Unit {0}) × S) → (S → Result B × S) → S → Result B × S
m >> k = m >>= λ _. k

-- The step after one that returns.
pub bind-ok :
    {S A B : Type 0} (m : S → Result A × S) (f : A → S → Result B × S) (s s' : S) (a : A)
    → m s ≡ (ok a, s')
    → (m >>= f) s ≡ f a s'
bind-ok {S} {A} {B} m f s s' a e =
    ap
      (λ (p : Result A × S). elim p.0 as (λ _. Result B × S) [
        | ok b ↦ f b p.1
        | throw err ↦ (throw err, p.1)
      ])
      e

-- What holds of the state after a handler holds whichever way it ended.
abbrev pub final : {S A : Type 0} → Result A × S → S
final (_, s) = s

module _ {S : Type 0} where
  -- `if (b) { … }`
  abbrev pub run_if : Bool → (S → Result (Unit {0}) × S) → S → Result (Unit {0}) × S
  run_if true m s = m s
  run_if false m s = (ok tt, s)

-- What a call takes from the clock and from uuid: `uuid k` is the k-th id that it makes.
pub record Call : Type 0 where
  pub now : ℕ
  pub uuid : ℕ → ℕ
  pub number : String
