-- ===== src/Contract/Signing.antt =====
-- backend/src/lease-contract/lease-contract.service.ts: the first contract of an organisation.
use pfe.Base.{
  ℕ, ◌+◌, ◌≡◌, ◌≢◌, ◌↔◌, inl, inr, refl, sym, ◌∙◌, Bool, true, false, ◌&&◌, some, List, [], ◌∷◌,
  arith, find, ◌==◌, ==_iff, ==_refl, All, Pairwise, Bool-cases, eq_iff, length, select, modify,
  modify_absent,
}
use pfe.Prisma.{Prisma}
use pfe.Service.{ok}
use pfe.Roles.{AuthUser}
use pfe.Schema.{Db, LeaseContract}
use pfe.Contract
use pfe.Contract.Life.{signing, written, find_one-cases}

-- A row that starts to pass a test is one more that passes it.
select-modify_one {ℓ} :
    {R : Type ℓ} (key : R → ℕ) (p : R → Bool) (f : R → R) (id : ℕ) (xs : List R) (b : R)
    → Pairwise (λ a c. key a ≢ key c) xs
    → find (λ r. key r == id) xs ≡ some b
    → p b ≡ false
    → p (f b) ≡ true
    → length (select p (modify (λ r. key r == id) f xs)) ≡ length (select p xs) + 1
select-modify_one key p f id [] b distinct found before after = ground arith
select-modify_one key p f id (x ∷ xs) b (apart, distinct) found before after =
    elim (Bool-cases (key x == id)) [
      | inl here ↦
          let first : x ≡ b = ground arith in
          let absent : All (λ a. id ≢ key a) xs = rw ((==_iff _ _).0 here) at apart in
          let same = modify_absent key id f xs absent in ground arith
      | inr there ↦ ground (arith, select-modify_one key p f id xs b distinct)
    ]

module _ ⦃P : Prisma⦄ where
  open P use {rows, count}

  -- The active contracts of an organisation.
  abbrev pub active_of : ℕ → Db → ℕ
  active_of tenant_id s =
      count (λ (c : LeaseContract). (c.tenant_id == tenant_id) && Contract.has_status "ACTIVE" c)
        s.lease_contracts

  active_of-signed :
      (id : ℕ) (s : Db) (c : LeaseContract)
      → Pairwise (λ (a b : LeaseContract). a.id ≢ b.id) (rows s.lease_contracts)
      → Contract.find_contract id s ≡ some c
      → Contract.has_status "DRAFT" c ≡ true
      → active_of c.tenant_id (Contract.update_contract_row id (written signing) s)
        ≡ active_of c.tenant_id s + 1
  unfolding Contract.has_status
  active_of-signed id s c distinct found draft =
      let is_draft : c.status ≡ "DRAFT" = (eq_iff c.status "DRAFT").0 draft in
      rw (P.count-rows, P.count-rows, P.rows-update)
        (select-modify_one (λ (r : LeaseContract). r.id)
          (λ (r : LeaseContract). (r.tenant_id == c.tenant_id) && Contract.has_status "ACTIVE" r)
          (written signing) id (rows s.lease_contracts) c distinct
          (sym (P.find_first-rows _ _) ∙ found) (rw (==_refl c.tenant_id, is_draft) refl)
          (rw (==_refl c.tenant_id) refl))

  -- A contract that is signed starts the onboarding exactly where its organisation had no active
  -- contract before. The contracts have distinct ids.
  pub sign_contract-first :
      (user : AuthUser) (id : ℕ) (s : Db) (c : LeaseContract) (starts : Bool)
      → Pairwise (λ (a b : LeaseContract). a.id ≢ b.id) (rows s.lease_contracts)
      → Contract.find_contract id s ≡ some c
      → (Contract.sign_contract user id s).0 ≡ ok starts
      → (starts ≡ true) ↔ (active_of c.tenant_id s ≡ 0)
  unfolding Contract.sign_contract
  sign_contract-first user id s c starts distinct found signed =
      elim (find_one-cases user id s c found) [
        | inl opened ↦ elim (Bool-cases (Contract.has_status "DRAFT" c)) [
          | inl draft ↦ let more = active_of-signed id s c distinct found draft in ground arith
          | inr other ↦ ground arith
        ]
        | inr refused ↦ ground arith
      ]
