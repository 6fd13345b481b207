-- ===== src/Contract/Owners.antt =====
-- backend/src/lease-contract/lease-contract.service.ts: the renter that holds a contract, and the
-- organisation that hosts it.
use pfe.Base.{
  ℕ, ◌≡◌, ◌≢◌, ◌↔◌, ◌⊎◌, inl, inr, refl, sym, ◌∙◌, Bool, true, false, ◌&&◌, none, some, List, [],
  ◌∷◌, arith, find, if◌then◌else◌, ◌==◌, ==_iff, All, All-map, Bool-cases, select-All, select,
}
use pfe.Prisma.{Prisma}
use pfe.Service.{ok, throw, forbidden, Call, final}
use pfe.Roles.{AuthUser, super_admin}
use pfe.Schema.{Db, LeaseContract}
use pfe.Contract

-- A further test on the key does not change which row is found by it.
find-and {ℓ} :
    {R : Type ℓ} (id : R → ℕ) (q : ℕ → Bool) (i : ℕ) (xs : List R) (b : R)
    → find (λ r. id r == i) xs ≡ some b
    → q i ≡ true
    → find (λ r. (id r == i) && q (id r)) xs ≡ some b
find-and id q i [] b found hit = ground arith
find-and id q i (x ∷ xs) b found hit = elim (Bool-cases (id x == i)) [
  | inl here ↦ let same : q (id x) ≡ true = rw ((==_iff (id x) i).0 here) hit in ground arith
  | inr there ↦ ground (arith, find-and id q i xs b)
]

find-and_none {ℓ} :
    {R : Type ℓ} (id : R → ℕ) (q : ℕ → Bool) (i : ℕ) (xs : List R)
    → q i ≡ false
    → find (λ r. (id r == i) && q (id r)) xs ≡ none
find-and_none id q i [] miss = refl
find-and_none id q i (x ∷ xs) miss = elim (Bool-cases (id x == i)) [
  | inl here ↦
      let same : q (id x) ≡ false = rw ((==_iff (id x) i).0 here) miss in
      ground (arith, find-and_none id q i xs miss)
  | inr there ↦ ground (arith, find-and_none id q i xs miss)
]

-- Who may read a contract: the platform owner, the renter that holds it, and an organisation in
-- whose buildings a booking on one of its invoices lies.
abbrev pub MayReadContract : ⦃P : Prisma⦄ → AuthUser → LeaseContract → Db → Type 0
MayReadContract user c s =
    (user.role ≡ super_admin)
    ⊎ (c.tenant_id ≡ user.tenant_id)
    ⊎ (Contract.is_hosted_by user.tenant_id s c.id ≡ true)

module _ ⦃P : Prisma⦄ where
  open P use {rows, find_first, find_many}

  found_hosted :
      (user : AuthUser) (id : ℕ) (s : Db) (c : LeaseContract)
      → Contract.find_contract id s ≡ some c
      → find_first
          (λ (r : LeaseContract). (r.id == id) && Contract.is_hosted_by user.tenant_id s r.id)
          s.lease_contracts
        ≡ (if Contract.is_hosted_by user.tenant_id s id then some c else none)
  found_hosted user id s c found =
      P.find_first-rows _ _ ∙ elim (Bool-cases (Contract.is_hosted_by user.tenant_id s id)) [
        | inl host ↦ rw host (
            find-and (λ (r : LeaseContract). r.id) (Contract.is_hosted_by user.tenant_id s) id
              (rows s.lease_contracts) c (sym (P.find_first-rows _ _) ∙ found) host)
        | inr guest ↦ rw guest (
            find-and_none (λ (r : LeaseContract). r.id) (Contract.is_hosted_by user.tenant_id s) id
              (rows s.lease_contracts) guest)
      ]

  pub assert_contract_readable_iff :
      (user : AuthUser) (s : Db) (c : LeaseContract)
      → Contract.find_contract c.id s ≡ some c
      → (Contract.assert_contract_readable user c.id s ≡ (ok tt, s)) ↔ MayReadContract user c s
  unfolding Contract.assert_contract_readable
  assert_contract_readable_iff user s c found =
      let hosted = found_hosted user c.id s c found in
      elim (Bool-cases (Contract.is_hosted_by user.tenant_id s c.id)) [
        | inl host ↦ (λ h. ground arith, λ may. ground arith)
        | inr guest ↦ (λ h. ground arith, λ may. ground arith)
      ]

  -- The unfiltered list shows a stored contract to a user exactly where opening it by its id
  -- succeeds.
  pub contract_where-readable :
      (user : AuthUser) (s : Db) (c : LeaseContract)
      → Contract.find_contract c.id s ≡ some c
      → (Contract.contract_where user none none s c ≡ true)
        ↔ (Contract.assert_contract_readable user c.id s ≡ (ok tt, s))
  unfolding Contract.contract_where
  contract_where-readable user s c found =
      let (opens, may) = assert_contract_readable_iff user s c found in
      (λ shown. may (ground arith), λ opened. let reads = opens opened in ground arith)

  find_one_refused :
      (user : AuthUser) (s : Db) (c : LeaseContract)
      → Contract.find_contract c.id s ≡ some c
      → ¬ (MayReadContract user c s)
      → Contract.find_one_contract_for_user user c.id s ≡ (throw forbidden, s)
  unfolding Contract.find_one_contract_for_user Contract.assert_contract_readable
  find_one_refused user s c found hidden =
      let hosted = found_hosted user c.id s c found in
      elim (Bool-cases (Contract.is_hosted_by user.tenant_id s c.id)) [
        | inl host ↦ absurd (hidden (inr (inr host)))
        | inr guest ↦ ground arith
      ]

  -- Whoever may not read a stored contract changes nothing by amending, removing, signing,
  -- terminating or renewing it.
  pub contract_refused :
      (user : AuthUser) (new_end : ℕ) (dto : Contract.UpdateLeaseContractDto) (s : Db)
      (c : LeaseContract)
      → Contract.find_contract c.id s ≡ some c
      → ¬ (MayReadContract user c s)
      → (final (Contract.update_contract user c.id dto s) ≡ s)
        × (final (Contract.remove_contract user c.id s) ≡ s)
        × (final (Contract.sign_contract user c.id s) ≡ s)
        × (final (Contract.terminate_contract user c.id s) ≡ s)
        × (final (Contract.renew_contract user c.id new_end s) ≡ s)
  unfolding Contract.update_contract Contract.remove_contract Contract.sign_contract
      Contract.terminate_contract Contract.renew_contract
  contract_refused user new_end dto s c found hidden =
      let shut = find_one_refused user s c found hidden in
      (ground arith, ground arith, ground arith, ground arith, ground arith)

  -- The list of expiring contracts shows anyone but the platform owner only contracts that their own
  -- organisation holds.
  pub get_expiring_contracts-held :
      (call : Call) (user : AuthUser) (days : ℕ) (s : Db)
      → user.role ≢ super_admin
      → All
          (λ (c : LeaseContract). c.tenant_id ≡ user.tenant_id)
          (Contract.get_expiring_contracts call user days s)
  unfolding Contract.get_expiring_contracts
  get_expiring_contracts-held call user days s owner =
      let limited : Contract.get_expiring_contracts call user days s
          ≡ select (λ (c : LeaseContract). c.tenant_id == user.tenant_id)
              (find_many (Contract.is_expiring call.now days) s.lease_contracts) =
        ground arith in
      rw limited (
        All-map (λ c own. (==_iff c.tenant_id user.tenant_id).0 own) _
          (select-All (λ (c : LeaseContract). c.tenant_id == user.tenant_id) _))
