-- ===== src/Contract/Life.antt =====
-- backend/src/lease-contract/lease-contract.service.ts: signing, terminating and renewing.
use pfe.Base.{ℕ, ◌≡◌, ◌≢◌, ◌⊎◌, inl, inr, refl, true, false, some, arith, String, str_eq, eq_iff}
use pfe.Prisma.{Prisma}
use pfe.Tables.{find_first-update, find_first-update_ne}
use pfe.Service.{ok, throw, forbidden, final}
use pfe.Roles.{AuthUser}
use pfe.Schema.{Db, LeaseContract}
use pfe.Contract

-- What a user may do with a contract but amend it.
pub data Move : Type 0 where
  signing terminating : Move
  renewing : ℕ → Move

-- The edges of a contract's life.
abbrev pub IsEdge : Move → String → String → Type 0
IsEdge signing a b = (a ≡ "DRAFT") × (b ≡ "ACTIVE")
IsEdge terminating a b = (a ≡ "ACTIVE") × (b ≡ "TERMINATED")
IsEdge (renewing _) a b = (a ≡ "ACTIVE") × (b ≡ "RENEWED")

-- The status that a move asks for, and the row that it writes.
abbrev pub asked : Move → String
asked signing = "DRAFT"
asked _ = "ACTIVE"

abbrev pub written : Move → LeaseContract → LeaseContract
written signing c = record c { status = "ACTIVE" }
written terminating c = record c { status = "TERMINATED" }
written (renewing end_date) c = record c { status = "RENEWED"; end_date = end_date }

written-id : (m : Move) (c : LeaseContract) → (written m c).id ≡ c.id
written-id signing c = refl
written-id terminating c = refl
written-id (renewing _) c = refl

written-tenant_id : (m : Move) (c : LeaseContract) → (written m c).tenant_id ≡ c.tenant_id
written-tenant_id signing c = refl
written-tenant_id terminating c = refl
written-tenant_id (renewing _) c = refl

written-monthly_rent : (m : Move) (c : LeaseContract) → (written m c).monthly_rent ≡ c.monthly_rent
written-monthly_rent signing c = refl
written-monthly_rent terminating c = refl
written-monthly_rent (renewing _) c = refl

written-IsEdge :
    (m : Move) (c : LeaseContract)
    → Contract.has_status (asked m) c ≡ true
    → IsEdge m c.status (written m c).status
unfolding Contract.has_status
written-IsEdge signing c ready = ((eq_iff c.status "DRAFT").0 ready, refl)
written-IsEdge terminating c ready = ((eq_iff c.status "ACTIVE").0 ready, refl)
written-IsEdge (renewing _) c ready = ((eq_iff c.status "ACTIVE").0 ready, refl)

renewed-unasked : (m : Move) → str_eq "RENEWED" (asked m) ≡ true → ⊥
renewed-unasked signing h = ground arith
renewed-unasked terminating h = ground arith
renewed-unasked (renewing _) h = ground arith

renewed-IsOver :
    (new_end now days : ℕ) (c : LeaseContract)
    → (Contract.is_expiring now days (written (renewing new_end) c) ≡ false)
      × (Contract.ends_in now days (written (renewing new_end) c) ≡ false)
unfolding Contract.is_expiring Contract.ends_in Contract.has_status
renewed-IsOver new_end now days c = (refl, refl)

module _ ⦃P : Prisma⦄ where
  open P use {rows, count}

  unfoldable pub move : AuthUser → ℕ → Move → Db → Db
  move user id signing s = final (Contract.sign_contract user id s)
  move user id terminating s = final (Contract.terminate_contract user id s)
  move user id (renewing end_date) s = final (Contract.renew_contract user id end_date s)

  pub find_one-cases :
      (user : AuthUser) (id : ℕ) (s : Db) (c : LeaseContract)
      → Contract.find_contract id s ≡ some c
      → (Contract.find_one_contract_for_user user id s ≡ (ok c, s))
        ⊎ (Contract.find_one_contract_for_user user id s ≡ (throw forbidden, s))
  unfolding Contract.find_one_contract_for_user Contract.assert_contract_readable
      Contract.find_one_contract
  find_one-cases user id s c found = ground arith

  -- A move writes nothing, or the row of a contract in the status that it asks for.
  move-written :
      (user : AuthUser) (id : ℕ) (m : Move) (s : Db) (c : LeaseContract)
      → Contract.find_contract id s ≡ some c
      → (move user id m s ≡ s)
        ⊎ ((Contract.has_status (asked m) c ≡ true)
            × (move user id m s ≡ Contract.update_contract_row id (written m) s))
  unfolding move Contract.sign_contract Contract.terminate_contract Contract.renew_contract
  move-written user id signing s c found = elim (find_one-cases user id s c found) [
    | inl opened ↦ ground arith
    | inr refused ↦ inl (ground arith)
  ]
  move-written user id terminating s c found = elim (find_one-cases user id s c found) [
    | inl opened ↦ ground arith
    | inr refused ↦ inl (ground arith)
  ]
  move-written user id (renewing end_date) s c found = elim (find_one-cases user id s c found) [
    | inl opened ↦ ground arith
    | inr refused ↦ inl (ground arith)
  ]

  -- Signing, terminating or renewing a stored contract changes nothing in the database, or takes the
  -- contract along an edge of its life and keeps its holder and its rent, while every other contract
  -- is found as before.
  pub move-IsEdge :
      (user : AuthUser) (id : ℕ) (m : Move) (s : Db) (c : LeaseContract)
      → Contract.find_contract id s ≡ some c
      → (move user id m s ≡ s)
        ⊎ ((after : LeaseContract) × (Contract.find_contract id (move user id m s) ≡ some after)
            × IsEdge m c.status after.status
            × (after.tenant_id ≡ c.tenant_id)
            × (after.monthly_rent ≡ c.monthly_rent)
            × ((j : ℕ)
                → id ≢ j
                → Contract.find_contract j (move user id m s) ≡ Contract.find_contract j s))
  move-IsEdge user id m s c found = elim (move-written user id m s c found) [
    | inl still ↦ inl still
    | inr (ready, moved) ↦ inr (
      written m c,
      rw moved (
          find_first-update (λ (r : LeaseContract). r.id) id (written m) s.lease_contracts c
            (written-id m) found),
      written-IsEdge m c ready,
      written-tenant_id m c,
      written-monthly_rent m c,
      λ j other. rw moved (
          find_first-update_ne (λ (r : LeaseContract). r.id) id j (written m) s.lease_contracts
            (written-id m) other),
    )
  ]

  renewed-row :
      (user : AuthUser) (id new_end : ℕ) (s : Db) (c : LeaseContract)
      → Contract.find_contract id s ≡ some c
      → (Contract.renew_contract user id new_end s).0 ≡ ok tt
      → final (Contract.renew_contract user id new_end s)
        ≡ Contract.update_contract_row id (written (renewing new_end)) s
  unfolding Contract.renew_contract
  renewed-row user id new_end s c found renewed = elim (find_one-cases user id s c found) [
    | inl opened ↦ ground arith
    | inr refused ↦ ground arith
  ]

  renewed-still :
      (other : AuthUser) (id : ℕ) (m : Move) (s : Db) (c : LeaseContract)
      → Contract.find_contract id s ≡ some c
      → c.status ≡ "RENEWED"
      → move other id m s ≡ s
  unfolding Contract.has_status
  renewed-still other id m s c found over = elim (move-written other id m s c found) [
    | inl still ↦ still
    | inr (ready, moved) ↦ absurd (renewed-unasked m (rw over at ready))
  ]

  -- A renewed contract is at its end: it is in no list of expiring contracts and in no reminder,
  -- whatever its new end date, and no one can sign, terminate or renew it.
  pub renew_contract-ends :
      (user : AuthUser) (id new_end : ℕ) (s : Db) (c : LeaseContract)
      → Contract.find_contract id s ≡ some c
      → (Contract.renew_contract user id new_end s).0 ≡ ok tt
      → (let s' = final (Contract.renew_contract user id new_end s) in
          (after : LeaseContract) × (Contract.find_contract id s' ≡ some after)
          × ((now days : ℕ)
              → (Contract.is_expiring now days after ≡ false)
                × (Contract.ends_in now days after ≡ false))
          × ((other : AuthUser) (m : Move) → move other id m s' ≡ s'))
  unfolding Contract.renew_contract
  renew_contract-ends user id new_end s c found renewed =
      let written_row : final (Contract.renew_contract user id new_end s)
          ≡ Contract.update_contract_row id (written (renewing new_end)) s =
        renewed-row user id new_end s c found renewed in
      let stored =
        find_first-update (λ (r : LeaseContract). r.id) id (written (renewing new_end))
          s.lease_contracts c (written-id (renewing new_end)) found in
      (
        written (renewing new_end) c,
        rw written_row stored,
        λ now days. renewed-IsOver new_end now days c,
        λ other m.
            rw written_row (renewed-still other id m _ (written (renewing new_end) c) stored refl),
      )
