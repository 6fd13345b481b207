-- ===== src/Contract.antt =====
-- backend/src/lease-contract/lease-contract.service.ts: lease contracts. The methods on items and
-- deposits, which have no table, and `mapContractForFrontend` are left out.
use pfe.Base.{
  ℕ, ◌+◌, ◌-◌, ◌*◌, ◌/◌, Bool, true, false, not, ◌&&◌, ◌||◌, Option, none, some, List, [], ◌∷◌,
  String, str_eq, ◌==◌, ltb, leb, if◌then◌else◌, or_else, holds_id, is_some, nonempty, select,
}
use pfe.Prisma.{Prisma}
use pfe.Service.{
  Result, ok, throw, bad_request, forbidden, not_found, pure, reads, reads_or, throw_if, writes,
  run_if, Call, ◌>>=◌, ◌>>◌,
}
use pfe.Roles.{AuthUser, is_role, super_admin}
use pfe.Schema.{
  Db, Action, LeaseContract, Booking, is_booking, confirmed, occupied, contract_notice,
  contract_expiring, find_booking, space_owner,
}
use pfe.Pricing.{day_ms}
use pfe.Billing.{in_portfolio, contact_of, send}
pub mod Owners
pub mod Life
pub mod Signing
mod Tests

pub record CreateLeaseContractDto : Type 0 where
  pub tenant_id : ℕ
  pub created_by_user_id : ℕ
  pub start_date : ℕ
  pub end_date : ℕ
  pub monthly_rent : ℕ
  pub status : Option String

pub record UpdateLeaseContractDto : Type 0 where
  pub start_date : Option ℕ
  pub end_date : Option ℕ
  pub monthly_rent : Option ℕ
  pub status : Option String

unfoldable pub new_contract : Call → CreateLeaseContractDto → LeaseContract
new_contract call dto = record {
  id = call.uuid 0;
  tenant_id = dto.tenant_id;
  user_id = some dto.created_by_user_id;
  start_date = dto.start_date;
  end_date = dto.end_date;
  monthly_rent = dto.monthly_rent;
  status = or_else dto.status "DRAFT";
}

-- The contract that a confirmed booking becomes.
unfoldable pub contract_of_booking : Call → ℕ → Booking → LeaseContract
contract_of_booking call created_by_id b = record {
  id = call.uuid 0;
  tenant_id = b.tenant_id;
  user_id = some created_by_id;
  start_date = b.start_time;
  end_date = b.end_time;
  monthly_rent = b.total_amount;
  status = "DRAFT";
}

unfoldable pub updated_contract : UpdateLeaseContractDto → LeaseContract → LeaseContract
updated_contract dto c = record c {
  monthly_rent = or_else dto.monthly_rent c.monthly_rent;
  status = or_else dto.status c.status;
  start_date = or_else dto.start_date c.start_date;
  end_date = or_else dto.end_date c.end_date;
}

-- `status === '…'`
unfoldable pub has_status : String → LeaseContract → Bool
has_status status c = str_eq c.status status

-- The `where` of `getExpiringContracts`.
unfoldable pub is_expiring : ℕ → ℕ → LeaseContract → Bool
unfolding has_status
is_expiring now days_ahead c = has_status "ACTIVE" c && leb c.end_date (now + days_ahead * day_ms)

-- The `where` of `sendExpiryReminders`: the contract ends on the day that is some days away, in UTC.
unfoldable pub ends_in : ℕ → ℕ → LeaseContract → Bool
unfolding has_status
ends_in now days c = has_status "ACTIVE" c && c.end_date / day_ms == now / day_ms + days

module _ ⦃P : Prisma⦄ where
  open P use {find_first, find_many, count, create, update, delete}

  abbrev pub find_contract : ℕ → Db → Option LeaseContract
  find_contract id s = find_first (λ c. c.id == id) s.lease_contracts

  abbrev pub update_contract_row : ℕ → (LeaseContract → LeaseContract) → Db → Db
  update_contract_row id f s = record s {
    lease_contracts = update (λ c. c.id == id) f s.lease_contracts;
  }

  -- LeaseContractService.generateContractFromBooking
  unfoldable pub generate_contract_from_booking : Call → ℕ → ℕ → Action LeaseContract
  generate_contract_from_booking call booking_id created_by_id = do
    booking ← reads_or not_found (find_booking booking_id)
    throw_if (not (is_booking booking.status confirmed)) bad_request
    let contract = contract_of_booking call created_by_id booking
    writes (λ s. record s { lease_contracts = create contract s.lease_contracts })
    writes (λ s. record s {
      spaces =
          update (λ x. x.id == booking.space_id) (λ x. record x { status = occupied }) s.spaces;
    })
    writes (λ s. send (contact_of booking.tenant_id s) contract_notice contract.id s)
    pure contract

  -- `create`
  unfoldable pub create_contract : Call → CreateLeaseContractDto → Action LeaseContract
  create_contract call dto = do
    let contract = new_contract call dto
    writes (λ s. record s { lease_contracts = create contract s.lease_contracts })
    pure contract

  -- `landlordContractWhere`: an invoice of the contract belongs to a booking in a building of the
  -- organisation.
  unfoldable pub is_hosted_by : ℕ → Db → ℕ → Bool
  is_hosted_by tenant_id s contract_id =
      ltb 0 (
        count (λ i. holds_id i.contract_id contract_id && in_portfolio tenant_id s i.id) s.invoices)

  -- The `where` of `findAll` and of `findAllForUser`.
  unfoldable pub contract_where : AuthUser → Option ℕ → Option String → Db → LeaseContract → Bool
  unfolding has_status
  contract_where user tenant_id status s c =
      (if is_role user.role super_admin
        then or_else tenant_id c.tenant_id == c.tenant_id
        else c.tenant_id == user.tenant_id || is_hosted_by user.tenant_id s c.id)
      && elim (nonempty status) [ none ↦ true | some text ↦ has_status text c ]

  -- LeaseContractService.findAllForUser
  unfoldable pub find_all_contracts :
      AuthUser → Option ℕ → Option String → Action (List LeaseContract)
  find_all_contracts user tenant_id status = do
    throw_if
        (not (is_role user.role super_admin)
          && is_some tenant_id
          && not (holds_id tenant_id user.tenant_id))
        forbidden
    reads (λ s. find_many (contract_where user tenant_id status s) s.lease_contracts)

  -- `assertContractReadable`
  unfoldable pub assert_contract_readable : AuthUser → ℕ → Action (Unit {0})
  assert_contract_readable user id = do
    contract ← reads_or not_found (find_contract id)
    hosted ←
        reads (λ s.
          find_first (λ c. c.id == id && is_hosted_by user.tenant_id s c.id) s.lease_contracts)
    throw_if
        (not
          (is_role user.role super_admin || contract.tenant_id == user.tenant_id || is_some hosted))
        forbidden

  -- `findOne`
  unfoldable pub find_one_contract : ℕ → Action LeaseContract
  find_one_contract id = reads_or not_found (find_contract id)

  -- `findOneForUser`
  unfoldable pub find_one_contract_for_user : AuthUser → ℕ → Action LeaseContract
  find_one_contract_for_user user id = assert_contract_readable user id >> find_one_contract id

  -- `updateForUser` and `update`
  unfoldable pub update_contract : AuthUser → ℕ → UpdateLeaseContractDto → Action (Unit {0})
  update_contract user id dto = do
    _ ← find_one_contract_for_user user id
    writes (update_contract_row id (updated_contract dto))

  -- `removeForUser` and `remove`, with what the schema does to the invoices that name the contract.
  unfoldable pub remove_contract : AuthUser → ℕ → Action (Unit {0})
  remove_contract user id = do
    _ ← find_one_contract_for_user user id
    writes (λ s. record s {
      lease_contracts = delete (λ c. c.id == id) s.lease_contracts;
      invoices =
          update (λ i. holds_id i.contract_id id) (λ i. record i { contract_id = none }) s.invoices;
    })

  -- `signForUser` and `sign`: whether the onboarding of the organisation starts.
  unfoldable pub sign_contract : AuthUser → ℕ → Action Bool
  sign_contract user id = do
    contract ← find_one_contract_for_user user id
    throw_if (not (has_status "DRAFT" contract)) bad_request
    writes (update_contract_row id (λ c. record c { status = "ACTIVE" }))
    active_count ← reads (λ s.
        count (λ c. c.tenant_id == contract.tenant_id && has_status "ACTIVE" c) s.lease_contracts)
    pure (active_count == 1)

  -- `terminateForUser` and `terminate`
  unfoldable pub terminate_contract : AuthUser → ℕ → Action (Unit {0})
  terminate_contract user id = do
    contract ← find_one_contract_for_user user id
    throw_if (not (has_status "ACTIVE" contract)) bad_request
    writes (update_contract_row id (λ c. record c { status = "TERMINATED" }))

  -- `renewForUser` and `renew`
  unfoldable pub renew_contract : AuthUser → ℕ → ℕ → Action (Unit {0})
  renew_contract user id new_end_date = do
    contract ← find_one_contract_for_user user id
    throw_if (not (has_status "ACTIVE" contract)) bad_request
    writes (update_contract_row id (λ c. record c { status = "RENEWED"; end_date = new_end_date }))

  -- `getExpiringContractsForUser`
  unfoldable pub get_expiring_contracts : Call → AuthUser → ℕ → Db → List LeaseContract
  get_expiring_contracts call user days_ahead s =
      let found = find_many (is_expiring call.now days_ahead) s.lease_contracts in
      if is_role user.role super_admin
      then found
      else select (λ (c : LeaseContract). c.tenant_id == user.tenant_id) found

  -- `sendExpiryReminders`, where every mail is delivered.
  unfoldable pub remind_each : List LeaseContract → Db → Db
  remind_each [] s = s
  remind_each (c ∷ cs) s = remind_each cs (send (contact_of c.tenant_id s) contract_expiring c.id s)

  unfoldable pub remind_in : ℕ → List ℕ → Db → Db
  remind_in now [] s = s
  remind_in now (days ∷ more) s =
      remind_in now more (remind_each (find_many (ends_in now days) s.lease_contracts) s)

  unfoldable pub send_expiry_reminders : Call → Db → Db
  send_expiry_reminders call s = remind_in call.now (60 ∷ 30 ∷ 7 ∷ []) s
