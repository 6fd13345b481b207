-- ===== src/Booking/Review.antt =====
-- backend/src/booking/booking.service.ts: the operations on a stored booking that are not part of
-- the reception workflow: reading, changing, approval, the stay, and add-ons.
use pfe.Base.{
  ℕ, Bool, not, ◌||◌, Option, none, some, [], ◌∷◌, String, ◌==◌, if◌then◌else◌, or_else, is_empty,
  trimmed,
}
use Prim.Native.String
use pfe.Prisma.{Prisma}
use pfe.Service.{
  bad_request, forbidden, not_found, internal_error, pure, reads_or, throw_if, throw_error, writes,
  Call, ◌>>=◌, ◌>>◌,
}
use pfe.Roles.{Role, AuthUser, is_role, super_admin, client_admin, manager}
use pfe.Schema.{
  Action, Booking, BookingAddOn, BookingStatus, LeaseContract, booking_confirmed, booking_cancelled,
  pending_approval, confirmed, checked_in, completed, cancelled, is_booking, find_booking,
}
use pfe.Access.{assert_booking_readable}
use pfe.Billing.{send}
use pfe.Booking.Rules.{
  check_availability, issue_booking_invoice, notify_users, notify_tenant_admins,
  resolve_booking_recipient_email, update_booking,
}

-- The roles that `approve`, `reject` and `finalizeBooking` admit.
unfoldable pub is_approver : Role → Bool
is_approver role = is_role role super_admin || is_role role client_admin || is_role role manager

-- `UpdateBookingDto`, as `update` reads it. `has_unknown_field`: it names a field that is no column
-- of a booking.
pub record UpdateBookingDto : Type 0 where
  pub start_time : Option ℕ
  pub end_time : Option ℕ
  pub total_price : Option ℕ
  pub status : Option BookingStatus
  pub has_unknown_field : Bool

unfoldable pub updated_booking : UpdateBookingDto → Booking → Booking
updated_booking dto b = record b {
  start_time = or_else dto.start_time b.start_time;
  end_time = or_else dto.end_time b.end_time;
  total_price = elim dto.total_price [ none ↦ b.total_price | some p ↦ some p ];
  status = or_else dto.status b.status;
}

abbrev with_prefix : String → Option String → Option String
with_prefix prefix none = none
with_prefix prefix (some text) = some (String.◌++◌ prefix text)

-- `notes` after a rejection.
unfoldable pub rejection_notes : Option String → String
rejection_notes reason = or_else (with_prefix "Rejected: " (trimmed reason)) "Rejected by manager"

-- `notes` after a cancellation: kept, unless a reason is given, which is added on a line of its own.
unfoldable pub cancellation_notes : Option String → Option String → Option String
cancellation_notes reason notes = elim (with_prefix "Cancelled: " (trimmed reason)) [
  | none ↦ notes
  | some line ↦ elim notes [
    | none ↦ some line
    | some old ↦ some (if is_empty old then line else String.◌++◌ old (String.◌++◌ "\n" line))
  ]
]

module _ ⦃P : Prisma⦄ where
  open P use {create, delete, find_first}

  -- `findOne`
  unfoldable pub find_one : ℕ → Action Booking
  find_one id = reads_or not_found (find_booking id)

  -- `findOneForUser`
  unfoldable pub find_one_for_user : AuthUser → ℕ → Action Booking
  find_one_for_user user id = do readable ← assert_booking_readable user id; find_one id

  -- The check of `update`, made only where both times are given.
  unfoldable pub check_new_times : Booking → Option ℕ → Option ℕ → Action (Unit {0})
  check_new_times b (some start) (some finish) =
      check_availability b.space_id start finish (some b.id)
  check_new_times b _ _ = pure tt

  -- BookingService.update
  unfoldable pub update_one : AuthUser → ℕ → UpdateBookingDto → Action (Unit {0})
  update_one user id dto = do
    booking ← find_one_for_user user id
    check_new_times booking dto.start_time dto.end_time
    throw_if dto.has_unknown_field internal_error
    writes (update_booking id (updated_booking dto))

  abbrev set_status : BookingStatus → Booking → Booking
  set_status status b = record b { status = status }

  -- What `approve` does to a booking that is pending. The space's name is taken to be given: without
  -- one the source sends no mail.
  unfoldable pub approve_pending : Call → ℕ → Booking → Action Booking
  approve_pending call id b = do
    writes (update_booking id (set_status confirmed))
    writes (λ s. send (resolve_booking_recipient_email b s) booking_confirmed id s)
    writes (notify_users b.tenant_id (b.user_id ∷ []) "BOOKING_CONFIRMATION" "Booking approved")
    writes (
        notify_tenant_admins b.tenant_id "BOOKING_CONFIRMATION"
          "Booking approved — action required")
    issue_booking_invoice call id
    find_one id

  -- BookingService.approve
  unfoldable pub approve : Call → AuthUser → ℕ → Action Booking
  approve call user id = do
    throw_if (not (is_approver user.role)) forbidden
    booking ← find_one_for_user user id
    if is_booking booking.status confirmed
        then find_one id
        else if is_booking booking.status pending_approval
        then approve_pending call id booking
        else throw_error bad_request

  -- BookingService.reject
  unfoldable pub reject : AuthUser → ℕ → Option String → Action (Unit {0})
  reject user id reason = do
    throw_if (not (is_approver user.role)) forbidden
    booking ← find_one_for_user user id
    throw_if (not (is_booking booking.status pending_approval)) bad_request
    writes (
        update_booking id
          (λ b. record b { status = cancelled; notes = some (rejection_notes reason) }))
    writes (
        notify_users booking.tenant_id (booking.user_id ∷ []) "BOOKING_REMINDER" "Booking rejected")
    writes (notify_tenant_admins booking.tenant_id "BOOKING_REMINDER" "Booking rejected")

  -- BookingService.generateContractAfterPayment. The contract is written first; then the update
  -- names `lease_contract_id`, which is no column of a booking.
  unfoldable pub generate_contract_after_payment : Call → AuthUser → ℕ → Action LeaseContract
  generate_contract_after_payment call user id = do
    booking ← find_one_for_user user id
    let contract : LeaseContract = record {
      id = call.uuid 0;
      tenant_id = booking.tenant_id;
      user_id = none;
      start_date = booking.start_time;
      end_date = booking.end_time;
      monthly_rent = booking.total_amount;
      status = "ACTIVE";
    }
    writes (λ s. record s { lease_contracts = create contract s.lease_contracts })
    throw_error internal_error

  -- BookingService.cancel
  unfoldable pub cancel : AuthUser → ℕ → Option String → Action (Unit {0})
  cancel user id reason = do
    booking ← find_one_for_user user id
    throw_if (is_booking booking.status cancelled) bad_request
    writes (
        update_booking id
          (λ b. record b { status = cancelled; notes = cancellation_notes reason booking.notes }))
    writes (λ s. send (resolve_booking_recipient_email booking s) booking_cancelled id s)

  -- BookingService.checkIn
  unfoldable pub check_in : AuthUser → ℕ → Action (Unit {0})
  check_in user id = do
    booking ← find_one_for_user user id
    throw_if (not (is_booking booking.status confirmed)) bad_request
    writes (update_booking id (set_status checked_in))

  -- BookingService.checkOut
  unfoldable pub check_out : AuthUser → ℕ → Action (Unit {0})
  check_out user id = do
    booking ← find_one_for_user user id
    throw_if (not (is_booking booking.status checked_in)) bad_request
    writes (update_booking id (set_status completed))

  -- BookingService.addAddon
  unfoldable pub add_addon : Call → AuthUser → ℕ → ℕ → ℕ → ℕ → Action BookingAddOn
  add_addon call user booking_id addon_service_id quantity unit_price = do
    booking ← find_one_for_user user booking_id
    let row : BookingAddOn = record {
      id = call.uuid 0;
      booking_id = booking_id;
      addon_service_id = addon_service_id;
      quantity = quantity;
      unit_price = unit_price;
    }
    writes (λ s. record s { booking_addons = create row s.booking_addons })
    pure row

  -- BookingService.removeAddon: the add-on is looked up by its own id alone.
  unfoldable pub remove_addon : AuthUser → ℕ → ℕ → Action (Unit {0})
  remove_addon user booking_id addon_id = do
    booking ← find_one_for_user user booking_id
    addon ← reads_or not_found (λ s. find_first (λ a. a.id == addon_id) s.booking_addons)
    writes (λ s. record s { booking_addons = delete (λ a. a.id == addon_id) s.booking_addons })

  -- BookingService.remove, with the rows that the schema deletes with a booking.
  unfoldable pub remove : AuthUser → ℕ → Action (Unit {0})
  remove user id = do
    booking ← find_one_for_user user id
    writes (λ s. record s {
      bookings = delete (λ b. b.id == id) s.bookings;
      booking_addons = delete (λ a. a.booking_id == id) s.booking_addons;
      booking_documents = delete (λ d. d.booking_id == id) s.booking_documents;
    })
