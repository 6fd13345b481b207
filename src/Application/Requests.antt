-- ===== src/Application/Requests.antt =====
-- backend/src/booking-application/booking-application.service.ts: `createGuest` and
-- `create`. The ids that a call makes are its own: the application first, its add-ons
-- next, and the account's in a call of its own.
use Prim.Native.Nat.{suc}
use pfe.Base.{
  ℕ, Bool, false, not, ◌&&◌, ◌||◌, Option, none, some, String, List, [], ◌∷◌, ◌==◌, or_else,
  holds_id, is_some, str_eq, trim, trimmed, lower,
}
use pfe.Prisma.{Prisma}
use pfe.Service.{bad_request, not_found, pure, reads, reads_or, throw_if, writes, Call, ◌>>=◌, ◌>>◌}
use pfe.Roles.{AuthUser, is_role, super_admin, client_admin, manager}
use pfe.Schema.{
  Db, Action, User, Space, AddOnService, BookingApplication, BookingApplicationAddOn,
  ApplicationStatus, available, is_space_status, is_application, application_submitted,
  application_received, find_space, space_owner,
}
use pfe.Pricing.{addon_unit_price_for_lease}
use pfe.Billing.{create_all, send}
use pfe.Booking.Rules.{ApplicationAddon, ResolvedAddon}
use pfe.Application.Accounts.{has_email, ensure_applicant_account}

pub record CreateBookingApplicationDto : Type 0 where
  pub space_id : ℕ
  pub start_date : ℕ
  pub duration_months : ℕ
  pub message : Option String
  pub addons : List ApplicationAddon

pub record CreateGuestBookingApplicationDto : Type 0 where
  pub space_id : ℕ
  pub guest_name : String
  pub guest_email : String
  pub guest_phone : String
  pub applicant_type : Option String
  pub company_name : Option String
  pub start_date : ℕ
  pub duration_months : ℕ
  pub message : Option String
  pub addons : List ApplicationAddon

-- The row of `create`, with the id `uuid 0`.
unfoldable pub new_application : Call → AuthUser → CreateBookingApplicationDto → BookingApplication
new_application call user dto = record {
  id = call.uuid 0;
  space_id = dto.space_id;
  user_id = some user.id;
  guest_name = none;
  guest_email = none;
  guest_phone = none;
  applicant_type = "INDIVIDUAL";
  company_name = none;
  start_date = dto.start_date;
  duration_months = dto.duration_months;
  message = dto.message;
  status = ApplicationStatus.pending;
  reviewed_by_id = none;
  reviewed_at = none;
  refusal_reason = none;
  booking_id = none;
}

-- The row of `createGuest`.
unfoldable pub new_guest_application : Call → CreateGuestBookingApplicationDto → BookingApplication
new_guest_application call dto = record {
  id = call.uuid 0;
  space_id = dto.space_id;
  user_id = none;
  guest_name = some (trim dto.guest_name);
  guest_email = some (lower (trim dto.guest_email));
  guest_phone = trimmed (some dto.guest_phone);
  applicant_type = or_else dto.applicant_type "INDIVIDUAL";
  company_name = trimmed dto.company_name;
  start_date = dto.start_date;
  duration_months = dto.duration_months;
  message = dto.message;
  status = ApplicationStatus.pending;
  reviewed_by_id = none;
  reviewed_at = none;
  refusal_reason = none;
  booking_id = none;
}

-- The nested rows, with the ids that follow.
unfoldable pub requested_addons :
    (ℕ → ℕ) → ℕ → ℕ → List ResolvedAddon → List BookingApplicationAddOn
requested_addons uuid k application_id [] = []
requested_addons uuid k application_id (a ∷ rest) =
    record {
      id = uuid k;
      application_id = application_id;
      addon_service_id = a.addon_service_id;
      quantity = a.quantity;
      unit_price = a.unit_price;
    }
    ∷ requested_addons uuid (suc k) application_id rest

-- The `where` of `create`: a pending application of the user for the space.
unfoldable pub is_own_pending : ℕ → ℕ → BookingApplication → Bool
is_own_pending space_id user_id a =
    a.space_id == space_id
    && holds_id a.user_id user_id
    && is_application a.status ApplicationStatus.pending

-- The users that `notifyManagers` tells.
unfoldable pub is_notified : Option ℕ → User → Bool
is_notified landlord u =
    u.is_active
    && (is_role u.role super_admin
        || (is_role u.role client_admin || is_role u.role manager) && holds_id landlord u.tenant_id)

module _ ⦃P : Prisma⦄ where
  open P use {find_first, find_many, create, update}

  -- `assertSpaceApplicable`
  unfoldable pub assert_space_applicable : ℕ → Action Space
  assert_space_applicable space_id = do
    space ← reads_or not_found (find_space space_id)
    throw_if (not space.is_published || not (is_space_status space.status available)) bad_request
    pure space

  -- What the loop of `resolveApplicationAddons` finds for an id: an active service linked to the space,
  -- or an active one of the landlord.
  unfoldable pub offered_service : ℕ → Option ℕ → ℕ → Db → Option AddOnService
  offered_service space_id landlord id s =
      let linked =
        is_some
          (find_first (λ l. l.space_id == space_id && l.addon_service_id == id) s.space_addons) in
      find_first (λ a. a.id == id && a.is_active && (linked || holds_id landlord a.tenant_id))
        s.addon_services

  unfoldable pub resolve_requested :
      ℕ → Option ℕ → ℕ → List ApplicationAddon → Action (List ResolvedAddon)
  unfolding offered_service
  resolve_requested space_id landlord months [] = pure []
  resolve_requested space_id landlord months (item ∷ items) = do
    svc ← reads_or bad_request (offered_service space_id landlord item.addon_service_id)
    rest ← resolve_requested space_id landlord months items
    pure (
        record {
          addon_service_id = item.addon_service_id;
          quantity = item.quantity;
          unit_price = addon_unit_price_for_lease svc.price svc.billing_cycle months;
        }
        ∷ rest)

  -- `resolveApplicationAddons`
  unfoldable pub resolve_application_addons :
      ℕ → ℕ → List ApplicationAddon → Action (List ResolvedAddon)
  unfolding resolve_requested
  resolve_application_addons space_id months [] = pure []
  resolve_application_addons space_id months (item ∷ items) = do
    space ← reads_or not_found (find_space space_id)
    landlord ← reads (space_owner space_id)
    resolve_requested space_id landlord months (item ∷ items)

  -- `notifyManagers`: each manager gets a notification and a mail.
  unfoldable pub notify_managers_each : ℕ → List User → Db → Db
  notify_managers_each about [] s = s
  notify_managers_each about (m ∷ ms) s = notify_managers_each about ms (
      send m.email application_submitted about (record s {
        notifications =
            create
              (record {
                tenant_id = m.tenant_id;
                user_id = m.id;
                notification_type = "BOOKING_CONFIRMATION";
                title = "New booking application";
              })
              s.notifications;
      }))

  unfoldable pub notify_managers : Option ℕ → ℕ → Db → Db
  unfolding notify_managers_each is_notified
  notify_managers landlord about s =
      notify_managers_each about (find_many (is_notified landlord) s.users) s

  unfoldable pub insert_application : Call → BookingApplication → List ResolvedAddon → Db → Db
  insert_application call app addons s = record s {
    booking_applications = create app s.booking_applications;
    application_addons =
        create_all (requested_addons call.uuid 1 app.id addons) s.application_addons;
  }

  -- The `where` of `createGuest`: a pending application for the space under the e-mail, whether it
  -- stands in the application or is that of its user.
  unfoldable pub is_pending_for : ℕ → String → Db → BookingApplication → Bool
  is_pending_for space_id email s a =
      let by_guest : Bool = elim a.guest_email [ none ↦ false | some e ↦ str_eq e email ] in
      let by_user =
        is_some (find_first (λ u. holds_id a.user_id u.id && has_email email u) s.users) in
      a.space_id == space_id
      && is_application a.status ApplicationStatus.pending
      && (by_guest || by_user)

  -- BookingApplicationService.create
  unfoldable pub create_application :
      Call → AuthUser → CreateBookingApplicationDto → Action BookingApplication
  create_application call user dto = do
    space ← assert_space_applicable dto.space_id
    existing ← reads (λ s. find_first (is_own_pending dto.space_id user.id) s.booking_applications)
    throw_if (is_some existing) bad_request
    addons ← resolve_application_addons dto.space_id dto.duration_months dto.addons
    let app = new_application call user dto
    writes (insert_application call app addons)
    landlord ← reads (space_owner dto.space_id)
    writes (notify_managers landlord app.id)
    pure app

  -- BookingApplicationService.createGuest. `account` makes the ids of the applicant's account.
  unfoldable pub create_guest :
      Call → Call → CreateGuestBookingApplicationDto → Action BookingApplication
  create_guest call account dto = do
    space ← assert_space_applicable dto.space_id
    let email = lower (trim dto.guest_email)
    let app = new_guest_application call dto
    throw_if (str_eq app.applicant_type "COMPANY" && not (is_some (trimmed dto.company_name)))
        bad_request
    existing ← reads (λ s. find_first (is_pending_for dto.space_id email s) s.booking_applications)
    throw_if (is_some existing) bad_request
    addons ← resolve_application_addons dto.space_id dto.duration_months dto.addons
    writes (insert_application call app addons)
    user_id ← ensure_applicant_account account email app
    landlord ← reads (space_owner dto.space_id)
    writes (notify_managers landlord app.id)
    writes (send (some email) application_received app.id)
    pure app
