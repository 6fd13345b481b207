-- ===== src/Application/Review.antt =====
-- backend/src/booking-application/booking-application.service.ts: `findAllForUser`, `findOneForUser`,
-- `accept` and `refuse`. The signed-in user's e-mail is an argument of its own.
use Prim.Native.Nat.{suc}
use pfe.Base.{
  ℕ, Bool, true, false, not, ◌&&◌, ◌||◌, Option, none, some, String, List, [], ◌∷◌, ◌==◌, or_else,
  holds_id, is_some, str_eq, trimmed, nonempty, first_of_texts, lower, sum_doubles, add_double,
  times_double, map,
}
use pfe.Prisma.{Prisma}
use pfe.Service.{
  ok, throw, bad_request, forbidden, not_found, pure, reads, reads_or, throw_if, writes, Call,
  ◌>>=◌, ◌>>◌,
}
use pfe.Roles.{AuthUser, Role, is_role, super_admin, client_admin, manager}
use pfe.Schema.{
  Db, Action, User, Space, Booking, BookingAddOn, BookingApplication, BookingApplicationAddOn,
  ApplicationStatus, accepted, reserved, pending_phone_confirmation, is_application,
  application_accepted, application_refused, password_reset, find_space, find_user,
  find_application, space_owner,
}
use pfe.Pricing.{addon_line_total}
use pfe.Billing.{create_all, send, generate_invoice_from_booking}
use pfe.Booking.Rules.{pick_receptionist, update_booking, update_space}
use pfe.Application.Calendar.{add_months}
use pfe.Application.Accounts.{has_email, update_application, create_account}

-- `isManager`
unfoldable pub is_manager : Role → Bool
is_manager role = is_role role super_admin || is_role role client_admin || is_role role manager

-- `isOwner` of `findOneForUser`: who applied.
unfoldable pub is_applicant : AuthUser → String → BookingApplication → Bool
is_applicant user email app =
    let by_email : Bool = elim (nonempty app.guest_email) [
      | none ↦ false
      | some e ↦ str_eq (lower e) (lower email)
    ] in
    holds_id app.user_id user.id || by_email

-- The last test of `findOneForUser`.
unfoldable pub may_open : AuthUser → String → Option ℕ → BookingApplication → Bool
unfolding is_manager is_applicant
may_open user email owner app =
    is_role user.role super_admin
    || is_manager user.role && holds_id owner user.tenant_id
    || is_applicant user email app

-- The total of `accept`: the rent of the months, and the add-ons.
unfoldable pub space_rent : Space → BookingApplication → ℕ
space_rent space app = times_double app.duration_months (or_else space.monthly_rate 0)

unfoldable pub requested_total : List BookingApplicationAddOn → ℕ
requested_total addons =
    sum_doubles 0
      (map (λ (a : BookingApplicationAddOn). addon_line_total a.quantity a.unit_price) addons)

-- The booking that an application becomes, with the id `uuid 0`.
unfoldable pub accepted_booking :
    Call → User → Option ℕ → Space → BookingApplication → List BookingApplicationAddOn → Booking
unfolding space_rent requested_total
accepted_booking call applicant receptionist space app addons = record {
  id = call.uuid 0;
  tenant_id = applicant.tenant_id;
  user_id = applicant.id;
  space_id = app.space_id;
  invoice_id = none;
  receptionist_id = receptionist;
  booking_number = call.number;
  start_time = app.start_date;
  end_time = add_months app.start_date app.duration_months;
  status = pending_phone_confirmation;
  total_amount = add_double (space_rent space app) (requested_total addons);
  total_price = some (space_rent space app);
  notes = app.message;
  created_at = call.now;
}

-- The loop that copies the add-ons, with the ids that follow.
unfoldable pub copied_addons : (ℕ → ℕ) → ℕ → ℕ → List BookingApplicationAddOn → List BookingAddOn
copied_addons uuid k booking_id [] = []
copied_addons uuid k booking_id (a ∷ rest) =
    record {
      id = uuid k;
      booking_id = booking_id;
      addon_service_id = a.addon_service_id;
      quantity = a.quantity;
      unit_price = a.unit_price;
    }
    ∷ copied_addons uuid (suc k) booking_id rest

module _ ⦃P : Prisma⦄ where
  open P use {find_first, find_many, create, update}

  -- The `where` of `findAllForUser`.
  unfoldable pub application_where :
      AuthUser → String → Option ApplicationStatus → Db → BookingApplication → Bool
  application_where user email status s a =
      let asked : Bool = elim status [ none ↦ true | some x ↦ is_application a.status x ] in
      let by_email : Bool = elim a.guest_email [ none ↦ false | some e ↦ str_eq e (lower email) ] in
      asked
      && (is_role user.role super_admin
          || (elim (is_role user.role manager || is_role user.role client_admin) [
            | true ↦ holds_id (space_owner a.space_id s) user.tenant_id
            | false ↦ holds_id a.user_id user.id || by_email
          ]))

  -- BookingApplicationService.findAllForUser
  unfoldable pub find_all_for_user :
      AuthUser → String → Option ApplicationStatus → Db → List BookingApplication
  find_all_for_user user email status s =
      find_many (application_where user email status s) s.booking_applications

  -- BookingApplicationService.findOneForUser
  unfoldable pub find_one_for_user : AuthUser → String → ℕ → Action BookingApplication
  find_one_for_user user email id = do
    app ← reads_or not_found (find_application id)
    owner ← reads (space_owner app.space_id)
    throw_if (not (may_open user email owner app)) forbidden
    pure app

  -- `resolveApplicantForAccept` without an account of the applicant. `account` makes the ids of a new
  -- one.
  unfoldable pub resolve_guest : Call → BookingApplication → Action User
  resolve_guest account app = do
    email ←
        reads_or bad_request
          (λ s. elim (trimmed app.guest_email) [ none ↦ none | some e ↦ some (lower e) ])
    existing ← reads (λ s. find_first (has_email email) s.users)
    user ← (elim existing [
      | some u ↦ pure u
      | none ↦ do
        user ← create_account account "guest" email app
        writes (send (some email) password_reset user.id)
        pure user
    ])
    writes (update_application app.id (λ a. record a { user_id = some user.id }))
    pure user

  -- A phone number for a user without one.
  unfoldable pub store_phone : BookingApplication → User → Db → Db
  store_phone app u s = elim (trimmed app.guest_phone) [
    | none ↦ s
    | some number ↦ elim (is_some (nonempty u.phone_number)) [
      | true ↦ s
      | false ↦ record s {
        users = update (λ x. x.id == u.id) (λ x. record x { phone_number = some number }) s.users;
      }
    ]
  ]

  -- `resolveApplicantForAccept`
  unfoldable pub resolve_applicant_for_accept : Call → BookingApplication → Action User
  resolve_applicant_for_accept account app = do
    known ← reads (λ s. elim app.user_id [ none ↦ none | some id ↦ find_user id s ])
    elim known [ some u ↦ do writes (store_phone app u); pure u | none ↦ resolve_guest account app ]

  -- `$transaction`: what a call wrote before it throws is undone.
  abbrev pub transaction : {A : Type 0} → Action A → Action A
  transaction m s = let (r, s') = m s in elim r [ ok a ↦ (ok a, s') | throw e ↦ (throw e, s) ]

  unfoldable pub accepted_application : Call → ℕ → ℕ → ℕ → BookingApplication → BookingApplication
  accepted_application call reviewer booking applicant a = record a {
    status = accepted;
    reviewed_by_id = some reviewer;
    reviewed_at = some call.now;
    booking_id = some booking;
    user_id = some applicant;
  }

  -- The body of the transaction.
  unfoldable pub store_accepted :
      Call
      → Call
      → AuthUser
      → Option ℕ
      → Space
      → BookingApplication
      → List BookingApplicationAddOn
      → Action (User × Booking)
  store_accepted call account user receptionist space app addons = do
    applicant ← resolve_applicant_for_accept account app
    let booking = accepted_booking call applicant receptionist space app addons
    writes (λ s. record s {
      bookings = create booking s.bookings;
      booking_addons = create_all (copied_addons call.uuid 1 booking.id addons) s.booking_addons;
    })
    writes (update_space app.space_id (λ x. record x { status = reserved }))
    writes (update_application app.id (accepted_application call user.id booking.id applicant.id))
    pure (applicant, booking)

  -- The receptionist is told to call.
  unfoldable pub notify_receptionist : Option ℕ → Db → Db
  notify_receptionist none s = s
  notify_receptionist (some id) s = elim (find_user id s) [
    | none ↦ s
    | some u ↦ record s {
      notifications =
          create
            (record {
              tenant_id = u.tenant_id;
              user_id = u.id;
              notification_type = "BOOKING_REMINDER";
              title = "New booking to call";
            })
            s.notifications;
    }
  ]

  -- `result.user?.email ?? result.guest_email`, as a condition.
  unfoldable pub applicant_email : Option ℕ → BookingApplication → Db → Option String
  applicant_email user_id app s = nonempty (
      first_of_texts
        (elim user_id [
          | none ↦ none
          | some id ↦ elim (find_user id s) [ none ↦ none | some u ↦ u.email ]
        ])
        app.guest_email)

  -- How `accept` and `refuse` both begin.
  unfoldable pub find_pending : AuthUser → String → ℕ → Action BookingApplication
  find_pending user email id = do
    throw_if (not (is_manager user.role)) forbidden
    app ← find_one_for_user user email id
    throw_if (not (is_application app.status ApplicationStatus.pending)) bad_request
    pure app

  -- What follows the transaction: the mail, the receptionist and the invoice.
  unfoldable pub after_accept :
      Call → Option ℕ → User → Booking → BookingApplication → Action (Unit {0})
  after_accept later receptionist applicant booking app = do
    writes (λ s. send (applicant_email (some applicant.id) app s) application_accepted booking.id s)
    writes (notify_receptionist receptionist)
    invoice ← generate_invoice_from_booking later booking.id
    writes (update_booking booking.id (λ b. record b { invoice_id = some invoice.id }))

  -- `receptionistId`
  unfoldable pub receptionist_for : ℕ → Db → Option ℕ
  receptionist_for space_id s = elim (space_owner space_id s) [
    | none ↦ none
    | some landlord ↦ pick_receptionist landlord s
  ]

  -- `accept` of an application for a space, from the checks on.
  unfoldable pub accept_for :
      Call → Call → Call → AuthUser → ℕ → BookingApplication → Space → Action (Unit {0})
  accept_for call account later user id app space = do
    addons ← reads (λ s. find_many (λ a. a.application_id == id) s.application_addons)
    receptionist ← reads (receptionist_for app.space_id)
    (applicant, booking) ←
        transaction (store_accepted call account user receptionist space app addons)
    after_accept later receptionist applicant booking app

  unfoldable pub accept_pending :
      Call → Call → Call → AuthUser → ℕ → BookingApplication → Action (Unit {0})
  accept_pending call account later user id app = do
    space ← reads_or not_found (find_space app.space_id)
    accept_for call account later user id app space

  -- BookingApplicationService.accept. `later` is the call as the invoice sees it.
  unfoldable pub accept : Call → Call → Call → AuthUser → String → ℕ → Action (Unit {0})
  accept call account later user email id = do
    app ← find_pending user email id
    accept_pending call account later user id app

  unfoldable pub refused_application :
      Call → ℕ → Option String → BookingApplication → BookingApplication
  refused_application call reviewer reason a = record a {
    status = ApplicationStatus.refused;
    reviewed_by_id = some reviewer;
    reviewed_at = some call.now;
    refusal_reason = first_of_texts reason a.refusal_reason;
  }

  -- `refuse` from the checks on.
  unfoldable pub refuse_pending :
      Call → AuthUser → ℕ → Option String → BookingApplication → Action (Unit {0})
  refuse_pending call user id reason app = do
    writes (update_application id (refused_application call user.id reason))
    writes (λ s. send (applicant_email app.user_id app s) application_refused id s)

  -- BookingApplicationService.refuse
  unfoldable pub refuse : Call → AuthUser → String → ℕ → Option String → Action (Unit {0})
  refuse call user email id reason = do
    app ← find_pending user email id
    refuse_pending call user id reason app
