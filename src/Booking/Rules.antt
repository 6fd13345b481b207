-- ===== src/Booking/Rules.antt =====
-- backend/src/booking/booking.service.ts: the private helpers of BookingService.
use pfe.Base.{
  ℕ, Bool, true, false, not, ◌&&◌, ◌||◌, Option, none, some, List, [], ◌∷◌, String, map, ◌==◌, leb,
  holds_id, is_some, trimmed, nonempty, first_of_texts, any, sum_doubles, times_double,
}
use pfe.Prisma.{Prisma}
use pfe.Service.{bad_request, conflict, pure, reads, reads_or, throw_if, writes, Call, ◌>>=◌}
use pfe.Roles.{
  Role, is_role, super_admin, client_admin, manager, receptionist, tenant_admin, tenant_employee,
}
use pfe.Schema.{
  Db, Action, Booking, BookingStatus, Space, AddOnService, cancelled, no_show, refused, is_booking,
  find_user, find_tenant, find_booking, space_owner,
}
use pfe.Pricing.{addon_unit_price_for_lease}
use pfe.Billing.{generate_invoice_from_booking}

-- `isWorkflowStaff`
unfoldable pub is_workflow_staff : Role → Bool
is_workflow_staff role =
    is_role role super_admin
    || is_role role client_admin
    || is_role role manager
    || is_role role receptionist

-- `isPortalBooker`
unfoldable pub is_portal_booker : Role → Bool
is_portal_booker role = is_role role tenant_admin || is_role role tenant_employee

-- The statuses that `checkAvailability` leaves out of its search.
unfoldable pub is_dead : BookingStatus → Bool
is_dead status =
    is_booking status cancelled || is_booking status no_show || is_booking status refused

-- The `where` of `checkAvailability`: a booking of the space that is not left out, is not the
-- excluded one, and starts by the end and ends from the start on.
unfoldable pub is_conflict : ℕ → ℕ → ℕ → Option ℕ → Booking → Bool
unfolding is_dead
is_conflict space_id start finish exclude b =
    b.space_id == space_id
    && not (is_dead b.status)
    && not (holds_id exclude b.id)
    && leb b.start_time finish
    && leb start b.end_time

-- `[...new Set(ids)]`: each id once, where it first stands.
unfoldable pub unique : List ℕ → List ℕ → List ℕ
unique seen [] = []
unique seen (x ∷ xs) = elim (any (λ y. y == x) seen) [
  | true ↦ unique seen xs
  | false ↦ x ∷ unique (x ∷ seen) xs
]

-- A service that was asked for, and how many.
pub record ApplicationAddon : Type 0 where
  pub addon_service_id : ℕ
  pub quantity : ℕ

-- A resolved add-on, before it has a booking.
pub record ResolvedAddon : Type 0 where
  pub addon_service_id : ℕ
  pub quantity : ℕ
  pub unit_price : ℕ

-- `addonsTotal`
unfoldable pub addons_total : List ResolvedAddon → ℕ
addons_total rows =
    sum_doubles 0 (map (λ (a : ResolvedAddon). times_double a.quantity a.unit_price) rows)

module _ ⦃P : Prisma⦄ where
  open P use {find_first, find_first_asc, find_many, create, update}

  -- `resolveBookingRecipientEmail`
  unfoldable pub resolve_booking_recipient_email : Booking → Db → Option String
  resolve_booking_recipient_email b s =
      first_of_texts (trimmed (elim (find_user b.user_id s) [ none ↦ none | some u ↦ u.email ]))
        (trimmed (elim (find_tenant b.tenant_id s) [ none ↦ none | some t ↦ t.contact_email ]))

  -- `updated.user?.email ?? updated.tenant?.contact_email`, as a condition.
  unfoldable pub renter_email : Booking → Db → Option String
  renter_email b s = nonempty (
      first_of_texts (elim (find_user b.user_id s) [ none ↦ none | some u ↦ u.email ])
        (elim (find_tenant b.tenant_id s) [ none ↦ none | some t ↦ t.contact_email ]))

  -- `pickReceptionist`: the active receptionist of the landlord who has been there longest.
  unfoldable pub pick_receptionist : ℕ → Db → Option ℕ
  pick_receptionist landlord_tenant_id s =
      elim (find_first_asc (λ u. u.created_at)
        (λ u. u.tenant_id == landlord_tenant_id && is_role u.role receptionist && u.is_active)
        s.users) [ none ↦ none | some u ↦ some u.id ]

  -- `checkAvailability`
  unfoldable pub check_availability : ℕ → ℕ → ℕ → Option ℕ → Action (Unit {0})
  unfolding is_conflict
  check_availability space_id start finish exclude s =
      throw_if (is_some (find_first (is_conflict space_id start finish exclude) s.bookings))
        conflict s

  -- `byId.get(id)`: an active service linked to the space, or an active one of the landlord.
  unfoldable pub available_service : ℕ → ℕ → ℕ → Db → Option AddOnService
  available_service space_id landlord id s =
      let linked =
        is_some
          (find_first (λ l. l.space_id == space_id && l.addon_service_id == id) s.space_addons) in
      find_first (λ a. a.id == id && a.is_active && (linked || a.tenant_id == landlord))
        s.addon_services

  -- The loop over the requested add-ons.
  unfoldable pub resolve_items : ℕ → ℕ → ℕ → List ApplicationAddon → Action (List ResolvedAddon)
  unfolding available_service
  resolve_items space_id landlord months [] = pure []
  resolve_items space_id landlord months (item ∷ items) = do
    svc ← reads_or bad_request (available_service space_id landlord item.addon_service_id)
    rest ← resolve_items space_id landlord months items
    pure (
        record {
          addon_service_id = item.addon_service_id;
          quantity = item.quantity;
          unit_price = addon_unit_price_for_lease svc.price svc.billing_cycle months;
        }
        ∷ rest)

  -- `resolveBookingAddons`
  unfoldable pub resolve_booking_addons :
      ℕ → ℕ → List ApplicationAddon → Action (List ResolvedAddon)
  unfolding resolve_items
  resolve_booking_addons space_id months [] = pure []
  resolve_booking_addons space_id months (item ∷ items) = do
    landlord ← reads_or bad_request (space_owner space_id)
    resolve_items space_id landlord months (item ∷ items)

  -- `notifyUsers`, on the ids without repetition.
  unfoldable pub notify_each : ℕ → String → String → List ℕ → Db → Db
  notify_each tenant_id type title [] s = s
  notify_each tenant_id type title (u ∷ us) s = notify_each tenant_id type title us (record s {
    notifications =
        create
          (record { tenant_id = tenant_id; user_id = u; notification_type = type; title = title })
          s.notifications;
  })

  unfoldable pub notify_users : ℕ → List ℕ → String → String → Db → Db
  unfolding notify_each unique
  notify_users tenant_id user_ids type title = notify_each tenant_id type title (unique [] user_ids)

  -- `notifyApprovers`: every active manager and platform owner.
  unfoldable pub notify_approvers : Booking → Db → Db
  unfolding notify_users
  notify_approvers b s =
      let approvers =
        find_many (λ u. (is_role u.role manager || is_role u.role super_admin) && u.is_active)
          s.users in
      notify_users b.tenant_id (map (λ u. u.id) approvers) "BOOKING_REMINDER"
        "Booking pending approval" s

  -- `notifyTenantAdmins`
  unfoldable pub notify_tenant_admins : ℕ → String → String → Db → Db
  unfolding notify_users
  notify_tenant_admins tenant_id type title s =
      let admins =
        find_many (λ u. u.tenant_id == tenant_id && is_role u.role tenant_admin && u.is_active)
          s.users in
      notify_users tenant_id (map (λ u. u.id) admins) type title s

  -- `booking.update` and `space.update` by id.
  abbrev pub update_booking : ℕ → (Booking → Booking) → Db → Db
  update_booking id f s = record s { bookings = update (λ b. b.id == id) f s.bookings }

  abbrev pub update_space : ℕ → (Space → Space) → Db → Db
  update_space id f s = record s { spaces = update (λ x. x.id == id) f s.spaces }

  unfoldable pub issue_if_missing : Call → ℕ → Option ℕ → Action (Unit {0})
  issue_if_missing call booking_id (some invoice_id) = pure tt
  issue_if_missing call booking_id none = do
    invoice ← generate_invoice_from_booking call booking_id
    writes (update_booking booking_id (λ b. record b { invoice_id = some invoice.id }))

  -- `issueBookingInvoice`: at most one invoice for a booking.
  unfoldable pub issue_booking_invoice : Call → ℕ → Action (Unit {0})
  unfolding issue_if_missing
  issue_booking_invoice call booking_id = do
    existing ← reads (find_booking booking_id)
    issue_if_missing call booking_id (elim existing [ none ↦ none | some b ↦ b.invoice_id ])
