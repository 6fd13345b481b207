-- ===== src/Booking/Queries.antt =====
-- backend/src/booking/booking.service.ts: `findAllForUser` and `getWorkflowQueues`, as the bookings
-- that their `where` clauses select.
use pfe.Base.{
  ℕ, Bool, true, not, ◌&&◌, ◌||◌, Option, List, ◌==◌, if◌then◌else◌, or_else, holds_id, is_some,
}
use pfe.Prisma.{Prisma}
use pfe.Service.{forbidden, reads, throw_if, ◌>>◌}
use pfe.Roles.{
  Role, AuthUser, is_role, super_admin, client_admin, manager, finance, maintenance, receptionist,
  tenant_admin, tenant_employee,
}
use pfe.Schema.{
  Db, Action, Booking, BookingStatus, is_booking, same_booking, pending_phone_confirmation,
  awaiting_physical_visit, documents_pending_upload, space_owner,
}
use pfe.Booking.Rules.{is_workflow_staff}

-- The filters of a request.
pub record BookingQuery : Type 0 where
  pub tenant_id : Option ℕ
  pub space_id : Option ℕ
  pub status : Option BookingStatus
  pub created_by : Option ℕ

-- The roles whose own organisation the bookings must be held by.
unfoldable pub is_renter_scoped : Role → Bool
is_renter_scoped role =
    is_role role maintenance || is_role role tenant_admin || is_role role tenant_employee

-- The roles whose own organisation the space must belong to.
unfoldable pub is_landlord_scoped : Role → Bool
is_landlord_scoped role = is_role role manager || is_role role client_admin || is_role role finance

-- The throws of `findAllForUser`.
unfoldable pub query_refused : AuthUser → BookingQuery → Bool
unfolding is_renter_scoped
query_refused user q =
    (is_renter_scoped user.role && is_some q.tenant_id && not (holds_id q.tenant_id user.tenant_id))
    || (is_some q.created_by
        && not (holds_id q.created_by user.id)
        && (is_role user.role tenant_employee
            || not (
                is_role user.role super_admin
                || is_role user.role finance
                || is_role user.role tenant_admin
                || is_role user.role manager
                || is_role user.role client_admin)))

-- The user whose bookings are asked for: `createdBy` last, over the reader's own id.
unfoldable pub booked_by : AuthUser → BookingQuery → Booking → Bool
unfolding is_renter_scoped is_landlord_scoped
booked_by user q b =
    if is_some q.created_by
    then holds_id q.created_by b.user_id
    else if is_role user.role tenant_employee
    then b.user_id == user.id
    else if is_role user.role super_admin
        || is_landlord_scoped user.role
        || is_renter_scoped user.role
        || is_role user.role receptionist
    then true
    else b.user_id == user.id

module _ ⦃P : Prisma⦄ where
  open P use {find_many}

  -- `space: { floor: { building: { tenant_id: user.tenant_id } } }`
  unfoldable pub in_own_building : AuthUser → Db → Booking → Bool
  in_own_building user s b = holds_id (space_owner b.space_id s) user.tenant_id

  -- The organisation that the role's branch asks for.
  unfoldable pub in_scope : AuthUser → BookingQuery → Db → Booking → Bool
  unfolding is_renter_scoped is_landlord_scoped in_own_building
  in_scope user q s b =
      if is_role user.role super_admin
      then or_else q.tenant_id b.tenant_id == b.tenant_id
      else if is_landlord_scoped user.role
      then in_own_building user s b && or_else q.tenant_id b.tenant_id == b.tenant_id
      else if is_renter_scoped user.role
      then b.tenant_id == user.tenant_id
      else if is_role user.role receptionist
      then in_own_building user s b
      else true

  unfoldable pub booking_where : AuthUser → BookingQuery → Db → Booking → Bool
  unfolding in_scope booked_by
  booking_where user q s b =
      in_scope user q s b
      && booked_by user q b
      && or_else q.space_id b.space_id == b.space_id
      && same_booking (or_else q.status b.status) b.status

  -- BookingService.findAllForUser
  unfoldable pub find_all_for_user : AuthUser → BookingQuery → Action (List Booking)
  find_all_for_user user q = do
    throw_if (query_refused user q) forbidden
    reads (λ s. find_many (booking_where user q s) s.bookings)

  -- `landlordFilter`
  unfoldable pub in_landlord_filter : AuthUser → Db → Booking → Bool
  unfolding in_own_building
  in_landlord_filter user s b =
      if is_role user.role super_admin then true else in_own_building user s b

  pub record WorkflowQueues : Type 0 where
    pub to_call : List Booking
    pub awaiting_visit : List Booking
    pub documents_pending : List Booking

  unfoldable pub workflow_queues : AuthUser → Db → WorkflowQueues
  unfolding in_landlord_filter
  workflow_queues user s = record {
    to_call =
        find_many
          (λ b.
            in_landlord_filter user s b
            && is_booking b.status pending_phone_confirmation
            && (not (is_role user.role receptionist) || holds_id b.receptionist_id user.id))
          s.bookings;
    awaiting_visit =
        find_many (λ b. in_landlord_filter user s b && is_booking b.status awaiting_physical_visit)
          s.bookings;
    documents_pending =
        find_many (λ b. in_landlord_filter user s b && is_booking b.status documents_pending_upload)
          s.bookings;
  }

  -- BookingService.getWorkflowQueues
  unfoldable pub get_workflow_queues : AuthUser → Action WorkflowQueues
  get_workflow_queues user = do
    throw_if (not (is_workflow_staff user.role)) forbidden
    reads (workflow_queues user)
