-- ===== src/Maintenance/Tickets.antt =====
-- backend/src/maintenance/maintenance.service.ts: who a ticket belongs to, its mails, and how it is
-- raised.
use pfe.Base.{
  ℕ, Bool, not, ◌&&◌, ◌||◌, Option, none, some, List, String, str_eq, map, ◌==◌, any, holds_id,
  or_else, is_some, nonempty, first_of_texts, if◌then◌else◌,
}
use pfe.Prisma.{Prisma}
use pfe.Service.{
  HttpError, bad_request, not_found, forbidden, pure, reads, reads_or, or_throw, throw_if, writes,
  run_if, Call, ◌>>=◌, ◌>>◌,
}
use pfe.Roles.{Role, AuthUser, is_role, super_admin, manager, tenant_admin, tenant_employee}
use pfe.Schema.{
  Db, Action, Space, Booking, MaintenanceTicket, TicketStatus, ticket_open, assigned, SpaceStatus,
  out_of_service, is_space_status, BookingStatus, is_booking, maintenance_created, urgent_ticket,
  ticket_created, maintenance_status, same_ticket, find_user, find_tenant, find_space, find_ticket,
  space_owner,
}
use pfe.Billing.{send}
use pfe.Booking.Rules.{update_space}

-- `isPortalCustomer`
unfoldable pub is_portal_customer : Role → Bool
is_portal_customer role = is_role role tenant_admin || is_role role tenant_employee

-- `priority === URGENT || priority === EMERGENCY`
unfoldable pub is_urgent : String → Bool
is_urgent priority = str_eq priority "URGENT" || str_eq priority "EMERGENCY"

-- A booking that gives its holder the space to report on.
unfoldable pub gives_space : AuthUser → Booking → Bool
gives_space user b =
    b.tenant_id == user.tenant_id
    && not (
        is_booking b.status BookingStatus.cancelled
        || is_booking b.status BookingStatus.draft
        || is_booking b.status BookingStatus.pending_approval
        || is_booking b.status BookingStatus.no_show)

-- CreateMaintenanceTicketDto, by the fields that `create` reads.
pub record CreateMaintenanceTicketDto : Type 0 where
  pub space_id : ℕ
  pub user_id : Option ℕ
  pub created_by_user_id : Option ℕ
  pub title : String
  pub description : Option String
  pub category : String
  pub priority : Option String
  pub assigned_to : Option ℕ

-- `a ?? b` of nullable ids.
abbrev pub first_of_ids : Option ℕ → Option ℕ → Option ℕ
first_of_ids none b = b
first_of_ids (some a) b = some a

-- The row that `create` stores.
unfoldable pub new_ticket : Call → ℕ → ℕ → CreateMaintenanceTicketDto → MaintenanceTicket
new_ticket call tenant_id reporter_id dto = record {
  id = call.uuid 0;
  tenant_id = tenant_id;
  space_id = some dto.space_id;
  booking_id = none;
  user_id = some reporter_id;
  created_by_user_id = some reporter_id;
  title = dto.title;
  description = dto.description;
  category = dto.category;
  priority = or_else dto.priority "NORMAL";
  status = if is_some dto.assigned_to then assigned else ticket_open;
  assigned_to = dto.assigned_to;
  cost = none;
  resolved_at = none;
}

-- The reporter and the creator that `createForUser` fills in.
unfoldable pub reported_by : AuthUser → CreateMaintenanceTicketDto → CreateMaintenanceTicketDto
reported_by user dto = record dto {
  user_id = some (or_else (first_of_ids dto.user_id dto.created_by_user_id) user.id);
  created_by_user_id = some (or_else (first_of_ids dto.created_by_user_id dto.user_id) user.id);
}

module _ ⦃P : Prisma⦄ where
  open P use {find_first, find_many, create, update, delete}

  -- `ticket.space?.floor?.building?.tenant_id`
  unfoldable pub ticket_owner : MaintenanceTicket → Db → Option ℕ
  ticket_owner t s = elim t.space_id [ none ↦ none | some id ↦ space_owner id s ]

  -- `user?.tenant_id` and `user?.email` of a nullable relation.
  unfoldable pub tenant_of_user : Option ℕ → Db → Option ℕ
  tenant_of_user none s = none
  tenant_of_user (some id) s = elim (find_user id s) [ none ↦ none | some u ↦ some u.tenant_id ]

  unfoldable pub email_of_user : Option ℕ → Db → Option String
  email_of_user none s = none
  email_of_user (some id) s = elim (find_user id s) [ none ↦ none | some u ↦ nonempty u.email ]

  -- MaintenanceService.getAccessibleSpaces
  unfoldable pub accessible_spaces : AuthUser → Db → List Space
  unfolding is_portal_customer gives_space space_owner
  accessible_spaces user s =
      let booked = map (λ (b : Booking). b.space_id) (find_many (gives_space user) s.bookings) in
      if is_portal_customer user.role
      then find_many (λ x. any (λ i. i == x.id) booked) s.spaces
      else find_many
          (λ x.
            not (is_space_status x.status out_of_service)
            && (is_role user.role super_admin || holds_id (space_owner x.id s) user.tenant_id))
          s.spaces

  -- `sendMaintenanceNotifications`: to the technician, to a manager of the landlord where it is
  -- urgent (to any manager where the space is gone), and to the reporter.
  unfoldable pub send_maintenance_notifications : MaintenanceTicket → Db → Db
  unfolding is_urgent ticket_owner email_of_user
  send_maintenance_notifications t s =
      let told = send (email_of_user t.assigned_to s) maintenance_created t.id s in
      let owner = ticket_owner t s in
      let site_manager =
        find_first (λ u. is_role u.role manager && or_else owner u.tenant_id == u.tenant_id)
          s.users in
      let warned =
        if is_urgent t.priority
        then send (elim site_manager [ none ↦ none | some u ↦ nonempty u.email ]) urgent_ticket t.id
            told
        else told in
      send (email_of_user t.user_id s) ticket_created t.id warned

  -- `notifyMaintenanceBrevoStatusChange`
  unfoldable pub status_mail : ℕ → Db → Db
  unfolding email_of_user
  status_mail id s = elim (find_ticket id s) [
    | none ↦ s
    | some t ↦
        let contact : Option String = elim (find_tenant t.tenant_id s) [
          | none ↦ none
          | some o ↦ o.contact_email
        ] in
        send (first_of_texts (nonempty contact) (email_of_user t.user_id s)) maintenance_status id s
  ]

  -- `fireBrevoStatus`
  unfoldable pub fire_brevo_status : ℕ → TicketStatus → TicketStatus → Db → Db
  unfolding status_mail
  fire_brevo_status id previous next s = if same_ticket previous next then s else status_mail id s

  -- `maintenanceTicket.update` by id.
  abbrev pub update_ticket : ℕ → (MaintenanceTicket → MaintenanceTicket) → Db → Db
  update_ticket id f s = record s {
    maintenance_tickets = update (λ t. t.id == id) f s.maintenance_tickets;
  }

  -- MaintenanceService.create
  unfoldable pub create_ticket : Call → CreateMaintenanceTicketDto → Action MaintenanceTicket
  create_ticket call dto = do
    reporter_id ← or_throw bad_request (first_of_ids dto.user_id dto.created_by_user_id)
    space ← reads_or not_found (find_space dto.space_id)
    tenant_id ← reads_or HttpError.internal_error (space_owner dto.space_id)
    let ticket = new_ticket call tenant_id reporter_id dto
    writes (λ s. record s { maintenance_tickets = create ticket s.maintenance_tickets })
    run_if (is_urgent ticket.priority)
        (writes (update_space dto.space_id (λ x. record x { status = SpaceStatus.maintenance })))
    writes (send_maintenance_notifications ticket)
    pure ticket

  -- MaintenanceService.createForUser
  unfoldable pub create_for_user :
      Call → AuthUser → CreateMaintenanceTicketDto → Action MaintenanceTicket
  create_for_user call user dto = do
    allowed ← reads (accessible_spaces user)
    throw_if (is_portal_customer user.role && not (any (λ x. x.id == dto.space_id) allowed))
        forbidden
    create_ticket call (reported_by user dto)

  -- MaintenanceService.remove
  unfoldable pub remove_ticket : ℕ → Action (Unit {0})
  remove_ticket id = do
    ticket ← reads_or not_found (find_ticket id)
    writes (λ s. record s { maintenance_tickets = delete (λ t. t.id == id) s.maintenance_tickets })
