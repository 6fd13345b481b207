-- ===== src/Maintenance/Actions.antt =====
-- backend/src/maintenance/maintenance.service.ts: the operations on a ticket.
use pfe.Base.{
  ℕ, Bool, true, false, not, ◌&&◌, ◌||◌, Option, none, some, String, ◌==◌, holds_id, is_some,
  or_else, if◌then◌else◌,
}
use pfe.Prisma.{Prisma}
use pfe.Service.{
  bad_request, not_found, forbidden, internal_error, pure, reads, reads_or, throw_if, writes, Call,
  ◌>>=◌, ◌>>◌,
}
use pfe.Roles.{Role, AuthUser, is_role, super_admin}
use pfe.Schema.{
  Action, MaintenanceTicket, TicketStatus, ticket_open, assigned, in_progress, resolved, closed,
  is_ticket, find_ticket,
}
use pfe.Maintenance.Tickets.{
  is_portal_customer, first_of_ids, ticket_owner, send_maintenance_notifications, fire_brevo_status,
  update_ticket, remove_ticket,
}

-- The test of `assertTicketReadable`.
unfoldable pub readable_ticket : AuthUser → MaintenanceTicket → Option ℕ → Bool
readable_ticket user t owner =
    is_role user.role super_admin || t.tenant_id == user.tenant_id || holds_id owner user.tenant_id

-- The test of `assertTicketActor`.
unfoldable pub is_actor : Option AuthUser → MaintenanceTicket → Bool → Bool
unfolding is_portal_customer
is_actor none t allow_creator_cancel = true
is_actor (some user) t allow_creator_cancel =
    if is_role user.role Role.maintenance
    then holds_id t.assigned_to user.id
    else not (
        allow_creator_cancel
        && is_portal_customer user.role
        && not (holds_id t.created_by_user_id user.id))

-- The statuses that end a ticket, and those that `resolve` takes.
unfoldable pub is_ended : TicketStatus → Bool
is_ended status = is_ticket status closed || is_ticket status TicketStatus.cancelled

unfoldable pub is_resolvable : TicketStatus → Bool
is_resolvable status =
    is_ticket status ticket_open || is_ticket status assigned || is_ticket status in_progress

-- UpdateMaintenanceTicketDto: a field that is left out keeps its column. `estimated_hours` is no
-- column.
pub record UpdateMaintenanceTicketDto : Type 0 where
  pub created_by_user_id : Option ℕ
  pub title : Option String
  pub description : Option String
  pub category : Option String
  pub priority : Option String
  pub status : Option TicketStatus
  pub assigned_to : Option ℕ
  pub estimated_hours : Option ℕ
  pub cost : Option ℕ

abbrev first_of_descriptions : Option String → Option String → Option String
first_of_descriptions none b = b
first_of_descriptions (some a) b = some a

unfoldable pub updated_ticket : UpdateMaintenanceTicketDto → MaintenanceTicket → MaintenanceTicket
updated_ticket dto t = record t {
  created_by_user_id = first_of_ids dto.created_by_user_id t.created_by_user_id;
  title = or_else dto.title t.title;
  description = first_of_descriptions dto.description t.description;
  category = or_else dto.category t.category;
  priority = or_else dto.priority t.priority;
  status = or_else dto.status t.status;
  assigned_to = first_of_ids dto.assigned_to t.assigned_to;
  cost = first_of_ids dto.cost t.cost;
}

-- The changes that the operations write.
unfoldable pub assigned_ticket : ℕ → MaintenanceTicket → MaintenanceTicket
assigned_ticket technician t = record t { assigned_to = some technician; status = assigned }

unfoldable pub claimed_ticket : ℕ → MaintenanceTicket → MaintenanceTicket
claimed_ticket technician t = record t { assigned_to = some technician }

unfoldable pub resolved_ticket : ℕ → Option ℕ → MaintenanceTicket → MaintenanceTicket
resolved_ticket now cost t = record t {
  status = resolved;
  resolved_at = some now;
  cost = first_of_ids cost t.cost;
}

unfoldable pub moved_ticket : TicketStatus → MaintenanceTicket → MaintenanceTicket
moved_ticket status t = record t { status = status }

-- `updateStatus` writes the time where the new status is RESOLVED.
unfoldable pub restated_ticket : ℕ → TicketStatus → MaintenanceTicket → MaintenanceTicket
restated_ticket now status t = record t {
  status = status;
  resolved_at = if is_ticket status resolved then some now else t.resolved_at;
}

module _ ⦃P : Prisma⦄ where
  -- MaintenanceService.findOneForUser
  unfoldable pub find_one_for_user : AuthUser → ℕ → Action MaintenanceTicket
  unfolding readable_ticket ticket_owner
  find_one_for_user user id = do
    ticket ← reads_or not_found (find_ticket id)
    owner ← reads (ticket_owner ticket)
    throw_if (not (readable_ticket user ticket owner)) forbidden
    pure ticket

  -- MaintenanceService.update
  unfoldable pub update : ℕ → UpdateMaintenanceTicketDto → Action (Unit {0})
  update id dto = do
    before ← reads_or not_found (find_ticket id)
    throw_if (is_some dto.estimated_hours) internal_error
    writes (update_ticket id (updated_ticket dto))
    writes (fire_brevo_status id before.status (or_else dto.status before.status))

  -- MaintenanceService.updateStatus
  unfoldable pub update_status : Call → ℕ → TicketStatus → Action (Unit {0})
  update_status call id status = do
    ticket ← reads_or not_found (find_ticket id)
    writes (update_ticket id (restated_ticket call.now status))
    writes (fire_brevo_status id ticket.status status)

  -- MaintenanceService.assign
  unfoldable pub assign : ℕ → ℕ → Action (Unit {0})
  assign id technician = do
    ticket ← reads_or not_found (find_ticket id)
    throw_if (is_ended ticket.status) bad_request
    throw_if (is_some ticket.assigned_to && not (holds_id ticket.assigned_to technician))
        bad_request
    writes (update_ticket id (assigned_ticket technician))
    writes (send_maintenance_notifications (assigned_ticket technician ticket))
    writes (fire_brevo_status id ticket.status assigned)

  -- What `accept` does with a ticket that the technician may take.
  unfoldable pub claim : ℕ → AuthUser → MaintenanceTicket → Action (Unit {0})
  claim id user ticket =
      if holds_id ticket.assigned_to user.id
      then pure tt
      else if is_ticket ticket.status ticket_open
      then assign id user.id
      else writes (update_ticket id (claimed_ticket user.id))

  -- MaintenanceService.accept
  unfoldable pub accept : ℕ → AuthUser → Action (Unit {0})
  accept id user = do
    throw_if (not (is_role user.role Role.maintenance)) forbidden
    ticket ← reads_or not_found (find_ticket id)
    throw_if (is_ended ticket.status || is_ticket ticket.status resolved) bad_request
    throw_if (is_some ticket.assigned_to && not (holds_id ticket.assigned_to user.id)) bad_request
    claim id user ticket

  -- MaintenanceService.startProgress
  unfoldable pub start_progress : ℕ → Option AuthUser → Action (Unit {0})
  start_progress id user = do
    ticket ← reads_or not_found (find_ticket id)
    throw_if (not (is_actor user ticket false)) forbidden
    throw_if (not (is_ticket ticket.status assigned)) bad_request
    writes (update_ticket id (moved_ticket in_progress))
    writes (fire_brevo_status id ticket.status in_progress)

  -- MaintenanceService.resolve
  unfoldable pub resolve : Call → ℕ → Option ℕ → Option AuthUser → Action (Unit {0})
  resolve call id cost user = do
    ticket ← reads_or not_found (find_ticket id)
    throw_if (not (is_actor user ticket false)) forbidden
    throw_if (not (is_resolvable ticket.status)) bad_request
    writes (update_ticket id (resolved_ticket call.now cost))
    writes (fire_brevo_status id ticket.status resolved)

  -- MaintenanceService.close
  unfoldable pub close : ℕ → Option AuthUser → Action (Unit {0})
  close id user = do
    ticket ← reads_or not_found (find_ticket id)
    throw_if (not (is_actor user ticket false)) forbidden
    throw_if (not (is_ticket ticket.status resolved)) bad_request
    writes (update_ticket id (moved_ticket closed))
    writes (fire_brevo_status id ticket.status closed)

  -- MaintenanceService.cancel
  unfoldable pub cancel : ℕ → Option AuthUser → Action (Unit {0})
  cancel id user = do
    ticket ← reads_or not_found (find_ticket id)
    throw_if (not (is_actor user ticket true)) forbidden
    throw_if (is_ended ticket.status) bad_request
    writes (update_ticket id (moved_ticket TicketStatus.cancelled))
    writes (fire_brevo_status id ticket.status TicketStatus.cancelled)

  -- MaintenanceService.updateForUser, removeForUser, updateStatusForUser, assignForUser and
  -- resolveForUser: the ticket must be one that the user may read.
  unfoldable pub update_for_user : AuthUser → ℕ → UpdateMaintenanceTicketDto → Action (Unit {0})
  update_for_user user id dto = do ticket ← find_one_for_user user id; update id dto

  unfoldable pub remove_for_user : AuthUser → ℕ → Action (Unit {0})
  remove_for_user user id = do ticket ← find_one_for_user user id; remove_ticket id

  unfoldable pub update_status_for_user : Call → AuthUser → ℕ → TicketStatus → Action (Unit {0})
  update_status_for_user call user id status = do
    ticket ← find_one_for_user user id
    update_status call id status

  unfoldable pub assign_for_user : AuthUser → ℕ → ℕ → Action (Unit {0})
  assign_for_user user id technician = do ticket ← find_one_for_user user id; assign id technician

  unfoldable pub resolve_for_user : Call → AuthUser → ℕ → Option ℕ → Action (Unit {0})
  resolve_for_user call user id cost = do
    ticket ← find_one_for_user user id
    resolve call id cost (some user)
