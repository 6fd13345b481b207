-- ===== src/Maintenance/Lists.antt =====
-- backend/src/maintenance/maintenance.service.ts: the lists of tickets and their counts.
use pfe.Base.{
  ℕ, ◌+◌, Bool, true, not, ◌&&◌, ◌||◌, Option, none, some, List, String, str_eq, holds_id, is_some,
  or_else, select, length, if◌then◌else◌,
}
use pfe.Prisma.{Prisma}
use pfe.Roles.{Role, AuthUser, is_role, super_admin}
use pfe.Schema.{
  Db, MaintenanceTicket, TicketStatus, ticket_open, assigned, in_progress, resolved, closed,
  is_ticket, same_ticket,
}
use pfe.Maintenance.Tickets.{is_portal_customer, is_urgent, ticket_owner, tenant_of_user}

pub data TicketView : Type 0 where
  available mine every : TicketView

pub record TicketFilters : Type 0 where
  pub space_id : Option ℕ
  pub status : Option TicketStatus
  pub priority : Option String
  pub category : Option String
  pub assigned_to : Option ℕ
  pub view : Option TicketView

-- A filter on a nullable id, where the request names one.
abbrev pub id_passes : Option ℕ → Option ℕ → Bool
id_passes none _ = true
id_passes (some a) b = holds_id b a

-- `base`
unfoldable pub ticket_base : TicketFilters → MaintenanceTicket → Bool
ticket_base f t =
    id_passes f.space_id t.space_id
    && same_ticket (or_else f.status t.status) t.status
    && str_eq (or_else f.priority t.priority) t.priority
    && str_eq (or_else f.category t.category) t.category
    && id_passes f.assigned_to t.assigned_to

-- What a technician is shown, by the view asked for.
unfoldable pub technician_scope : AuthUser → TicketView → MaintenanceTicket → Bool
technician_scope user available t = is_ticket t.status ticket_open && not (is_some t.assigned_to)
technician_scope user mine t = holds_id t.assigned_to user.id
technician_scope user every t =
    (is_ticket t.status ticket_open && not (is_some t.assigned_to))
    || holds_id t.assigned_to user.id

-- `byStatus[status] ?? 0` after the loop over the tickets.
unfoldable pub by_status : TicketStatus → List MaintenanceTicket → ℕ
by_status status tickets = length (select (λ t. is_ticket t.status status) tickets)

-- The counts; those that only some roles are given are options.
pub record TicketStats : Type 0 where
  pub total : ℕ
  pub opened : ℕ
  pub in_progress : ℕ
  pub resolved : ℕ
  pub closed : Option ℕ
  pub urgent : Option ℕ

-- The counts of a renter and of a technician: work assigned counts as in progress, closed as
-- resolved.
unfoldable pub grouped_stats : List MaintenanceTicket → TicketStats
unfolding by_status is_urgent
grouped_stats tickets = record {
  total = length tickets;
  opened = by_status ticket_open tickets;
  in_progress = by_status in_progress tickets + by_status assigned tickets;
  resolved = by_status resolved tickets + by_status closed tickets;
  closed = none;
  urgent = some (length (select (λ t. is_urgent t.priority) tickets));
}

-- The counts of the landlord's other staff.
unfoldable pub plain_stats : List MaintenanceTicket → TicketStats
unfolding by_status
plain_stats tickets = record {
  total = length tickets;
  opened = by_status ticket_open tickets;
  in_progress = by_status in_progress tickets;
  resolved = by_status resolved tickets;
  closed = some (by_status closed tickets);
  urgent = none;
}

module _ ⦃P : Prisma⦄ where
  open P use {find_many, count}

  -- `landlordTicketScope`
  unfoldable pub landlord_scope : AuthUser → Db → MaintenanceTicket → Bool
  unfolding ticket_owner
  landlord_scope user s t = holds_id (ticket_owner t s) user.tenant_id

  -- `portalTicketScope`
  unfoldable pub portal_scope : AuthUser → Db → MaintenanceTicket → Bool
  unfolding tenant_of_user
  portal_scope user s t =
      holds_id t.user_id user.id
      || holds_id t.created_by_user_id user.id
      || holds_id (tenant_of_user t.user_id s) user.tenant_id
      || holds_id (tenant_of_user t.created_by_user_id s) user.tenant_id

  -- The `where` of `findAllForUser`.
  unfoldable pub ticket_where : AuthUser → TicketFilters → Db → MaintenanceTicket → Bool
  unfolding portal_scope landlord_scope ticket_base technician_scope is_portal_customer
  ticket_where user f s t =
      if is_portal_customer user.role
      then portal_scope user s t && ticket_base f t
      else if is_role user.role Role.maintenance
      then ticket_base f t
        && technician_scope user (or_else f.view mine) t
        && landlord_scope user s t
      else if is_role user.role super_admin
      then ticket_base f t
      else ticket_base f t && landlord_scope user s t

  -- MaintenanceService.findAllForUser
  unfoldable pub find_all_for_user : AuthUser → TicketFilters → Db → List MaintenanceTicket
  unfolding ticket_where
  find_all_for_user user f s = find_many (ticket_where user f s) s.maintenance_tickets

  -- MaintenanceService.getStats
  unfoldable pub get_stats : Option ℕ → Db → TicketStats
  get_stats space_id s = record {
    total = count (λ t. id_passes space_id t.space_id) s.maintenance_tickets;
    opened =
        count (λ t. id_passes space_id t.space_id && is_ticket t.status ticket_open)
          s.maintenance_tickets;
    in_progress =
        count (λ t. id_passes space_id t.space_id && is_ticket t.status in_progress)
          s.maintenance_tickets;
    resolved =
        count (λ t. id_passes space_id t.space_id && is_ticket t.status resolved)
          s.maintenance_tickets;
    closed = some (
        count (λ t. id_passes space_id t.space_id && is_ticket t.status closed)
          s.maintenance_tickets);
    urgent = none;
  }

  -- MaintenanceService.getStatsForUser. A technician's counts take no account of the space asked for.
  unfoldable pub get_stats_for_user : AuthUser → Option ℕ → Db → TicketStats
  unfolding is_portal_customer portal_scope landlord_scope technician_scope grouped_stats
      plain_stats get_stats
  get_stats_for_user user space_id s =
      if is_portal_customer user.role
      then grouped_stats (
          find_many (λ t. portal_scope user s t && id_passes space_id t.space_id)
            s.maintenance_tickets)
      else if is_role user.role Role.maintenance
      then grouped_stats (
          find_many (λ t. technician_scope user every t && landlord_scope user s t)
            s.maintenance_tickets)
      else if is_role user.role super_admin
      then get_stats space_id s
      else plain_stats (
          find_many (λ t. landlord_scope user s t && id_passes space_id t.space_id)
            s.maintenance_tickets)
