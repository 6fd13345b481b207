-- ===== src/Maintenance/Raised.antt =====
-- backend/src/maintenance/maintenance.service.ts: what becomes of a ticket that a renter raises.
use pfe.Base.{ℕ, ◌≡◌, ◌≢◌, inl, inr, refl, true, none, some, arith, Option-cases, All}
use pfe.Prisma.{Prisma}
use pfe.Service.{Call, ok, throw, forbidden}
use pfe.Roles.{AuthUser}
use pfe.Schema.{
  Db, Space, MaintenanceTicket, SpaceStatus, find_space, find_ticket, space_owner, floor_owner,
  building_owner,
}
use pfe.Tables.{find_first-create, find_first-update}
use pfe.Booking.Rules.{update_space}
use pfe.Maintenance.Tickets.{
  CreateMaintenanceTicketDto, first_of_ids, is_portal_customer, ticket_owner, new_ticket,
  reported_by, send_maintenance_notifications, create_ticket, create_for_user,
}
use pfe.Maintenance.Actions
use pfe.Maintenance.Lists
use pfe.Maintenance.Scope.{unfiltered, find_one_for_user-refused, unfiltered-base}
use pfe.Maintenance.Life.{send_maintenance_notifications-tickets}

abbrev under_repair : Space → Space
under_repair x = record x { status = SpaceStatus.maintenance }

module _ ⦃P : Prisma⦄ where
  open P use {rows, create}

  send_maintenance_notifications-places :
      (t : MaintenanceTicket) (s : Db)
      → ((send_maintenance_notifications t s).spaces ≡ s.spaces)
        × ((send_maintenance_notifications t s).floors ≡ s.floors)
        × ((send_maintenance_notifications t s).buildings ≡ s.buildings)
  unfolding send_maintenance_notifications
  send_maintenance_notifications-places t s = (ground arith, ground arith, ground arith)

  -- What a ticket that was raised is, and where its space stands afterwards.
  create_ticket-stored :
      (call : Call) (dto : CreateMaintenanceTicketDto) (s : Db) (t : MaintenanceTicket) (s' : Db)
      → create_ticket call dto s ≡ (ok t, s')
      → (space_owner dto.space_id s ≡ some t.tenant_id)
        × (s'.maintenance_tickets ≡ create t s.maintenance_tickets)
        × (space_owner dto.space_id s' ≡ some t.tenant_id)
        × (t.id ≡ call.uuid 0)
        × (t.space_id ≡ some dto.space_id)
        × (t.created_by_user_id ≡ first_of_ids dto.user_id dto.created_by_user_id)
  unfolding create_ticket new_ticket space_owner floor_owner building_owner
  create_ticket-stored call dto s t s' h = elim (Option-cases (find_space dto.space_id s)) [
    | inl missing ↦ ground arith
    | inr (x, found) ↦
        let s₁ = record s { maintenance_tickets = create t s.maintenance_tickets } in
        let s₂ = update_space dto.space_id under_repair s₁ in
        ground (
          arith,
          find_first-update (λ r. r.id) dto.space_id under_repair s.spaces x (λ r. refl) found,
          send_maintenance_notifications-tickets t s₁,
          send_maintenance_notifications-tickets t s₂,
          send_maintenance_notifications-places t s₁,
          send_maintenance_notifications-places t s₂,
        )
  ]

  -- A renter who raises a ticket in their own name, in a space of a landlord that is another
  -- organisation, has it in the unfiltered list, yet opening it throws "forbidden". The ticket's id
  -- must be new.
  pub create_for_user-hidden :
      (call : Call) (user : AuthUser) (dto : CreateMaintenanceTicketDto) (s : Db)
      (t : MaintenanceTicket) (s' : Db) (landlord : ℕ)
      → is_portal_customer user.role ≡ true
      → dto.user_id ≡ none
      → dto.created_by_user_id ≡ none
      → All (λ (r : MaintenanceTicket). r.id ≢ call.uuid 0) (rows s.maintenance_tickets)
      → space_owner dto.space_id s ≡ some landlord
      → landlord ≢ user.tenant_id
      → create_for_user call user dto s ≡ (ok t, s')
      → (Lists.ticket_where user unfiltered s' t ≡ true)
        × (Actions.find_one_for_user user t.id s' ≡ (throw forbidden, s'))
  unfolding create_for_user reported_by ticket_owner Lists.ticket_where Lists.portal_scope
  create_for_user-hidden call user dto s t s' landlord renter u c fresh owner other raised =
      let made : create_ticket call (reported_by user dto) s ≡ (ok t, s') = ground arith in
      let (named, stored, kept, new, place, creator) =
        create_ticket-stored call (reported_by user dto) s t s' made in
      let moved : t.tenant_id ≡ landlord = ground arith in
      let found : find_ticket t.id s' ≡ some t =
        rw stored (find_first-create (λ r. r.id) t s.maintenance_tickets (rw new fresh)) in
      let foreign : ticket_owner t s' ≡ some landlord = ground arith in
      (
        ground (arith, unfiltered-base t),
        find_one_for_user-refused user t.id s' t found (λ may. ground arith),
      )
