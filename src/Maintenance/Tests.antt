-- ===== src/Maintenance/Tests.antt =====
-- backend/src/maintenance/maintenance.service.ts: examples.
use pfe.Base.{◌≡◌, refl, true, false, none, some, List, [], ◌∷◌, arith, All, Pointwise, length}
use pfe.Memory.{memory}
use pfe.Service.{ok, throw, forbidden, final}
use pfe.Roles.{Role, AuthUser}
use pfe.Schema.{
  Db, MaintenanceTicket, ticket_open, assigned, find_ticket, space_owner, floor_owner,
  building_owner,
}
use pfe.Sample.{landlord, renter, call_at, sample}
use pfe.Maintenance.Tickets.{
  CreateMaintenanceTicketDto, is_portal_customer, ticket_owner, accessible_spaces, create_for_user,
  create_ticket, reported_by, new_ticket, gives_space, is_urgent, send_maintenance_notifications,
  email_of_user,
}
use pfe.Maintenance.Actions
use pfe.Maintenance.Lists
use pfe.Maintenance.Life.{accept, start_progress, perform, Advances, perform-Advances}
use pfe.Maintenance.Runs.{Request, Follows, run, run-Follows}
use pfe.Maintenance.Scope.{
  MayReadTicket, remove, change, unfiltered, change_refused, find_all_for_user-MayReadTicket,
  accept-any_technician, get_stats_for_user-total,
}
use pfe.Maintenance.Raised.{create_for_user-hidden}

-- A technician of another organisation than the landlord's.
abbrev stranger : AuthUser
stranger = record { id = 31; tenant_id = 3; role = Role.maintenance }

abbrev leak : MaintenanceTicket
leak = record {
  id = 800;
  tenant_id = 1;
  space_id = some 300;
  booking_id = none;
  user_id = some 20;
  created_by_user_id = some 20;
  title = "Leak";
  description = none;
  category = "PLUMBING";
  priority = "NORMAL";
  status = ticket_open;
  assigned_to = none;
  cost = none;
  resolved_at = none;
}

abbrev workshop : Db
workshop = record sample { maintenance_tickets = leak ∷ [] }

perform-Advances_example :
    Pointwise
      (Advances accept)
      workshop.maintenance_tickets
      (perform stranger 800 accept workshop).maintenance_tickets
perform-Advances_example = perform-Advances stranger 800 accept workshop (tt, tt)

abbrev day : List Request
day =
    record { user = stranger; id = 800; operation = accept }
    ∷ record { user = stranger; id = 800; operation = start_progress }
    ∷ []

run-Follows_example :
    Pointwise Follows workshop.maintenance_tickets (run day workshop).maintenance_tickets
run-Follows_example = run-Follows day workshop (tt, tt)

owner : ticket_owner leak workshop ≡ some 1
unfolding ticket_owner space_owner floor_owner building_owner
owner = refl

hidden : ¬ (MayReadTicket stranger leak (ticket_owner leak workshop))
hidden may = ground (arith, owner)

change_refused_example : change stranger 800 remove workshop ≡ (throw forbidden, workshop)
change_refused_example = change_refused stranger 800 remove workshop leak refl hidden

staff : is_portal_customer landlord.role ≡ false
unfolding is_portal_customer
staff = refl

find_all_for_user-MayReadTicket_example :
    All
      (λ t. MayReadTicket landlord t (ticket_owner t workshop))
      (Lists.find_all_for_user landlord unfiltered workshop)
find_all_for_user-MayReadTicket_example =
    find_all_for_user-MayReadTicket landlord unfiltered workshop staff

accept-any_technician_example :
    find_ticket 800 (final (Actions.accept 800 stranger workshop))
    ≡ some (record leak { assigned_to = some 31; status = assigned })
accept-any_technician_example = accept-any_technician stranger 800 workshop leak refl refl refl refl

get_stats_for_user-total_example :
    (Lists.get_stats_for_user landlord none workshop).total
    ≡ length (Lists.find_all_for_user landlord unfiltered workshop)
get_stats_for_user-total_example = get_stats_for_user-total landlord workshop

-- A renter's ticket in the office that they have booked.
abbrev broken_lamp : CreateMaintenanceTicketDto
broken_lamp = record {
  space_id = 300;
  user_id = none;
  created_by_user_id = none;
  title = "Lamp";
  description = none;
  category = "ELECTRICAL";
  priority = none;
  assigned_to = none;
}

abbrev lamp : MaintenanceTicket
lamp = new_ticket (call_at 0 900) 1 20 (reported_by renter broken_lamp)

abbrev reported : Db
reported = record sample { maintenance_tickets = lamp ∷ [] }

raised : create_for_user (call_at 0 900) renter broken_lamp sample ≡ (ok lamp, reported)
unfolding create_for_user create_ticket accessible_spaces reported_by new_ticket is_portal_customer
    gives_space is_urgent send_maintenance_notifications email_of_user space_owner floor_owner
    building_owner
raised = refl

office_owner : space_owner 300 sample ≡ some 1
unfolding space_owner floor_owner building_owner
office_owner = refl

renters : is_portal_customer renter.role ≡ true
unfolding is_portal_customer
renters = refl

create_for_user-hidden_example :
    (Lists.ticket_where renter unfiltered reported lamp ≡ true)
    × (Actions.find_one_for_user renter lamp.id reported ≡ (throw forbidden, reported))
create_for_user-hidden_example =
    create_for_user-hidden (call_at 0 900) renter broken_lamp sample lamp reported 1 renters refl
      refl tt office_owner (λ e. omega arith) raised
