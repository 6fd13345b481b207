-- ===== src/Schema/Lookups.antt =====
-- Rows by their id, and what `include` and a relation in a `where` clause reach from a row.
use pfe.Base.{ℕ, Bool, Option, none, some, ◌==◌, ltb, ◌&&◌}
use pfe.Prisma.{Prisma}
use pfe.Schema.Status.{available, is_space_status}
use pfe.Schema.Rows.{
  Db, Tenant, User, Building, Floor, Space, Booking, AddOnService, Invoice, Payment,
  MaintenanceTicket, BookingApplication,
}

module _ ⦃P : Prisma⦄ where
  open P use {find_first, count}

  abbrev pub find_tenant : ℕ → Db → Option Tenant
  find_tenant id s = find_first (λ r. r.id == id) s.tenants

  abbrev pub find_user : ℕ → Db → Option User
  find_user id s = find_first (λ r. r.id == id) s.users

  abbrev pub find_building : ℕ → Db → Option Building
  find_building id s = find_first (λ r. r.id == id) s.buildings

  abbrev pub find_floor : ℕ → Db → Option Floor
  find_floor id s = find_first (λ r. r.id == id) s.floors

  abbrev pub find_space : ℕ → Db → Option Space
  find_space id s = find_first (λ r. r.id == id) s.spaces

  abbrev pub find_booking : ℕ → Db → Option Booking
  find_booking id s = find_first (λ r. r.id == id) s.bookings

  abbrev pub find_service : ℕ → Db → Option AddOnService
  find_service id s = find_first (λ r. r.id == id) s.addon_services

  abbrev pub find_invoice : ℕ → Db → Option Invoice
  find_invoice id s = find_first (λ r. r.id == id) s.invoices

  abbrev pub find_payment : ℕ → Db → Option Payment
  find_payment id s = find_first (λ r. r.id == id) s.payments

  abbrev pub find_ticket : ℕ → Db → Option MaintenanceTicket
  find_ticket id s = find_first (λ r. r.id == id) s.maintenance_tickets

  abbrev pub find_application : ℕ → Db → Option BookingApplication
  find_application id s = find_first (λ r. r.id == id) s.booking_applications

  -- `building.tenant_id`, `floor.building.tenant_id`, `space.floor.building.tenant_id`
  unfoldable pub building_owner : ℕ → Db → Option ℕ
  building_owner id s = elim (find_building id s) [ none ↦ none | some b ↦ some b.tenant_id ]

  unfoldable pub floor_owner : ℕ → Db → Option ℕ
  floor_owner id s = elim (find_floor id s) [
    | none ↦ none
    | some f ↦ building_owner f.building_id s
  ]

  unfoldable pub space_owner : ℕ → Db → Option ℕ
  space_owner id s = elim (find_space id s) [ none ↦ none | some x ↦ floor_owner x.floor_id s ]

  -- `prisma.space.count` over the available spaces of a floor.
  unfoldable pub bookable_on_floor : ℕ → Db → ℕ
  bookable_on_floor floor_id s =
      count (λ x. is_space_status x.status available && x.floor_id == floor_id) s.spaces

  -- The same over the floors of a building: a space counts when its floor is in the building.
  unfoldable pub floor_in : ℕ → Db → ℕ → Bool
  floor_in building_id s floor_id =
      ltb 0 (count (λ f. f.id == floor_id && f.building_id == building_id) s.floors)

  unfoldable pub bookable_in_building : ℕ → Db → ℕ
  unfolding floor_in
  bookable_in_building building_id s =
      count (λ x. is_space_status x.status available && floor_in building_id s x.floor_id) s.spaces
