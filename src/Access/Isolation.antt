-- ===== src/Access/Isolation.antt =====
-- backend/src/common/services/access-policy.service.ts: what the policy lets through, stated
-- without the service's order of tests.
use pfe.Base.{
  ℕ, ◌≡◌, ◌≢◌, ◌↔◌, ◌⊎◌, inl, inr, Bool, true, Option, none, some, String, arith, Bool,
  Option-cases, holds_id, eq_refl,
}
use pfe.Prisma.{Prisma}
use pfe.Service.{Result, ok, throw}
use pfe.Roles.{
  Role, AuthUser, super_admin, client_admin, manager, receptionist, finance, guest, tenant_employee,
}
use pfe.Schema.{
  Db, Floor, Space, Building, Booking, SpaceStatus, find_building, find_booking, floor_owner,
  space_owner,
}
use pfe.Access.{
  readable_place, readable_booking, assert_building_readable, assert_floor_readable,
  assert_floor_mutable, assert_booking_readable, space_where_for_list, building_where_for_list,
}

-- The staff of a landlord who handle bookings.
abbrev pub IsBookingStaff : Role → Type 0
IsBookingStaff role = (role ≡ manager) ⊎ (role ≡ client_admin) ⊎ (role ≡ receptionist)

-- Who may read a booking, by role: the platform owner; the landlord's booking staff, where the
-- landlord is theirs or unknown; anyone else in the booking's own organisation, but an employee
-- only their own.
abbrev pub MayReadBooking : AuthUser → Booking → Option ℕ → Type 0
MayReadBooking user b landlord =
    (user.role ≡ super_admin)
    ⊎ (IsBookingStaff user.role × ((landlord ≡ none) ⊎ (landlord ≡ some user.tenant_id)))
    ⊎ ((b.tenant_id ≡ user.tenant_id)
        × (¬ (IsBookingStaff user.role))
        × ((user.role ≢ tenant_employee) ⊎ (b.user_id ≡ user.id)))

pub holds_id_sound : (o : Option ℕ) (a : ℕ) → holds_id o a ≡ true → o ≡ some a
holds_id_sound o a h = ground arith

pub readable_booking_sound :
    (user : AuthUser) (b : Booking) (landlord : Option ℕ)
    → readable_booking user b landlord ≡ true
    → MayReadBooking user b landlord
unfolding readable_booking
readable_booking_sound user b landlord h = ground arith

pub readable_booking_complete :
    (user : AuthUser) (b : Booking) (landlord : Option ℕ)
    → MayReadBooking user b landlord
    → readable_booking user b landlord ≡ true
unfolding readable_booking
readable_booking_complete user b landlord h = ground arith

module _ ⦃P : Prisma⦄ where
  -- A booking is returned exactly where the row exists and the reader may read it, and then the
  -- database is as it was.
  pub assert_booking_readable_iff :
      (user : AuthUser) (id : ℕ) (s : Db) (b : Booking)
      → (assert_booking_readable user id s ≡ (ok b, s))
        ↔ ((find_booking id s ≡ some b) × MayReadBooking user b (space_owner b.space_id s))
  unfolding assert_booking_readable
  assert_booking_readable_iff user id s b = (
    λ h. elim (Option-cases (find_booking id s)) [
      | inl missing ↦ ground arith
      | inr (r, found) ↦ ground (arith, readable_booking_sound user r (space_owner r.space_id s))
    ],
    λ (found, may). ground (arith, readable_booking_complete user b (space_owner b.space_id s) may),
  )

  -- Who may change a floor may read it.
  pub assert_floor-mutable_readable :
      (user : AuthUser) (id : ℕ) (s : Db) (f : Floor)
      → assert_floor_mutable user id s ≡ (ok f, s)
      → assert_floor_readable user id s ≡ (ok f, s)
  unfolding assert_floor_mutable assert_floor_readable
  assert_floor-mutable_readable user id s f h = ground arith

  abbrev pub IsScoped : Role → Type 0
  IsScoped role = (role ≢ super_admin) × (role ≢ finance) × (role ≢ guest)

  -- The list of spaces shows a user of any role but the platform owner, FINANCE and GUEST only
  -- spaces of their own organisation.
  pub space_where_for_list-owner :
      (user : AuthUser) (floor_id : Option ℕ) (type : Option String) (status : Option SpaceStatus)
      (s : Db) (x : Space)
      → IsScoped user.role
      → space_where_for_list user floor_id type status s x ≡ true
      → floor_owner x.floor_id s ≡ some user.tenant_id
  unfolding space_where_for_list
  space_where_for_list-owner user floor_id type status s x scoped h =
      ground (arith, holds_id_sound (floor_owner x.floor_id s) user.tenant_id)

  -- A building stands in the list that a `where` clause selects.
  abbrev pub Shows : Result (Db → Building → Bool) → Db → Building → Type 0
  Shows (ok test) s b = test s b ≡ true
  Shows (throw e) s b = ⊥

  -- The unfiltered list of buildings shows exactly the stored buildings that the user may open.
  pub building_where_for_list-readable :
      (user : AuthUser) (s : Db) (b : Building)
      → find_building b.id s ≡ some b
      → Shows (building_where_for_list user none) s b
        ↔ (assert_building_readable user b.id s ≡ (ok b, s))
  unfolding building_where_for_list assert_building_readable readable_place
  building_where_for_list-readable user s b found = (λ shown. ground arith, λ opened. ground arith)

  -- A FINANCE or GUEST user lists the spaces of every organisation.
  pub space_where_for_list_unscoped :
      (user : AuthUser) (s : Db) (x : Space)
      → (user.role ≡ finance) ⊎ (user.role ≡ guest)
      → space_where_for_list user none none none s x ≡ true
  unfolding space_where_for_list
  space_where_for_list_unscoped user s x outside = ground (arith, eq_refl x.space_type)
