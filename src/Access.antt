-- ===== src/Access.antt =====
-- backend/src/common/services/access-policy.service.ts: who may read and change what. A `where`
-- clause that the service builds is a test on the rows of a database.
pub mod Isolation
mod Tests
use pfe.Base.{
  ℕ, Bool, true, false, not, ◌&&◌, ◌||◌, Option, none, some, String, str_eq, ◌==◌, ltb,
  if◌then◌else◌, or_else, holds_id, is_some,
}
use pfe.Prisma.{Prisma}
use pfe.Service.{
  Result, ok, throw, HttpError, not_found, forbidden, pure, reads, reads_or, throw_if, ◌>>=◌, ◌>>◌,
}
use pfe.Roles.{
  Role, AuthUser, is_role, super_admin, client_admin, manager, maintenance, receptionist,
  tenant_admin, tenant_employee,
}
use pfe.Schema.{
  Db, Action, Building, Floor, Space, Booking, SpaceStatus, available, is_space_status,
  find_building, find_floor, find_space, find_booking, building_owner, floor_owner, space_owner,
  bookable_on_floor, bookable_in_building,
}

-- `isCrossTenantReader`
unfoldable pub is_cross_tenant_reader : Role → Bool
is_cross_tenant_reader role = is_role role super_admin

-- `isTenantScoped`
unfoldable pub is_tenant_scoped : Role → Bool
is_tenant_scoped role =
    is_role role client_admin
    || is_role role manager
    || is_role role tenant_admin
    || is_role role tenant_employee
    || is_role role maintenance

-- `isClientOperator`
unfoldable pub is_client_operator : Role → Bool
is_client_operator role = is_role role client_admin || is_role role manager

-- `isPortalBooker`
unfoldable pub is_portal_booker : Role → Bool
is_portal_booker role = is_role role tenant_admin || is_role role tenant_employee

-- What a reader of a building or a floor is refused: `bookable` counts the available spaces there.
readable_place : AuthUser → ℕ → Option ℕ → Bool
unfolding is_cross_tenant_reader is_portal_booker
readable_place user bookable owner =
    if is_cross_tenant_reader user.role
    then true
    else if is_portal_booker user.role
    then ltb 0 bookable
    else holds_id owner user.tenant_id

-- Who may write to a floor or a space that `owner` owns.
mutable_place : AuthUser → Option ℕ → Bool
unfolding is_client_operator
mutable_place user owner =
    if is_role user.role super_admin
    then true
    else if is_client_operator user.role
    then holds_id owner user.tenant_id
    else false

-- The tests of `assertBookingReadable`: `landlordId && landlordId !== user.tenant_id` refuses only
-- where the landlord is known.
unfoldable pub readable_booking : AuthUser → Booking → Option ℕ → Bool
unfolding is_cross_tenant_reader
readable_booking user b landlord =
    if is_cross_tenant_reader user.role
    then true
    else if is_role user.role manager
        || is_role user.role client_admin
        || is_role user.role receptionist
    then or_else landlord user.tenant_id == user.tenant_id
    else if not (b.tenant_id == user.tenant_id)
    then false
    else not (is_role user.role tenant_employee && not (b.user_id == user.id))

module _ ⦃P : Prisma⦄ where
  open P use {count}

  unfoldable pub assert_building_readable : AuthUser → ℕ → Action Building
  unfolding readable_place building_owner bookable_in_building
  assert_building_readable user building_id = do
    building ← reads_or not_found (find_building building_id)
    bookable ← reads (bookable_in_building building_id)
    throw_if (not (readable_place user bookable (some building.tenant_id))) forbidden
    pure building

  unfoldable pub assert_floor_readable : AuthUser → ℕ → Action Floor
  unfolding readable_place building_owner bookable_on_floor
  assert_floor_readable user floor_id = do
    floor ← reads_or not_found (find_floor floor_id)
    bookable ← reads (bookable_on_floor floor_id)
    owner ← reads (building_owner floor.building_id)
    throw_if (not (readable_place user bookable owner)) forbidden
    pure floor

  unfoldable pub assert_floor_mutable : AuthUser → ℕ → Action Floor
  unfolding mutable_place building_owner
  assert_floor_mutable user floor_id = do
    floor ← reads_or not_found (find_floor floor_id)
    owner ← reads (building_owner floor.building_id)
    throw_if (not (mutable_place user owner)) forbidden
    pure floor

  unfoldable pub assert_space_mutable : AuthUser → ℕ → Action Space
  unfolding mutable_place floor_owner building_owner
  assert_space_mutable user space_id = do
    space ← reads_or not_found (find_space space_id)
    owner ← reads (floor_owner space.floor_id)
    throw_if (not (mutable_place user owner)) forbidden
    pure space

  unfoldable pub assert_booking_readable : AuthUser → ℕ → Action Booking
  unfolding readable_booking space_owner floor_owner building_owner
  assert_booking_readable user booking_id = do
    b ← reads_or not_found (find_booking booking_id)
    landlord ← reads (space_owner b.space_id)
    throw_if (not (readable_booking user b landlord)) forbidden
    pure b

  unfoldable pub building_where_for_list : AuthUser → Option ℕ → Result (Db → Building → Bool)
  unfolding is_cross_tenant_reader is_portal_booker bookable_in_building
  building_where_for_list user tenant_id =
      if is_cross_tenant_reader user.role
      then ok (λ s b. or_else tenant_id b.tenant_id == b.tenant_id)
      else if is_portal_booker user.role
      then if is_some tenant_id
        then throw forbidden
        else ok (λ s b. ltb 0 (bookable_in_building b.id s))
      else if is_some tenant_id && not (holds_id tenant_id user.tenant_id)
      then throw forbidden
      else ok (λ s b. b.tenant_id == user.tenant_id)

  unfoldable pub floor_where_for_list : AuthUser → Option ℕ → Db → Floor → Bool
  unfolding is_cross_tenant_reader is_portal_booker bookable_on_floor building_owner
  floor_where_for_list user building_id s f =
      if is_cross_tenant_reader user.role
      then or_else building_id f.building_id == f.building_id
      else if is_portal_booker user.role
      then if is_some building_id
        then holds_id building_id f.building_id
        else ltb 0 (bookable_on_floor f.id s)
      else or_else building_id f.building_id == f.building_id
        && holds_id (building_owner f.building_id s) user.tenant_id

  -- `base`: the filters that the request names.
  space_base : Option ℕ → Option String → Option SpaceStatus → Space → Bool
  space_base floor_id type status x =
      or_else floor_id x.floor_id == x.floor_id
      && str_eq (or_else type x.space_type) x.space_type
      && is_space_status (or_else status x.status) x.status

  unfoldable pub space_where_for_list :
      AuthUser → Option ℕ → Option String → Option SpaceStatus → Db → Space → Bool
  unfolding is_cross_tenant_reader is_portal_booker is_client_operator space_base floor_owner
      building_owner
  space_where_for_list user floor_id type status s x =
      let base = space_base floor_id type status x in
      let own = holds_id (floor_owner x.floor_id s) user.tenant_id in
      if is_cross_tenant_reader user.role
      then base
      else if is_portal_booker user.role
      then space_base floor_id type (some available) x && own
      else if is_client_operator user.role
          || is_role user.role maintenance
          || is_role user.role receptionist
      then base && own
      else base
