-- ===== src/Property/Floors.antt =====
-- backend/src/floor/floor.service.ts: FloorService.
use pfe.Base.{ℕ, not, ◌&&◌, Option, none, some, List, [], ◌∷◌, String, ◌==◌, is_some, or_else}
use pfe.Prisma.{Prisma}
use pfe.Service.{bad_request, internal_error, pure, reads, throw_if, writes, Call, ◌>>=◌, ◌>>◌}
use pfe.Roles.{AuthUser}
use pfe.Schema.{Db, Action, Building, Floor}
use pfe.Access.{assert_building_readable, assert_floor_readable, floor_where_for_list}
use pfe.Property.Cascade.{
  cascade_delete_spaces_for_floors, store_floor, ensure_floor, ensure_client_property_defaults,
}

-- CreateFloorDto
pub record CreateFloorDto : Type 0 where
  pub building_id : ℕ
  pub floor_number : ℕ
  pub name : String
  pub status : Option String

-- UpdateFloorDto
pub record UpdateFloorDto : Type 0 where
  pub building_id : Option ℕ
  pub floor_number : Option ℕ
  pub name : Option String
  pub status : Option String

unfoldable pub updated_floor : UpdateFloorDto → Floor → Floor
updated_floor dto f = record f {
  building_id = or_else dto.building_id f.building_id;
  floor_number = or_else dto.floor_number f.floor_number;
  name = or_else dto.name f.name;
  status = or_else dto.status f.status;
}

module _ ⦃P : Prisma⦄ where
  open P use {find_first, find_first_asc, find_many, create, update, delete}

  -- FloorService.createForUser
  unfoldable pub create_floor : Call → AuthUser → CreateFloorDto → Action Floor
  create_floor call user dto = do
    building ← assert_building_readable user dto.building_id
    duplicate ← reads (λ s.
        find_first (λ g. g.building_id == dto.building_id && g.floor_number == dto.floor_number)
          s.floors)
    throw_if (is_some duplicate) bad_request
    store_floor (record {
      id = call.uuid 0;
      building_id = dto.building_id;
      name = dto.name;
      floor_number = dto.floor_number;
      status = or_else dto.status "ACTIVE";
    })

  -- FloorService.findAllForUser
  unfoldable pub find_all_floors : AuthUser → Option ℕ → Db → List Floor
  find_all_floors user building_id s = find_many (floor_where_for_list user building_id s) s.floors

  -- FloorService.getPublishDefaultForUser
  unfoldable pub get_publish_default : Call → AuthUser → Action (Building × Floor)
  get_publish_default call user = ensure_client_property_defaults call user.tenant_id

  -- FloorService.ensureDefaultForBuilding: the lowest floor, or a new ground floor.
  unfoldable pub ensure_default_for_building : Call → AuthUser → ℕ → Action Floor
  ensure_default_for_building call user building_id = do
    building ← assert_building_readable user building_id
    existing ←
        reads
          (λ s. find_first_asc (λ f. f.floor_number) (λ f. f.building_id == building_id) s.floors)
    ensure_floor (call.uuid 0) building_id "Ground Floor" existing

  -- FloorService.findOneForUser
  unfoldable pub find_one_floor : AuthUser → ℕ → Action Floor
  find_one_floor user id = assert_floor_readable user id

  -- The building that a floor is to move to, where one is given.
  unfoldable pub check_new_building : AuthUser → Option ℕ → Action (Unit {0})
  check_new_building user none = pure tt
  check_new_building user (some building_id) = do
    building ← assert_building_readable user building_id
    pure tt

  -- The number that a floor is to have, where one is given.
  unfoldable pub check_new_number : ℕ → Floor → Option ℕ → Option ℕ → Action (Unit {0})
  check_new_number id current building_id none = pure tt
  check_new_number id current building_id (some floor_number) = do
    duplicate ← reads (λ s.
        find_first
          (λ g.
            g.building_id == or_else building_id current.building_id
            && g.floor_number == floor_number
            && not (g.id == id))
          s.floors)
    throw_if (is_some duplicate) bad_request

  -- A changed floor is stored unless the database's unique index refuses it.
  unfoldable pub restore_floor : ℕ → Floor → (Floor → Floor) → Action (Unit {0})
  restore_floor id f change = do
    clash ← reads (λ s.
        find_first
          (λ g.
            g.building_id == f.building_id && g.floor_number == f.floor_number && not (g.id == id))
          s.floors)
    throw_if (is_some clash) internal_error
    writes (λ s. record s { floors = update (λ g. g.id == id) change s.floors })

  -- FloorService.updateForUser
  unfoldable pub update_floor : AuthUser → ℕ → UpdateFloorDto → Action (Unit {0})
  unfolding check_new_building check_new_number restore_floor
  update_floor user id dto = do
    current ← assert_floor_readable user id
    _ ← check_new_building user dto.building_id
    _ ← check_new_number id current dto.building_id dto.floor_number
    restore_floor id (updated_floor dto current) (updated_floor dto)

  -- FloorService.removeForUser
  unfoldable pub remove_floor : AuthUser → ℕ → Action (Unit {0})
  remove_floor user id = do
    floor ← find_one_floor user id
    writes (cascade_delete_spaces_for_floors (id ∷ []))
    writes (λ s. record s { floors = delete (λ f. f.id == id) s.floors })
