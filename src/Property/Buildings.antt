-- ===== src/Property/Buildings.antt =====
-- backend/src/building/building.service.ts: BuildingService.
use Prim.Native.String
use pfe.Base.{
  ℕ, Bool, not, ◌&&◌, ◌||◌, Option, none, some, List, [], ◌∷◌, String, map, ◌==◌, ltb, holds_id,
  or_else, nonempty, first_of_texts, decimal, is_empty, if◌then◌else◌,
}
use pfe.Prisma.{Prisma}
use pfe.Service.{
  Result, not_found, internal_error, pure, reads, or_throw, throw_if, writes, Call, ◌>>=◌, ◌>>◌,
}
use pfe.Roles.{AuthUser, is_role, super_admin, finance}
use pfe.Schema.{Db, Action, Building, Floor}
use pfe.Access.{assert_building_readable, building_where_for_list}
use pfe.Property.Slugs.{to_slug, unique_slug}
use pfe.Property.Cascade.{cascade_delete_spaces_for_floors}

-- CreateBuildingDto
pub record CreateBuildingDto : Type 0 where
  pub tenant_id : Option ℕ
  pub name : String
  pub code : String
  pub address : Option String
  pub total_floors_in_building : Option ℕ
  pub floors_count : Option ℕ
  pub year_built : Option ℕ
  pub status : Option String

-- UpdateBuildingDto, by the fields that `updateForUser` reads.
pub record UpdateBuildingDto : Type 0 where
  pub name : Option String
  pub code : Option String
  pub address : Option String
  pub total_floors_in_building : Option ℕ
  pub floors_count : Option ℕ
  pub year_built : Option ℕ
  pub status : Option String

-- A number of floors, where it is positive.
abbrev positive : Option ℕ → Option ℕ
positive none = none
positive (some n) = if ltb 0 n then some n else none

abbrev first_number : Option ℕ → Option ℕ → Option ℕ
first_number none b = b
first_number (some a) b = some a

-- `resolveTotalFloorsInBuilding`
unfoldable pub resolve_total_floors : CreateBuildingDto → Option ℕ
resolve_total_floors dto = positive (first_number dto.total_floors_in_building dto.floors_count)

-- The row that `createForUser` stores.
unfoldable pub new_building : Call → ℕ → String → CreateBuildingDto → Building
unfolding resolve_total_floors
new_building call tenant_id slug dto = record {
  id = call.uuid 0;
  tenant_id = tenant_id;
  name = dto.name;
  slug = slug;
  address = dto.address;
  total_floors_in_building = resolve_total_floors dto;
  year_built = dto.year_built;
  status = or_else dto.status "ACTIVE";
}

-- The number of floors after an update: the count is taken where no total is given, and a count of
-- none is kept as missing.
unfoldable pub updated_total : UpdateBuildingDto → Option ℕ → Option ℕ
updated_total dto current = elim dto.total_floors_in_building [
  | some n ↦ some n
  | none ↦ elim dto.floors_count [ none ↦ current | some n ↦ positive (some n) ]
]

-- The change that `updateForUser` writes.
unfoldable pub updated_building : UpdateBuildingDto → String → Building → Building
unfolding updated_total
updated_building dto slug b = record b {
  name = or_else dto.name b.name;
  slug = slug;
  address = first_of_texts dto.address b.address;
  total_floors_in_building = updated_total dto b.total_floors_in_building;
  year_built = first_number dto.year_built b.year_built;
  status = or_else dto.status b.status;
}

-- `building-${Date.now()}`
unfoldable pub building_fallback : Call → String
building_fallback call = String.◌++◌ "building-" (decimal call.now)

module _ ⦃P : Prisma⦄ where
  open P use {find_many, create, update, delete}

  -- `buildUniqueSlug`, among the buildings but the excluded one.
  unfoldable pub unique_building_slug : Call → String → Option ℕ → Action String
  unfolding building_fallback to_slug unique_slug
  unique_building_slug call seed exclude s =
      or_throw internal_error
        (unique_slug (λ (b : Building). b.slug) (λ b. not (holds_id exclude b.id))
          (to_slug 60 (building_fallback call) seed) s.buildings)
        s

  -- BuildingService.createForUser
  unfoldable pub create_building : Call → AuthUser → CreateBuildingDto → Action Building
  create_building call user dto = do
    let tenant_id = or_else dto.tenant_id user.tenant_id
    throw_if
        (not (is_role user.role super_admin || is_role user.role finance)
          && not (tenant_id == user.tenant_id))
        not_found
    slug ← unique_building_slug call (if is_empty dto.code then dto.name else dto.code) none
    let building = new_building call tenant_id slug dto
    writes (λ s. record s { buildings = create building s.buildings })
    pure building

  unfoldable listed_buildings : Result (Db → Building → Bool) → Action (List Building)
  listed_buildings (Result.throw e) s = (Result.throw e, s)
  listed_buildings (Result.ok test) s = (Result.ok (find_many (test s) s.buildings), s)

  -- BuildingService.findAllForUser
  unfoldable pub find_all_buildings : AuthUser → Option ℕ → Action (List Building)
  unfolding listed_buildings
  find_all_buildings user tenant_id = listed_buildings (building_where_for_list user tenant_id)

  -- BuildingService.findOneForUser
  unfoldable pub find_one_building : AuthUser → ℕ → Action Building
  find_one_building user id = assert_building_readable user id

  -- The slug after an update: a new one where a code or a name is given.
  unfoldable pub next_building_slug : Call → ℕ → Option String → String → Action String
  next_building_slug call id none current = pure current
  next_building_slug call id (some seed) current = unique_building_slug call seed (some id)

  -- BuildingService.updateForUser
  unfoldable pub update_building : Call → AuthUser → ℕ → UpdateBuildingDto → Action (Unit {0})
  unfolding next_building_slug
  update_building call user id dto = do
    current ← find_one_building user id
    slug ←
        next_building_slug call id (first_of_texts (nonempty dto.code) (nonempty dto.name))
          current.slug
    writes (λ s. record s {
      buildings = update (λ b. b.id == id) (updated_building dto slug) s.buildings;
    })

  -- The floors of a building, and what stands on them.
  unfoldable pub delete_floors_of : ℕ → List ℕ → Db → Db
  delete_floors_of building_id [] s = s
  delete_floors_of building_id (id ∷ ids) s =
      let cleared = cascade_delete_spaces_for_floors (id ∷ ids) s in
      record cleared { floors = delete (λ f. f.building_id == building_id) cleared.floors }

  -- BuildingService.removeForUser
  unfoldable pub remove_building : AuthUser → ℕ → Action (Unit {0})
  unfolding delete_floors_of
  remove_building user id = do
    building ← find_one_building user id
    floors ← reads (λ s. find_many (λ f. f.building_id == id) s.floors)
    writes (delete_floors_of id (map (λ (f : Floor). f.id) floors))
    writes (λ s. record s { buildings = delete (λ b. b.id == id) s.buildings })
