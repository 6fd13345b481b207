-- ===== src/Property/Cascade.antt =====
-- backend/src/common/utils/cascade-delete-spaces.util.ts and ensure-client-property-defaults.util.ts.
use Prim.Native.String
use pfe.Base.{
  ℕ, ◌+◌, ◌^◌, ◌&&◌, ◌||◌, Option, none, some, List, [], ◌∷◌, String, str_eq, map, ◌==◌, is_in,
  is_in_some, is_some, decimal,
}
use pfe.Prisma.{Prisma}
use pfe.Service.{internal_error, pure, reads, throw_if, writes, Call, ◌>>=◌, ◌>>◌}
use pfe.Schema.{Db, Action, Building, Floor, Space, Booking, BookingApplication}

module _ ⦃P : Prisma⦄ where
  open P use {find_first, find_many, create, update, delete}

  -- The add-ons of the bookings go, and their tickets stay without them.
  unfoldable pub detach_bookings : List ℕ → Db → Db
  detach_bookings [] s = s
  detach_bookings (id ∷ ids) s = record s {
    booking_addons = delete (λ a. is_in (id ∷ ids) a.booking_id) s.booking_addons;
    maintenance_tickets =
        update (λ t. is_in_some (id ∷ ids) t.booking_id) (λ t. record t { booking_id = none })
          s.maintenance_tickets;
  }

  -- The database deletes the documents of a booking with it.
  unfoldable pub delete_bookings : List ℕ → Db → Db
  delete_bookings [] s = s
  delete_bookings (id ∷ ids) s = record s {
    bookings = delete (λ b. is_in (id ∷ ids) b.id) s.bookings;
    booking_documents = delete (λ d. is_in (id ∷ ids) d.booking_id) s.booking_documents;
  }

  -- The spaces go, and the bookings and applications with them; what else names them names none. The
  -- database deletes the add-ons of an application with it, and the features and services of a space.
  unfoldable pub clear_spaces : List ℕ → List ℕ → Db → Db
  clear_spaces space_ids booking_ids s =
      let detached = detach_bookings booking_ids s in
      let gone =
        map (λ (a : BookingApplication). a.id)
          (find_many (λ a. is_in space_ids a.space_id || is_in_some booking_ids a.booking_id)
            detached.booking_applications) in
      let applied = record detached {
        booking_applications =
            delete (λ a. is_in space_ids a.space_id || is_in_some booking_ids a.booking_id)
              detached.booking_applications;
        application_addons = delete (λ a. is_in gone a.application_id) detached.application_addons;
      } in
      let cleared = delete_bookings booking_ids applied in
      record cleared {
        maintenance_tickets =
            update (λ t. is_in_some space_ids t.space_id) (λ t. record t { space_id = none })
              cleared.maintenance_tickets;
        tenant_applications =
            update (λ a. is_in_some space_ids a.space_id) (λ a. record a { space_id = none })
              cleared.tenant_applications;
        spaces = delete (λ x. is_in space_ids x.id) cleared.spaces;
        space_features = delete (λ x. is_in space_ids x.space_id) cleared.space_features;
        space_addons = delete (λ x. is_in space_ids x.space_id) cleared.space_addons;
      }

  unfoldable pub delete_spaces : List ℕ → Db → Db
  unfolding clear_spaces detach_bookings delete_bookings
  delete_spaces [] s = s
  delete_spaces (id ∷ ids) s =
      clear_spaces (id ∷ ids)
        (map (λ (b : Booking). b.id) (find_many (λ b. is_in (id ∷ ids) b.space_id) s.bookings)) s

  -- `cascadeDeleteSpacesForFloors`
  unfoldable pub cascade_delete_spaces_for_floors : List ℕ → Db → Db
  unfolding delete_spaces
  cascade_delete_spaces_for_floors [] s = s
  cascade_delete_spaces_for_floors (id ∷ ids) s =
      delete_spaces
        (map (λ (x : Space). x.id) (find_many (λ x. is_in (id ∷ ids) x.floor_id) s.spaces)) s

  -- A floor is stored unless the database's unique index on the building and the number refuses it.
  unfoldable pub store_floor : Floor → Action Floor
  store_floor f = do
    clash ← reads (λ s.
        find_first (λ g. g.building_id == f.building_id && g.floor_number == f.floor_number)
          s.floors)
    throw_if (is_some clash) internal_error
    writes (λ s. record s { floors = create f s.floors })
    pure f

  -- The building with the portfolio's slug, made where it is missing. The index on slugs refuses one
  -- that is another organisation's.
  unfoldable ensure_portfolio : Call → ℕ → String → Option Building → Action Building
  ensure_portfolio call tenant_id slug (some b) = pure b
  ensure_portfolio call tenant_id slug none = do
    clash ← reads (λ s. find_first (λ b. str_eq b.slug slug) s.buildings)
    throw_if (is_some clash) internal_error
    let building : Building = record {
      id = call.uuid 0;
      tenant_id = tenant_id;
      name = "My Portfolio";
      slug = slug;
      address = none;
      total_floors_in_building = none;
      year_built = none;
      status = "ACTIVE";
    }
    writes (λ s. record s { buildings = create building s.buildings })
    pure building

  -- The floor with a name on a building, made where it is missing.
  unfoldable pub ensure_floor : ℕ → ℕ → String → Option Floor → Action Floor
  ensure_floor id building_id name (some f) = pure f
  ensure_floor id building_id name none = store_floor (record {
    id = id;
    building_id = building_id;
    name = name;
    floor_number = 2 ^ 31 + 1;
    status = "ACTIVE";
  })

  -- `ensureClientPropertyDefaults`, of which an id is printed as a number.
  unfoldable pub ensure_client_property_defaults : Call → ℕ → Action (Building × Floor)
  unfolding ensure_portfolio ensure_floor
  ensure_client_property_defaults call tenant_id = do
    let slug = String.◌++◌ "portfolio-" (decimal tenant_id)
    existing ←
        reads (λ s. find_first (λ b. b.tenant_id == tenant_id && str_eq b.slug slug) s.buildings)
    building ← ensure_portfolio call tenant_id slug existing
    default ←
        reads
          (λ s. find_first (λ f. f.building_id == building.id && str_eq f.name "Default") s.floors)
    floor ← ensure_floor (call.uuid 1) building.id "Default" default
    pure (building, floor)
