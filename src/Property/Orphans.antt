-- ===== src/Property/Orphans.antt =====
-- backend/src/building/building.service.ts, floor/floor.service.ts and
-- common/utils/cascade-delete-spaces.util.ts: the removal of a building or a floor leaves no row that
-- refers to what went.
use pfe.Base.{
  ℕ, ◌≡◌, refl, sym, ap, ◌∙◌, subst, ◌⊎◌, inl, inr, Bool, true, false, not, ◌||◌, Option, none,
  some, List, [], ◌∷◌, map, arith, ◌==◌, select, select_of_All, modify, All, All-map, All-select,
  is_in, is_in_some, has, has_some, keys_of-All, has-select, All-always, All-zip, All-kept,
  All-changed,
}
use pfe.Prisma.{Prisma}
use pfe.Service.{final}
use pfe.Roles.{AuthUser}
use pfe.Schema.{
  Db, Building, Floor, Space, Booking, BookingAddOn, BookingApplication, MaintenanceTicket,
  TenantApplication, BookingDocument, SpaceFeature, SpaceAddOnService, BookingApplicationAddOn,
}
use pfe.Access.{assert_building_readable, assert_floor_readable}
use pfe.Property.Cascade
use pfe.Property.Buildings
use pfe.Property.Floors
use pfe.Property.Cleared.{
  IsLinked, IsCleared, applications_of, bookings_of, spaces_on, without_booking, without_space,
  without_place, cascade-IsCleared,
}

module _ ⦃P : Prisma⦄ where
  open P use {Table, rows, find_many, delete}

  -- The places and bookings that stay, as lists.
  module _ (floor_ids : List ℕ) (gone : Floor → Bool) (s : Db) (linked : IsLinked s)
      (named : All
        (λ f. (not (gone f) ≡ true) ⊎ (is_in floor_ids f.id ≡ true))
        (rows s.floors)) where
    cleared_ids : List ℕ
    cleared_ids = spaces_on floor_ids s

    cleared_bookings : List ℕ
    cleared_bookings = bookings_of cleared_ids s

    kept_floors : List Floor
    kept_floors = select (λ f. not (gone f)) (rows s.floors)

    kept_spaces : List Space
    kept_spaces = select (λ x. not (is_in cleared_ids x.id)) (rows s.spaces)

    kept_bookings : List Booking
    kept_bookings = select (λ b. not (is_in cleared_bookings b.id)) (rows s.bookings)

    kept_spaces-has :
        (i : ℕ)
        → is_in cleared_ids i ≡ false
        → has (λ (x : Space). x.id) (rows s.spaces) i ≡ true
        → has (λ (x : Space). x.id) kept_spaces i ≡ true
    unfolding kept_spaces
    kept_spaces-has i out there =
        has-select (λ (x : Space). x.id) (λ x. not (is_in cleared_ids x.id)) cleared_ids i
          (rows s.spaces) (All-always (λ x. ground arith) (rows s.spaces)) out there

    kept_bookings-has :
        (i : ℕ)
        → is_in cleared_bookings i ≡ false
        → has (λ (b : Booking). b.id) (rows s.bookings) i ≡ true
        → has (λ (b : Booking). b.id) kept_bookings i ≡ true
    unfolding kept_bookings
    kept_bookings-has i out there =
        has-select (λ (b : Booking). b.id) (λ b. not (is_in cleared_bookings b.id)) cleared_bookings
          i (rows s.bookings) (All-always (λ b. ground arith) (rows s.bookings)) out there

    spaces_linked : All (λ x. has (λ (f : Floor). f.id) kept_floors x.floor_id ≡ true) kept_spaces
    unfolding kept_floors kept_spaces cleared_ids
    spaces_linked =
        All-kept (λ x. not (is_in cleared_ids x.id))
          (λ x stays (there, on).
            has-select (λ (f : Floor). f.id) (λ f. not (gone f)) floor_ids x.floor_id
              (rows s.floors) named (ground arith) there)
          (rows s.spaces)
          (All-zip _ _ (rows s.spaces) linked.spaces
            (keys_of-All (λ (x : Space). x.id) (λ x. is_in floor_ids x.floor_id) (rows s.spaces)))

    bookings_linked :
        All (λ b. has (λ (x : Space). x.id) kept_spaces b.space_id ≡ true) kept_bookings
    unfolding kept_bookings cleared_bookings
    bookings_linked =
        All-kept (λ b. not (is_in cleared_bookings b.id))
          (λ b stays (there, on). kept_spaces-has b.space_id (ground arith) there) (rows s.bookings)
          (All-zip _ _ (rows s.bookings) linked.bookings (
            keys_of-All (λ (b : Booking). b.id) (λ b. is_in cleared_ids b.space_id)
              (rows s.bookings)))

    addons_linked :
        All
          (λ (a : BookingAddOn). has (λ (b : Booking). b.id) kept_bookings a.booking_id ≡ true)
          (select (λ a. not (is_in cleared_bookings a.booking_id)) (rows s.booking_addons))
    addons_linked =
        All-kept (λ a. not (is_in cleared_bookings a.booking_id))
          (λ a stays there. kept_bookings-has a.booking_id (ground arith) there)
          (rows s.booking_addons) linked.booking_addons

    kept_bookings-has_some :
        (o : Option ℕ)
        → is_in_some cleared_bookings o ≡ false
        → has_some (λ (b : Booking). b.id) (rows s.bookings) o ≡ true
        → has_some (λ (b : Booking). b.id) kept_bookings o ≡ true
    kept_bookings-has_some none out there = refl
    kept_bookings-has_some (some i) out there = kept_bookings-has i out there

    kept_spaces-has_some :
        (o : Option ℕ)
        → is_in_some cleared_ids o ≡ false
        → has_some (λ (x : Space). x.id) (rows s.spaces) o ≡ true
        → has_some (λ (x : Space). x.id) kept_spaces o ≡ true
    kept_spaces-has_some none out there = refl
    kept_spaces-has_some (some i) out there = kept_spaces-has i out there

    applications_linked :
        All
          (λ (a : BookingApplication).
            (has (λ (x : Space). x.id) kept_spaces a.space_id ≡ true)
            × (has_some (λ (b : Booking). b.id) kept_bookings a.booking_id ≡ true))
          (select
            (λ a. not (is_in cleared_ids a.space_id || is_in_some cleared_bookings a.booking_id))
            (rows s.booking_applications))
    applications_linked =
        All-kept
          (λ a. not (is_in cleared_ids a.space_id || is_in_some cleared_bookings a.booking_id))
          (λ a stays (place, booked). (
            kept_spaces-has a.space_id (ground arith) place,
            kept_bookings-has_some a.booking_id (ground arith) booked,
          ))
          (rows s.booking_applications) linked.applications

    tickets_linked :
        All
          (λ (t : MaintenanceTicket).
            (has_some (λ (x : Space). x.id) kept_spaces t.space_id ≡ true)
            × (has_some (λ (b : Booking). b.id) kept_bookings t.booking_id ≡ true))
          (modify
            (λ t. is_in_some cleared_ids t.space_id)
            without_space
            (modify
              (λ t. is_in_some cleared_bookings t.booking_id)
              without_booking
              (rows s.maintenance_tickets)))
    tickets_linked =
        All-changed (λ t. is_in_some cleared_ids t.space_id) without_space
          (λ t out (place, booked). (refl, booked))
          (λ t out (place, booked). (kept_spaces-has_some t.space_id out place, booked)) _
          (All-changed (λ t. is_in_some cleared_bookings t.booking_id) without_booking
            {Y = λ (t : MaintenanceTicket).
              (has_some (λ (x : Space). x.id) (rows s.spaces) t.space_id ≡ true)
              × (has_some (λ (b : Booking). b.id) kept_bookings t.booking_id ≡ true)}
            (λ t out (place, booked). (place, refl))
            (λ t out (place, booked). (place, kept_bookings-has_some t.booking_id out booked))
            (rows s.maintenance_tickets) linked.tickets)

    tenant_applications_linked :
        All
          (λ (a : TenantApplication). has_some (λ (x : Space). x.id) kept_spaces a.space_id ≡ true)
          (modify
            (λ a. is_in_some cleared_ids a.space_id)
            without_place
            (rows s.tenant_applications))
    tenant_applications_linked =
        All-changed (λ a. is_in_some cleared_ids a.space_id) without_place (λ a out there. refl)
          (λ a out there. kept_spaces-has_some a.space_id out there) (rows s.tenant_applications)
          linked.tenant_applications

    documents_linked :
        All
          (λ (d : BookingDocument). has (λ (b : Booking). b.id) kept_bookings d.booking_id ≡ true)
          (select (λ d. not (is_in cleared_bookings d.booking_id)) (rows s.booking_documents))
    documents_linked =
        All-kept (λ d. not (is_in cleared_bookings d.booking_id))
          (λ d stays there. kept_bookings-has d.booking_id (ground arith) there)
          (rows s.booking_documents) linked.documents

    features_linked :
        All
          (λ (x : SpaceFeature). has (λ (y : Space). y.id) kept_spaces x.space_id ≡ true)
          (select (λ x. not (is_in cleared_ids x.space_id)) (rows s.space_features))
    features_linked =
        All-kept (λ x. not (is_in cleared_ids x.space_id))
          (λ x stays there. kept_spaces-has x.space_id (ground arith) there) (rows s.space_features)
          linked.features

    services_linked :
        All
          (λ (x : SpaceAddOnService). has (λ (y : Space). y.id) kept_spaces x.space_id ≡ true)
          (select (λ x. not (is_in cleared_ids x.space_id)) (rows s.space_addons))
    services_linked =
        All-kept (λ x. not (is_in cleared_ids x.space_id))
          (λ x stays there. kept_spaces-has x.space_id (ground arith) there) (rows s.space_addons)
          linked.services

    cleared_applications : List ℕ
    cleared_applications = applications_of cleared_ids cleared_bookings s

    kept_applications : List BookingApplication
    kept_applications =
        select (λ a. not (is_in cleared_ids a.space_id || is_in_some cleared_bookings a.booking_id))
          (rows s.booking_applications)

    application_addons_linked :
        All
          (λ (a : BookingApplicationAddOn).
            has (λ (b : BookingApplication). b.id) kept_applications a.application_id ≡ true)
          (select
            (λ a. not (is_in cleared_applications a.application_id))
            (rows s.application_addons))
    unfolding cleared_applications kept_applications
    application_addons_linked =
        All-kept (λ a. not (is_in cleared_applications a.application_id))
          (λ a stays there.
            has-select (λ (b : BookingApplication). b.id)
              (λ b. not (is_in cleared_ids b.space_id || is_in_some cleared_bookings b.booking_id))
              cleared_applications a.application_id (rows s.booking_applications)
              (All-map (λ b r. ground arith) (rows s.booking_applications)
                (keys_of-All (λ (b : BookingApplication). b.id)
                  (λ b. is_in cleared_ids b.space_id || is_in_some cleared_bookings b.booking_id)
                  (rows s.booking_applications)))
              (ground arith) there)
          (rows s.application_addons) linked.application_addons

    -- The rows are linked still, if those of the floors that stay are linked to buildings.
    removed-IsLinked :
        (s' : Db)
        → IsCleared cleared_ids cleared_bookings s s'
        → (floors : _) → (buildings : _) → rows floors ≡ kept_floors
        → All
            (λ (f : Floor). has (λ (b : Building). b.id) (rows buildings) f.building_id ≡ true)
            kept_floors
        → IsLinked (record s' { floors = floors; buildings = buildings })
    unfolding kept_spaces kept_bookings kept_applications cleared_applications
    removed-IsLinked s' cleared floors buildings stay housed = record {
      floors = rw stay housed;
      spaces = rw (stay, cleared.spaces) spaces_linked;
      bookings = rw (cleared.spaces, cleared.bookings) bookings_linked;
      booking_addons = rw (cleared.bookings, cleared.booking_addons) addons_linked;
      applications =
          rw (cleared.spaces, cleared.bookings, cleared.applications) applications_linked;
      tickets = rw (cleared.spaces, cleared.bookings, cleared.tickets) tickets_linked;
      tenant_applications =
          rw (cleared.spaces, cleared.tenant_applications) tenant_applications_linked;
      documents = rw (cleared.bookings, cleared.documents) documents_linked;
      features = rw (cleared.spaces, cleared.features) features_linked;
      services = rw (cleared.spaces, cleared.services) services_linked;
      application_addons =
          rw (cleared.applications, cleared.application_addons) application_addons_linked;
    }

  -- A floor stands in a building that is there.
  abbrev IsHoused : Db → Floor → Type 0
  IsHoused s f = has (λ (b : Building). b.id) (rows s.buildings) f.building_id ≡ true

  -- The removal of a floor leaves every row that refers to a building, a floor, a space, a booking or
  -- an application with one to refer to, whoever asks and however it ends, if that was so before.
  pub remove_floor-IsLinked :
      (user : AuthUser) (id : ℕ) (s : Db)
      → IsLinked s
      → IsLinked (final (Floors.remove_floor user id s))
  unfolding Floors.remove_floor Floors.find_one_floor assert_floor_readable kept_floors cleared_ids
      cleared_bookings
  remove_floor-IsLinked user id s linked =
      let after = final (Floors.remove_floor user id s) in
      let s' = Cascade.cascade_delete_spaces_for_floors (id ∷ []) s in
      let cleared = cascade-IsCleared (id ∷ []) s in
      let floors = delete (λ (f : Floor). f.id == id) s'.floors in
      let written : (after ≡ s) ⊎ (after ≡ record s' { floors = floors }) = ground arith in
      elim written [
        | inl same ↦ subst IsLinked (sym same) linked
        | inr e ↦ subst IsLinked (sym e) (
            removed-IsLinked (id ∷ []) (λ f. f.id == id) s linked
              (All-always (λ f. ground arith) (rows s.floors)) s' cleared floors s'.buildings
              (P.rows-delete _ _
                ∙ ap (λ t. select (λ (f : Floor). not (f.id == id)) (rows t)) cleared.floors)
              (rw cleared.buildings
                (All-select (IsHoused s) (λ f. not (f.id == id)) (rows s.floors) linked.floors)))
      ]

  -- The floors of a building go, and all their spaces were cleared.
  delete_floors_of-rows :
      (id : ℕ) (ids : List ℕ) (s : Db)
      → All (λ f. (not (f.building_id == id) ≡ true) ⊎ (is_in ids f.id ≡ true)) (rows s.floors)
      → (floors : Table Floor) × (Buildings.delete_floors_of id ids s
          ≡ record (Cascade.cascade_delete_spaces_for_floors ids s) { floors = floors })
        × (rows floors ≡ select (λ f. not (f.building_id == id)) (rows s.floors))
  unfolding Buildings.delete_floors_of Cascade.cascade_delete_spaces_for_floors
  delete_floors_of-rows id [] s named = (
    s.floors,
    refl,
    sym (
        select_of_All (λ f. not (f.building_id == id)) (rows s.floors)
          (All-map (λ f r. ground arith) (rows s.floors) named)),
  )
  delete_floors_of-rows id (i ∷ is) s named =
      let s' = Cascade.cascade_delete_spaces_for_floors (i ∷ is) s in
      (
        delete (λ f. f.building_id == id) s'.floors,
        refl,
        P.rows-delete _ _
            ∙ ap (λ t. select (λ (f : Floor). not (f.building_id == id)) (rows t))
                ((cascade-IsCleared (i ∷ is) s).floors),
      )

  -- The removal of a building leaves every row that refers to a building, a floor, a space, a booking
  -- or an application with one to refer to, whoever asks and however it ends, if that was so before.
  pub remove_building-IsLinked :
      (user : AuthUser) (id : ℕ) (s : Db)
      → IsLinked s
      → IsLinked (final (Buildings.remove_building user id s))
  unfolding Buildings.remove_building Buildings.find_one_building assert_building_readable
      kept_floors cleared_ids cleared_bookings
  remove_building-IsLinked user id s linked =
      let after = final (Buildings.remove_building user id s) in
      let found = find_many (λ (f : Floor). f.building_id == id) s.floors in
      let ids = map (λ (f : Floor). f.id) found in
      let named : All (λ f. (not (f.building_id == id) ≡ true) ⊎ (is_in ids f.id ≡ true))
          (rows s.floors) =
        rw (P.find_many-rows (λ (f : Floor). f.building_id == id) s.floors) (
          All-map (λ f r. ground arith) (rows s.floors)
            (keys_of-All (λ (f : Floor). f.id) (λ f. f.building_id == id) (rows s.floors))) in
      let s' = Cascade.cascade_delete_spaces_for_floors ids s in
      let cleared = cascade-IsCleared ids s in
      let (floors, gone, stay) = delete_floors_of-rows id ids s named in
      let buildings = delete (λ (b : Building). b.id == id) s'.buildings in
      let written : (after ≡ s) ⊎ (after ≡ record s' { floors = floors; buildings = buildings }) =
        ground (arith, gone) in
      elim written [
        | inl same ↦ subst IsLinked (sym same) linked
        | inr e ↦ subst IsLinked (sym e) (
            removed-IsLinked ids (λ f. f.building_id == id) s linked named s' cleared floors
              buildings stay
              (rw (P.rows-delete _ _, cleared.buildings)
                (All-kept (λ (f : Floor). not (f.building_id == id))
                  (λ f other housed.
                    has-select (λ (b : Building). b.id) (λ b. not (b.id == id)) (id ∷ [])
                      f.building_id (rows s.buildings)
                      (All-always (λ b. ground arith) (rows s.buildings)) (ground arith) housed)
                  (rows s.floors) linked.floors)))
      ]
