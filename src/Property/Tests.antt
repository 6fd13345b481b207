-- ===== src/Property/Tests.antt =====
-- backend/src/building, floor and space: examples.
use pfe.Base.{
  ℕ, ◌≡◌, ◌≢◌, ◌⊎◌, refl, true, false, Option, none, some, String, List, [], ◌∷◌, All, str_eq, any,
  is_empty, decimal, trim, trimmed,
}
use pfe.Memory.{memory}
use pfe.Service.{ok, final}
use pfe.Schema.{Db, Building}
use pfe.Sample.{landlord, call_at, sample, office, ground_floor}
use pfe.Access.{assert_building_readable, assert_floor_readable}
use pfe.Property.Slugs.{to_slug, free_slug}
use pfe.Property.Slugs.Laws.{all_chars, is_slug_part, to_slug-is_slug}
use pfe.Property.Cascade.{cascade_delete_spaces_for_floors}
use pfe.Property.Buildings
use pfe.Property.Floors
use pfe.Property.Spaces
use pfe.Property.Naming
use pfe.Property.Naming.{HasUniqueSlugs, unique_building_slug-free, edit-HasUniqueSlugs}
use pfe.Property.Cleared.{IsLinked}
use pfe.Property.Orphans.{remove_floor-IsLinked, remove_building-IsLinked}
use pfe.Property.Publishing
use pfe.Property.Publishing.{
  IsPublishable, edit-IsPublishable, create_space-stores, is_available-check_availability,
}

slug_of_tower : to_slug 60 "building-0" "  The Tower, n° 3 " ≡ "the-tower-n-3"
unfolding to_slug trim
slug_of_tower = refl

to_slug-is_slug_example :
    (is_empty (to_slug 60 "building-0" "Tower!") ≡ false)
    × (all_chars is_slug_part (to_slug 60 "building-0" "Tower!") ≡ true)
to_slug-is_slug_example = to_slug-is_slug 60 "building-0" "Tower!" refl refl

-- Two buildings are called "tower" already.
abbrev towers : List String
towers = "tower" ∷ "tower-2" ∷ []

third : free_slug (λ s. any (λ x. str_eq x s) towers) "tower" 3 "tower" 2 ≡ some "tower-3"
unfolding free_slug decimal
third = refl

unique_building_slug-free_example :
    (slug : String) × (Buildings.unique_building_slug (call_at 0 900) "Tower" none sample
      ≡ (ok slug, sample))
    × All
        (λ (b : Building). (◌≡◌ {A = Option ℕ} none (some b.id)) ⊎ (b.slug ≢ slug))
        sample.buildings
unique_building_slug-free_example = unique_building_slug-free (call_at 0 900) "Tower" none sample

abbrev second_tower : Buildings.CreateBuildingDto
second_tower = record {
  tenant_id = none;
  name = "Tower";
  code = "";
  address = none;
  total_floors_in_building = none;
  floors_count = some 0;
  year_built = none;
  status = none;
}

edit-HasUniqueSlugs_example :
    HasUniqueSlugs (Naming.edit landlord (Naming.creating (call_at 0 900) second_tower) sample)
edit-HasUniqueSlugs_example =
    edit-HasUniqueSlugs landlord (Naming.creating (call_at 0 900) second_tower) sample (tt, tt)
      (tt, tt)

abbrev linked : IsLinked sample
linked = record {
  floors = (refl, tt);
  spaces = (refl, tt);
  bookings = (refl, tt);
  booking_addons = tt;
  applications = tt;
  tickets = tt;
  tenant_applications = tt;
  documents = tt;
  features = tt;
  services = tt;
  application_addons = tt;
}

remove_floor-IsLinked_example : IsLinked (final (Floors.remove_floor landlord 200 sample))
remove_floor-IsLinked_example = remove_floor-IsLinked landlord 200 sample linked

remove_building-IsLinked_example : IsLinked (final (Buildings.remove_building landlord 100 sample))
remove_building-IsLinked_example = remove_building-IsLinked landlord 100 sample linked

-- The removal of the building takes its office and the booking of it.
emptied :
    ((final (Buildings.remove_building landlord 100 sample)).spaces ≡ [])
    × ((final (Buildings.remove_building landlord 100 sample)).bookings ≡ [])
unfolding Buildings.remove_building Buildings.find_one_building assert_building_readable
    cascade_delete_spaces_for_floors
emptied = (refl, refl)

-- A space on the map, with an add-on that no one offers.
abbrev studio : Spaces.CreateSpaceDto
studio = record {
  floor_id = 200;
  name = "Studio";
  slug = none;
  code = none;
  space_type = "OFFICE";
  status = none;
  price_per_month = some 100;
  is_listed = none;
  requires_approval = none;
  is_published = some true;
  address = some "1 Main Street";
  city = some "Doha";
  country = some "Qatar";
  map_lat = some 25;
  map_lng = some 51;
  features = none;
  addon_service_ids = some (999 ∷ []);
}

at_start : All IsPublishable sample.spaces
unfolding Spaces.is_publishable trimmed trim
at_start = (refl, tt)

edit-IsPublishable_example :
    All IsPublishable
      (Publishing.edit landlord (Publishing.creating (call_at 0 900) studio) sample).spaces
edit-IsPublishable_example =
    edit-IsPublishable landlord (Publishing.creating (call_at 0 900) studio) sample tt (tt, tt)
      at_start

may_read : assert_floor_readable landlord 200 sample ≡ (ok ground_floor, sample)
unfolding assert_floor_readable
may_read = refl

passes :
    Spaces.is_publishable true
      (some 25)
      (some 51)
      (some "1 Main Street")
      (some "Doha")
      (some "Qatar")
    ≡ true
unfolding Spaces.is_publishable trimmed trim
passes = refl

create_space-stores_example :
    (slug : String) × ((final (Spaces.create_space (call_at 0 900) landlord studio sample)).spaces
      ≡ office ∷ Spaces.new_space (call_at 0 900) slug studio ∷ [])
create_space-stores_example =
    create_space-stores (call_at 0 900) landlord studio sample ground_floor refl may_read passes

abbrev vacant : Db
vacant = record sample { bookings = [] }

free : Spaces.is_available 300 0 100 vacant ≡ true
unfolding Spaces.is_available
free = refl
