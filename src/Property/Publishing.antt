-- ===== src/Property/Publishing.antt =====
-- backend/src/space/space.service.ts: what a space on the public map has, and what becomes of a space
-- whose add-ons are refused.
use Prim.Native.String
use pfe.Base.{
  ℕ, ◌≡◌, ◌≢◌, refl, sym, ◌∙◌, ◌⊎◌, inl, inr, Bool, true, false, not, ◌&&◌, ◌||◌, Option, none,
  some, String, List, arith, ◌==◌, is_some, holds_id, decimal, or_else, nonempty, first_of_texts,
  Option-cases, All, All-append, All-select, All-changed, modify-All_found, Pairwise, All-map,
  find-none, find_of_All, leb, find,
}
use pfe.Prisma.{Prisma}
use pfe.Service.{ok, Call, final}
use pfe.Roles.{AuthUser, client_admin}
use pfe.Schema.{Db, Floor, Space, Booking, SpaceStatus, BookingStatus, is_booking, find_space}
use pfe.Access.{assert_floor_readable, assert_space_mutable, is_client_operator}
use pfe.Booking.Rules.{is_conflict, is_dead, check_availability}
use pfe.Property.Slugs.{to_slug}
use pfe.Property.Slugs.Unique.{unique_slug-free}
use pfe.Property.Spaces

-- A space is off the map, or has an address, a city, a country and a place on the map.
abbrev pub IsPublishable : Space → Type 0
IsPublishable x =
    Spaces.is_publishable x.is_published x.map_lat x.map_lng x.address x.city x.country ≡ true

-- A field that an update does not set to `null`.
abbrev pub IsKept : {A : Type 0} → Spaces.Patch A → Type 0
IsKept Spaces.null = ⊥
IsKept _ = Unit

abbrev pub KeepsPlace : Spaces.UpdateSpaceDto → Type 0
KeepsPlace dto =
    IsKept dto.address
    × IsKept dto.city
    × IsKept dto.country
    × IsKept dto.map_lat
    × IsKept dto.map_lng

patched-coalesced :
    {A : Type 0} (p : Spaces.Patch A) (o : Option A)
    → IsKept p
    → Spaces.patched p o ≡ Spaces.coalesced p o
patched-coalesced Spaces.absent o k = refl
patched-coalesced Spaces.null o k = elim k [ ]
patched-coalesced (Spaces.given a) o k = refl

updated_space-IsPublishable :
    (dto : Spaces.UpdateSpaceDto) (slug : String) (x : Space)
    → KeepsPlace dto
    → Spaces.is_update_publishable dto x ≡ true
    → IsPublishable (Spaces.updated_space dto slug x)
unfolding Spaces.updated_space Spaces.is_update_publishable
updated_space-IsPublishable dto slug x (address, city, country, lat, lng) tested =
    rw
      (
        patched-coalesced dto.address x.address address,
        patched-coalesced dto.city x.city city,
        patched-coalesced dto.country x.country country,
        patched-coalesced dto.map_lat x.map_lat lat,
        patched-coalesced dto.map_lng x.map_lng lng,
      )
      tested

-- What is done to the spaces.
pub data Edit : Type 0 where
  creating : Call → Spaces.CreateSpaceDto → Edit
  updating : Call → ℕ → Spaces.UpdateSpaceDto → Edit
  removing : ℕ → Edit
  restating : ℕ → SpaceStatus → Edit

-- No field of the place is set to `null`.
abbrev pub IsWhole : Edit → Type 0
IsWhole (updating call id dto) = KeepsPlace dto
IsWhole _ = Unit

-- The test of `isAvailable`, which refuses more than the test of a booking's check.
abbrev is_met : ℕ → ℕ → ℕ → Booking → Bool
is_met space_id start finish b =
    b.space_id == space_id
    && not
        (is_booking b.status BookingStatus.cancelled || is_booking b.status BookingStatus.no_show)
    && leb b.start_time finish
    && leb start b.end_time

is_met-is_conflict :
    (space_id start finish : ℕ) (b : Booking)
    → is_met space_id start finish b ≡ false
    → is_conflict space_id start finish none b ≡ false
unfolding is_conflict is_dead
is_met-is_conflict space_id start finish b h = ground arith

is_some-none : {A : Type 0} (o : Option A) → is_some o ≡ false → o ≡ none
is_some-none o h = ground arith

module _ ⦃P : Prisma⦄ where
  open P use {rows, create, update, delete}

  unfoldable pub edit : AuthUser → Edit → Db → Db
  edit user (creating call dto) s = final (Spaces.create_space call user dto s)
  edit user (updating call id dto) s = final (Spaces.update_space_for_user call user id dto s)
  edit user (removing id) s = final (Spaces.remove_space user id s)
  edit user (restating id status) s = final (Spaces.update_status id status s)

  pub sync_addons-spaces :
      (space_id floor_id : ℕ) (ids : Option (List ℕ)) (s : Db)
      → (final (Spaces.sync_addons space_id floor_id ids s)).spaces ≡ s.spaces
  unfolding Spaces.sync_addons Spaces.link_addons
  sync_addons-spaces space_id floor_id ids s = ground arith

  pub sync_features-spaces :
      (space_id : ℕ) (features : Option (List Spaces.SpaceFeatureInput)) (s : Db)
      → (Spaces.sync_features space_id features s).spaces ≡ s.spaces
  unfolding Spaces.sync_features
  sync_features-spaces space_id features s = ground arith

  -- A slug is found, and finding it writes nothing.
  unique_space_slug-found :
      (call : Call) (seed : String) (exclude : Option ℕ) (s : Db)
      → (slug : String) × (Spaces.unique_space_slug call seed exclude s ≡ (ok slug, s))
  unfolding Spaces.unique_space_slug
  unique_space_slug-found call seed exclude s =
      let (slug, found, free) =
        unique_slug-free (λ (x : Space). x.slug) (λ x. not (holds_id exclude x.id))
          (to_slug 70 (String.◌++◌ "space-" (decimal call.now)) seed) s.spaces in
      (slug, rw found refl)

  create_space-writes :
      (call : Call) (user : AuthUser) (dto : Spaces.CreateSpaceDto) (s : Db)
      → ((final (Spaces.create_space call user dto s)).spaces ≡ s.spaces)
        ⊎ ((slug : String) × IsPublishable (Spaces.new_space call slug dto)
            × ((final (Spaces.create_space call user dto s)).spaces
                ≡ create (Spaces.new_space call slug dto) s.spaces))
  unfolding Spaces.create_space Spaces.new_space assert_floor_readable
  create_space-writes call user dto s =
      let seed = or_else (first_of_texts (nonempty dto.slug) (nonempty dto.code)) dto.name in
      let (slug, found) = unique_space_slug-found call seed none s in
      let space = Spaces.new_space call slug dto in
      let s₁ = record s { spaces = create space s.spaces } in
      let s₂ = Spaces.sync_features space.id dto.features s₁ in
      let written : ((final (Spaces.create_space call user dto s)).spaces ≡ s.spaces)
          ⊎ (IsPublishable space
              × ((final (Spaces.create_space call user dto s)).spaces ≡ create space s.spaces)) =
        ground (
          arith,
          found,
          sync_features-spaces space.id dto.features s₁,
          sync_addons-spaces space.id dto.floor_id dto.addon_service_ids s₂,
        ) in
      elim written [ inl same ↦ inl same | inr (p, e) ↦ inr (slug, p, e) ]

  next_space_slug-found :
      (call : Call) (id : ℕ) (seed : Option String) (current : String) (s : Db)
      → (slug : String) × (Spaces.next_space_slug call id seed current s ≡ (ok slug, s))
  unfolding Spaces.next_space_slug
  next_space_slug-found call id none current s = (current, refl)
  next_space_slug-found call id (some seed) current s =
      unique_space_slug-found call seed (some id) s

  write_space_update-spaces :
      (call : Call) (id : ℕ) (dto : Spaces.UpdateSpaceDto) (s : Db) (x : Space)
      → (slug : String) × ((final (Spaces.write_space_update call id dto x s)).spaces
          ≡ update (λ r. r.id == id) (Spaces.updated_space dto slug) s.spaces)
  unfolding Spaces.write_space_update
  write_space_update-spaces call id dto s x =
      let (slug, next) = next_space_slug-found call id (Spaces.update_seed dto) x.slug s in
      let s₁ = record s {
        spaces = update (λ r. r.id == id) (Spaces.updated_space dto slug) s.spaces;
      } in
      let s₂ = Spaces.sync_features id dto.features s₁ in
      (
        slug,
        ground (
          arith,
          next,
          sync_features-spaces id dto.features s₁,
          sync_addons-spaces id (or_else dto.floor_id x.floor_id) dto.addon_service_ids s₂,
        ),
      )

  -- An update leaves the spaces as they were, or it passes the test and writes the change.
  update_space-tested :
      (call : Call) (user : AuthUser) (id : ℕ) (dto : Spaces.UpdateSpaceDto) (s : Db) (x : Space)
      → find_space id s ≡ some x
      → (slug : String) × (((final (Spaces.update_space_for_user call user id dto s)).spaces
            ≡ s.spaces)
          ⊎ ((Spaces.is_update_publishable dto x ≡ true)
              × ((final (Spaces.update_space_for_user call user id dto s)).spaces
                  ≡ update (λ r. r.id == id) (Spaces.updated_space dto slug) s.spaces)))
  unfolding Spaces.update_space_for_user assert_space_mutable
  update_space-tested call user id dto s x found =
      let (slug, written) = write_space_update-spaces call id dto s x in
      (slug, ground (arith, written))

  update_space-missing :
      (call : Call) (user : AuthUser) (id : ℕ) (dto : Spaces.UpdateSpaceDto) (s : Db)
      → find_space id s ≡ none
      → (final (Spaces.update_space_for_user call user id dto s)).spaces ≡ s.spaces
  unfolding Spaces.update_space_for_user assert_space_mutable
  update_space-missing call user id dto s missing = ground arith

  -- However spaces are made, changed, restated and removed, every space on the public map has an
  -- address, a city, a country, a latitude and a longitude, if each had before and no change sets one
  -- of them to `null`. The ids must be distinct.
  pub edit-IsPublishable :
      (user : AuthUser) (e : Edit) (s : Db)
      → IsWhole e
      → Pairwise (λ (a c : Space). a.id ≢ c.id) (rows s.spaces)
      → All IsPublishable (rows s.spaces)
      → All IsPublishable (rows (edit user e s).spaces)
  unfolding edit Spaces.remove_space Spaces.update_status assert_space_mutable
  edit-IsPublishable user (creating call dto) s whole distinct all =
      elim (create_space-writes call user dto s) [
        | inl same ↦ rw same all
        | inr (slug, p, e) ↦
            rw (e, P.rows-create) (All-append IsPublishable (rows s.spaces) _ all (p, tt))
      ]
  edit-IsPublishable user (updating call id dto) s whole distinct all =
      elim (Option-cases (find_space id s)) [
        | inl missing ↦ rw (update_space-missing call user id dto s missing) all
        | inr (x, found) ↦
            let (slug, written) = update_space-tested call user id dto s x found in
            elim written [
              | inl same ↦ rw same all
              | inr (p, e) ↦
                  rw (e, P.rows-update)
                    (modify-All_found (λ (r : Space). r.id) (Spaces.updated_space dto slug)
                      IsPublishable id (rows s.spaces) x distinct
                      (sym (P.find_first-rows _ _) ∙ found)
                      (updated_space-IsPublishable dto slug x whole p) all)
            ]
      ]
  edit-IsPublishable user (removing id) s whole distinct all =
      let after = final (Spaces.remove_space user id s) in
      let written : (after.spaces ≡ s.spaces) ⊎ (after.spaces ≡ delete (λ x. x.id == id) s.spaces) =
        ground arith in
      elim written [
        | inl same ↦ rw same all
        | inr e ↦
            rw (e, P.rows-delete)
              (All-select IsPublishable (λ x. not (x.id == id)) (rows s.spaces) all)
      ]
  edit-IsPublishable user (restating id status) s whole distinct all =
      let after = final (Spaces.update_status id status s) in
      let written : (after.spaces ≡ s.spaces)
          ⊎ (after.spaces ≡ update (λ x. x.id == id) (λ x. record x { status = status }) s.spaces) =
        ground arith in
      elim written [
        | inl same ↦ rw same all
        | inr e ↦
            rw (e, P.rows-update)
              (All-changed (λ x. x.id == id) (λ x. record x { status = status }) (λ x h p. p)
                (λ x h p. p) (rows s.spaces) all)
      ]

  -- Once a client's administrator may read the floor and the fields of the place pass, the space is
  -- stored, also where the add-ons asked for are then refused.
  pub create_space-stores :
      (call : Call) (user : AuthUser) (dto : Spaces.CreateSpaceDto) (s : Db) (floor : Floor)
      → user.role ≡ client_admin
      → assert_floor_readable user dto.floor_id s ≡ (ok floor, s)
      → Spaces.is_publishable
          (or_else dto.is_published false)
          dto.map_lat
          dto.map_lng
          dto.address
          dto.city
          dto.country
        ≡ true
      → (slug : String) × ((final (Spaces.create_space call user dto s)).spaces
          ≡ create (Spaces.new_space call slug dto) s.spaces)
  unfolding Spaces.create_space Spaces.new_space is_client_operator
  create_space-stores call user dto s floor admin readable passes =
      let seed = or_else (first_of_texts (nonempty dto.slug) (nonempty dto.code)) dto.name in
      let (slug, found) = unique_space_slug-found call seed none s in
      let space = Spaces.new_space call slug dto in
      let s₁ = record s { spaces = create space s.spaces } in
      let s₂ = Spaces.sync_features space.id dto.features s₁ in
      (
        slug,
        ground (
          arith,
          found,
          sync_features-spaces space.id dto.features s₁,
          sync_addons-spaces space.id dto.floor_id dto.addon_service_ids s₂,
        ),
      )

  -- A time that `isAvailable` calls free is one that a booking's check lets through.
  pub is_available-check_availability :
      (space_id start finish : ℕ) (s : Db)
      → Spaces.is_available space_id start finish s ≡ true
      → check_availability space_id start finish none s ≡ (ok tt, s)
  unfolding Spaces.is_available Spaces.is_busy check_availability
  is_available-check_availability space_id start finish s free =
      let none_met : find (is_met space_id start finish) (rows s.bookings) ≡ none =
        sym (P.find_first-rows _ _) ∙ is_some-none _ (ground arith) in
      let none_barred : P.find_first (is_conflict space_id start finish none) s.bookings ≡ none =
        P.find_first-rows _ _
        ∙ find_of_All (is_conflict space_id start finish none) (rows s.bookings) (
            All-map (λ b h. is_met-is_conflict space_id start finish b h) (rows s.bookings)
              (find-none (is_met space_id start finish) (rows s.bookings) none_met)) in
      rw none_barred refl
