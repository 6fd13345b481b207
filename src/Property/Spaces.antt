-- ===== src/Property/Spaces.antt =====
-- backend/src/space/space.service.ts: SpaceService. The places of a space on a plan are left out, and
-- so is what the database removes along with a space.
use Prim.Native.String
use pfe.Base.{
  ℕ, Bool, false, not, ◌&&◌, ◌||◌, Option, none, some, List, [], ◌∷◌, String, map, ◌==◌, leb,
  holds_id, is_some, or_else, nonempty, trimmed, first_of_texts, decimal, is_in, length,
  if◌then◌else◌,
}
use pfe.Prisma.{Prisma}
use pfe.Service.{
  bad_request, not_found, forbidden, internal_error, pure, reads, reads_or, or_throw, throw_if,
  writes, Call, ◌>>=◌, ◌>>◌,
}
use pfe.Roles.{AuthUser, is_role, super_admin}
use pfe.Schema.{
  Db, Action, Space, SpaceFeature, SpaceAddOnService, AddOnService, SpaceStatus, available,
  is_space_status, BookingStatus, is_booking, find_space, find_service, floor_owner, space_owner,
}
use pfe.Access.{
  assert_floor_readable, assert_space_mutable, is_client_operator, space_where_for_list,
}
use pfe.Booking.Rules.{unique}
use pfe.Property.Slugs.{to_slug, unique_slug}

-- SpaceFeatureInputDto
pub record SpaceFeatureInput : Type 0 where
  pub name : String
  pub description : Option String

-- CreateSpaceDto
pub record CreateSpaceDto : Type 0 where
  pub floor_id : ℕ
  pub name : String
  pub slug : Option String
  pub code : Option String
  pub space_type : String
  pub status : Option SpaceStatus
  pub price_per_month : Option ℕ
  pub is_listed : Option Bool
  pub requires_approval : Option Bool
  pub is_published : Option Bool
  pub address : Option String
  pub city : Option String
  pub country : Option String
  pub map_lat : Option ℕ
  pub map_lng : Option ℕ
  pub features : Option (List SpaceFeatureInput)
  pub addon_service_ids : Option (List ℕ)

-- A field of an update: left out, `null`, which `@IsOptional` lets through, or a value.
pub data Patch (A : Type 0) : Type 0 where
  absent null : Patch A
  given : A → Patch A

module _ {A : Type 0} where
  -- `dto.x ?? current.x`
  abbrev pub coalesced : Patch A → Option A → Option A
  coalesced (given a) current = some a
  coalesced _ current = current

  -- What the column holds after `...(dto.x !== undefined ? { x: dto.x } : {})`.
  abbrev pub patched : Patch A → Option A → Option A
  patched absent current = current
  patched null current = none
  patched (given a) current = some a

-- UpdateSpaceDto
pub record UpdateSpaceDto : Type 0 where
  pub floor_id : Option ℕ
  pub name : Option String
  pub slug : Option String
  pub code : Option String
  pub space_type : Option String
  pub status : Option SpaceStatus
  pub price_per_month : Patch ℕ
  pub is_listed : Option Bool
  pub requires_approval : Option Bool
  pub is_published : Option Bool
  pub address : Patch String
  pub city : Patch String
  pub country : Patch String
  pub map_lat : Patch ℕ
  pub map_lng : Patch ℕ
  pub features : Option (List SpaceFeatureInput)
  pub addon_service_ids : Option (List ℕ)

-- The test of `assertPublishable`, on the fields that it reads.
unfoldable pub is_publishable :
    Bool → Option ℕ → Option ℕ → Option String → Option String → Option String → Bool
is_publishable published map_lat map_lng address city country =
    not published
    || is_some map_lat
      && is_some map_lng
      && is_some (trimmed address)
      && is_some (trimmed city)
      && is_some (trimmed country)

unfoldable pub new_space : Call → String → CreateSpaceDto → Space
new_space call slug dto = record {
  id = call.uuid 0;
  floor_id = dto.floor_id;
  name = dto.name;
  slug = slug;
  space_type = dto.space_type;
  status = or_else dto.status available;
  monthly_rate = dto.price_per_month;
  is_listed = or_else dto.is_listed false;
  requires_approval = or_else dto.requires_approval false;
  is_published = or_else dto.is_published false;
  address = dto.address;
  city = dto.city;
  country = dto.country;
  map_lat = dto.map_lat;
  map_lng = dto.map_lng;
}

unfoldable pub updated_space : UpdateSpaceDto → String → Space → Space
updated_space dto slug x = record x {
  floor_id = or_else dto.floor_id x.floor_id;
  name = or_else dto.name x.name;
  slug = slug;
  space_type = or_else dto.space_type x.space_type;
  status = or_else dto.status x.status;
  monthly_rate = patched dto.price_per_month x.monthly_rate;
  is_listed = or_else dto.is_listed x.is_listed;
  requires_approval = or_else dto.requires_approval x.requires_approval;
  is_published = or_else dto.is_published x.is_published;
  address = patched dto.address x.address;
  city = patched dto.city x.city;
  country = patched dto.country x.country;
  map_lat = patched dto.map_lat x.map_lat;
  map_lng = patched dto.map_lng x.map_lng;
}

-- `assertPublishable` of the merged fields.
unfoldable pub is_update_publishable : UpdateSpaceDto → Space → Bool
is_update_publishable dto current =
    is_publishable (or_else dto.is_published current.is_published)
      (coalesced dto.map_lat current.map_lat) (coalesced dto.map_lng current.map_lng)
      (coalesced dto.address current.address) (coalesced dto.city current.city)
      (coalesced dto.country current.country)

-- `dto.slug || dto.code || dto.name`
unfoldable pub update_seed : UpdateSpaceDto → Option String
update_seed dto =
    first_of_texts (nonempty dto.slug) (first_of_texts (nonempty dto.code) (nonempty dto.name))

-- The features given, but those without a name.
unfoldable pub feature_rows : ℕ → List SpaceFeatureInput → List SpaceFeature
feature_rows space_id [] = []
feature_rows space_id (f ∷ fs) =
    let rest = feature_rows space_id fs in
    elim (trimmed (some f.name)) [
      | none ↦ rest
      | some name ↦
          record { space_id = space_id; name = name; description = trimmed f.description } ∷ rest
    ]

module _ ⦃P : Prisma⦄ where
  open P use {Table, find_first, find_many, create, update, delete}

  -- `createMany`
  unfoldable create_rows : {R : Type 0} → List R → Table R → Table R
  create_rows [] t = t
  create_rows (r ∷ rs) t = create_rows rs (create r t)

  -- `buildUniqueSlug`, among the spaces but the excluded one.
  unfoldable pub unique_space_slug : Call → String → Option ℕ → Action String
  unfolding to_slug unique_slug
  unique_space_slug call seed exclude s =
      or_throw internal_error
        (unique_slug (λ (x : Space). x.slug) (λ x. not (holds_id exclude x.id))
          (to_slug 70 (String.◌++◌ "space-" (decimal call.now)) seed) s.spaces)
        s

  -- `syncFeatures`
  unfoldable pub sync_features : ℕ → Option (List SpaceFeatureInput) → Db → Db
  unfolding feature_rows create_rows
  sync_features space_id none s = s
  sync_features space_id (some features) s = record s {
    space_features =
        create_rows (feature_rows space_id features)
          (delete (λ (f : SpaceFeature). f.space_id == space_id) s.space_features);
  }

  -- The services of the landlord that are asked for and active.
  unfoldable pub valid_addons : List ℕ → ℕ → Db → List AddOnService
  valid_addons ids tenant_id s =
      find_many (λ a. is_in ids a.id && a.tenant_id == tenant_id && a.is_active) s.addon_services

  -- The links to the services are made anew.
  unfoldable pub link_addons : ℕ → List AddOnService → Db → Db
  unfolding create_rows
  link_addons space_id services s = record s {
    space_addons =
        create_rows
          (map (λ (a : AddOnService). record { space_id = space_id; addon_service_id = a.id })
            services)
          (delete (λ (l : SpaceAddOnService). l.space_id == space_id) s.space_addons);
  }

  -- `syncAddons`
  unfoldable pub sync_addons : ℕ → ℕ → Option (List ℕ) → Action (Unit {0})
  unfolding valid_addons link_addons
  sync_addons space_id floor_id none = pure tt
  sync_addons space_id floor_id (some addon_ids) = do
    tenant_id ← reads_or bad_request (floor_owner floor_id)
    let unique_ids = unique [] addon_ids
    valid ← reads (valid_addons unique_ids tenant_id)
    throw_if (not (length valid == length unique_ids)) bad_request
    writes (link_addons space_id valid)

  -- SpaceService.create
  unfoldable pub create_space : Call → AuthUser → CreateSpaceDto → Action Space
  create_space call user dto = do
    throw_if (not (is_role user.role super_admin || is_client_operator user.role)) forbidden
    floor ← assert_floor_readable user dto.floor_id
    throw_if
        (not (
          is_publishable (or_else dto.is_published false) dto.map_lat dto.map_lng dto.address
            dto.city dto.country))
        bad_request
    slug ←
        unique_space_slug call
          (or_else (first_of_texts (nonempty dto.slug) (nonempty dto.code)) dto.name) none
    let space = new_space call slug dto
    writes (λ s. record s { spaces = create space s.spaces })
    writes (sync_features space.id dto.features)
    sync_addons space.id dto.floor_id dto.addon_service_ids
    reads_or not_found (find_space space.id)

  -- SpaceService.findAllForUser
  unfoldable pub find_all_spaces :
      AuthUser → Option ℕ → Option String → Option SpaceStatus → Db → List Space
  find_all_spaces user floor_id type status s =
      find_many (space_where_for_list user floor_id type status s) s.spaces

  unfoldable pub next_space_slug : Call → ℕ → Option String → String → Action String
  next_space_slug call id none current = pure current
  next_space_slug call id (some seed) current = unique_space_slug call seed (some id)

  -- What `update` does with a space whose fields pass.
  unfoldable pub write_space_update : Call → ℕ → UpdateSpaceDto → Space → Action Space
  unfolding next_space_slug
  write_space_update call id dto current = do
    slug ← next_space_slug call id (update_seed dto) current.slug
    writes (λ s. record s { spaces = update (λ x. x.id == id) (updated_space dto slug) s.spaces })
    writes (sync_features id dto.features)
    sync_addons id (or_else dto.floor_id current.floor_id) dto.addon_service_ids
    reads_or not_found (find_space id)

  -- SpaceService.update
  unfoldable pub update_space_for_user : Call → AuthUser → ℕ → UpdateSpaceDto → Action Space
  update_space_for_user call user id dto = do
    current ← assert_space_mutable user id
    throw_if (not (is_update_publishable dto current)) bad_request
    write_space_update call id dto current

  -- SpaceService.remove
  unfoldable pub remove_space : AuthUser → ℕ → Action (Unit {0})
  remove_space user id = do
    space ← assert_space_mutable user id
    writes (λ s. record s { spaces = delete (λ x. x.id == id) s.spaces })

  -- The `where` of `isAvailable`: a booking of the space that is neither cancelled nor missed, and
  -- meets the time.
  unfoldable pub is_busy : ℕ → ℕ → ℕ → Db → Bool
  is_busy space_id start finish s = is_some (
      find_first
        (λ b.
          b.space_id == space_id
          && not (
              is_booking b.status BookingStatus.cancelled
              || is_booking b.status BookingStatus.no_show)
          && leb b.start_time finish
          && leb start b.end_time)
        s.bookings)

  -- SpaceService.isAvailable
  unfoldable pub is_available : ℕ → ℕ → ℕ → Db → Bool
  unfolding is_busy
  is_available space_id start finish s = not (is_busy space_id start finish s)

  -- SpaceService.updateStatus
  unfoldable pub update_status : ℕ → SpaceStatus → Action (Unit {0})
  update_status id status = do
    space ← reads_or not_found (find_space id)
    writes (λ s. record s {
      spaces = update (λ x. x.id == id) (λ x. record x { status = status }) s.spaces;
    })

  -- The active services linked to a space.
  unfoldable linked_addons : List SpaceAddOnService → Db → List AddOnService
  linked_addons [] s = []
  linked_addons (l ∷ ls) s =
      let rest = linked_addons ls s in
      elim (find_service l.addon_service_id s) [
        | none ↦ rest
        | some a ↦ if a.is_active then a ∷ rest else rest
      ]

  -- Those services, or else the landlord's active ones.
  unfoldable or_landlord : List AddOnService → Option ℕ → Db → List AddOnService
  or_landlord (a ∷ as') landlord s = a ∷ as'
  or_landlord [] none s = []
  or_landlord [] (some landlord) s =
      find_many (λ a. a.tenant_id == landlord && a.is_active) s.addon_services

  unfoldable pub shown_addons : Space → Db → List AddOnService
  unfolding linked_addons or_landlord
  shown_addons x s =
      or_landlord (linked_addons (find_many (λ l. l.space_id == x.id) s.space_addons) s)
        (space_owner x.id s) s

  -- SpaceService.findPublishedForMap
  unfoldable pub find_published_for_map : Db → List (Space × List AddOnService)
  unfolding shown_addons
  find_published_for_map s =
      map (λ x. (x, shown_addons x s))
        (find_many
          (λ x.
            x.is_published
            && is_space_status x.status available
            && is_some x.map_lat
            && is_some x.map_lng)
          s.spaces)

  -- SpaceService.findOnePublished
  unfoldable pub find_one_published : ℕ → Action (Space × List AddOnService)
  unfolding shown_addons
  find_one_published id = do
    space ← reads_or not_found (λ s.
        find_first (λ x. x.id == id && x.is_published && is_space_status x.status available)
          s.spaces)
    addons ← reads (shown_addons space)
    pure (space, addons)
