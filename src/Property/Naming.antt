-- ===== src/Property/Naming.antt =====
-- backend/src/building/building.service.ts: the slugs of the buildings, under every operation of the
-- service.
use pfe.Base.{
  ℕ, ◌≡◌, ◌≢◌, refl, sym, ◌∙◌, ◌⊎◌, inl, inr, false, not, ◌&&◌, Option, none, some, String, str_eq,
  eq_iff, List, map, arith, ◌==◌, ==_iff, find-some, holds_id, or_else, nonempty, first_of_texts,
  is_empty, if◌then◌else◌, Option-cases, Bool-cases, All, All-map, Pairwise, Pairwise-select,
  Pairwise-append_one, modify-Pairwise_found, Pairwise-found, find, modify,
}
use mathlib.Core.Bool.{true≢false}
use pfe.Prisma.{Prisma}
use pfe.Service.{ok, Call, final}
use pfe.Roles.{AuthUser}
use pfe.Schema.{Db, Building, Floor, find_building}
use pfe.Access.{assert_building_readable}
use pfe.Access.Isolation.{holds_id_sound}
use pfe.Property.Slugs.{to_slug}
use pfe.Property.Slugs.Unique.{unique_slug-free}
use pfe.Property.Buildings
use pfe.Property.Cascade

-- Two rows are one, or their slugs differ.
abbrev pub HasOtherSlug : Building → Building → Type 0
HasOtherSlug a c = (a.id ≡ c.id) ⊎ (a.slug ≢ c.slug)

str_differs : (a b : String) → str_eq a b ≡ false → a ≢ b
str_differs a b e same = true≢false (sym ((eq_iff a b).1 same) ∙ e)

other_slug-cases :
    (exclude : Option ℕ) (b : Building) (slug : String)
    → (not (holds_id exclude b.id) && str_eq b.slug slug) ≡ false
    → (exclude ≡ some b.id) ⊎ (b.slug ≢ slug)
other_slug-cases exclude b slug e = elim (Bool-cases (holds_id exclude b.id)) [
  | inl held ↦ inl (holds_id_sound exclude b.id held)
  | inr other ↦ inr (λ same. str_differs b.slug slug (ground arith) same)
]

-- What is done to the buildings of the platform.
pub data Edit : Type 0 where
  creating : Call → Buildings.CreateBuildingDto → Edit
  updating : Call → ℕ → Buildings.UpdateBuildingDto → Edit
  removing : ℕ → Edit

HasOtherSlug-sym : (a c : Building) → HasOtherSlug a c → HasOtherSlug c a
HasOtherSlug-sym a c (inl e) = inl (sym e)
HasOtherSlug-sym a c (inr ne) = inr (λ e. ne (sym e))

-- A change of one building's slug to its own or to a free one.
renamed_unique :
    (id : ℕ) (f : Building → Building) (slug : String) (rs : List Building) (b : Building)
    → (f b).id ≡ b.id
    → (f b).slug ≡ slug
    → Pairwise (λ a c. a.id ≢ c.id) rs
    → find (λ a. a.id == id) rs ≡ some b
    → (slug ≡ b.slug) ⊎ All (λ a. (a.id ≡ id) ⊎ (a.slug ≢ slug)) rs
    → Pairwise HasOtherSlug rs
    → Pairwise HasOtherSlug (modify (λ a. a.id == id) f rs)
renamed_unique id f slug rs b keeps gives distinct found free unique =
    let hit : b.id ≡ id = (==_iff _ _).0 (find-some (λ a. a.id == id) rs b found) in
    let apart : All (λ a. HasOtherSlug a (f b)) rs = elim free [
      | inl same ↦
          All-map
            (λ a r. elim r [
              | inl e ↦ inl (e ∙ sym keeps)
              | inr ne ↦ inr (λ e. ne (e ∙ gives ∙ same))
            ])
            rs
            (Pairwise-found HasOtherSlug (λ a. a.id == id) rs b HasOtherSlug-sym (λ a. inl refl)
              found unique)
      | inr other ↦
          All-map
            (λ a r. elim r [
              | inl e ↦ inl (e ∙ sym hit ∙ sym keeps)
              | inr ne ↦ inr (λ e. ne (e ∙ gives))
            ])
            rs other
    ] in
    modify-Pairwise_found (λ a. a.id) f HasOtherSlug id rs b HasOtherSlug-sym distinct found apart
      unique

module _ ⦃P : Prisma⦄ where
  open P use {rows, find_many, create, update, delete}

  -- `buildUniqueSlug` ends, whatever the name and however many buildings there are, and the slug is
  -- that of no building but the excluded one.
  pub unique_building_slug-free :
      (call : Call) (seed : String) (exclude : Option ℕ) (s : Db)
      → (slug : String) × (Buildings.unique_building_slug call seed exclude s ≡ (ok slug, s))
        × All (λ (b : Building). (exclude ≡ some b.id) ⊎ (b.slug ≢ slug)) (rows s.buildings)
  unfolding Buildings.unique_building_slug
  unique_building_slug-free call seed exclude s =
      let (slug, found, free) =
        unique_slug-free (λ (b : Building). b.slug) (λ b. not (holds_id exclude b.id))
          (to_slug 60 (Buildings.building_fallback call) seed) s.buildings in
      (
        slug,
        rw found refl,
        All-map (λ b e. other_slug-cases exclude b slug e) (rows s.buildings) free,
      )

  abbrev pub HasUniqueSlugs : Db → Type 0
  HasUniqueSlugs s = Pairwise HasOtherSlug (rows s.buildings)

  unfoldable pub edit : AuthUser → Edit → Db → Db
  edit user (creating call dto) s = final (Buildings.create_building call user dto s)
  edit user (updating call id dto) s = final (Buildings.update_building call user id dto s)
  edit user (removing id) s = final (Buildings.remove_building user id s)

  -- A building is stored with a slug that is free, or none is.
  create_building-HasUniqueSlugs :
      (call : Call) (user : AuthUser) (dto : Buildings.CreateBuildingDto) (s : Db)
      → HasUniqueSlugs s
      → HasUniqueSlugs (final (Buildings.create_building call user dto s))
  unfolding Buildings.create_building Buildings.new_building
  create_building-HasUniqueSlugs call user dto s unique =
      let seed = if is_empty dto.code then dto.name else dto.code in
      let (slug, found, free) = unique_building_slug-free call seed none s in
      let building = Buildings.new_building call (or_else dto.tenant_id user.tenant_id) slug dto in
      let after = final (Buildings.create_building call user dto s) in
      let written : (after.buildings ≡ s.buildings)
          ⊎ (after.buildings ≡ create building s.buildings) =
        ground (arith, found) in
      elim written [
        | inl same ↦ rw same unique
        | inr e ↦
            rw (e, P.rows-create)
              (Pairwise-append_one HasOtherSlug (rows s.buildings) building unique
                (All-map (λ b f. elim f [ inl e ↦ ground arith | inr ne ↦ inr ne ]) _ free))
      ]

  -- The slug that an update writes to a building is its own or free.
  next_building_slug-cases :
      (call : Call) (id : ℕ) (seed : Option String) (current : String) (s : Db)
      → (slug : String) × (Buildings.next_building_slug call id seed current s ≡ (ok slug, s))
        × ((slug ≡ current)
            ⊎ All (λ (b : Building). (b.id ≡ id) ⊎ (b.slug ≢ slug)) (rows s.buildings))
  unfolding Buildings.next_building_slug
  next_building_slug-cases call id none current s = (current, refl, inl refl)
  next_building_slug-cases call id (some seed) current s =
      let (slug, found, free) = unique_building_slug-free call seed (some id) s in
      (
        slug,
        found,
        inr (All-map (λ b f. elim f [ inl e ↦ inl (ground arith) | inr ne ↦ inr ne ]) _ free),
      )

  update_building-HasUniqueSlugs :
      (call : Call) (user : AuthUser) (id : ℕ) (dto : Buildings.UpdateBuildingDto) (s : Db)
      → Pairwise (λ (a c : Building). a.id ≢ c.id) (rows s.buildings)
      → HasUniqueSlugs s
      → HasUniqueSlugs (final (Buildings.update_building call user id dto s))
  unfolding Buildings.update_building Buildings.find_one_building assert_building_readable
      Buildings.updated_building
  update_building-HasUniqueSlugs call user id dto s distinct unique =
      elim (Option-cases (find_building id s)) [
        | inl missing ↦
            let same : final (Buildings.update_building call user id dto s) ≡ s = ground arith in
            rw same unique
        | inr (b, found) ↦
            let (slug, next, free) =
              next_building_slug-cases call id
                (first_of_texts (nonempty dto.code) (nonempty dto.name)) b.slug s in
            let f = Buildings.updated_building dto slug in
            let after = final (Buildings.update_building call user id dto s) in
            let written : (after.buildings ≡ s.buildings)
                ⊎ (after.buildings ≡ update (λ b. b.id == id) f s.buildings) =
              ground (arith, next) in
            elim written [
              | inl same ↦ rw same unique
              | inr e ↦
                  rw (e, P.rows-update)
                    (renamed_unique id f slug (rows s.buildings) b refl refl distinct
                      (sym (P.find_first-rows _ _) ∙ found) free unique)
            ]
      ]

  delete_floors_of-buildings :
      (id : ℕ) (ids : List ℕ) (s : Db)
      → (Buildings.delete_floors_of id ids s).buildings ≡ s.buildings
  unfolding Buildings.delete_floors_of Cascade.cascade_delete_spaces_for_floors
      Cascade.delete_spaces Cascade.detach_bookings Cascade.delete_bookings
  delete_floors_of-buildings id ids s = ground arith

  remove_building-HasUniqueSlugs :
      (user : AuthUser) (id : ℕ) (s : Db)
      → HasUniqueSlugs s
      → HasUniqueSlugs (final (Buildings.remove_building user id s))
  unfolding Buildings.remove_building Buildings.find_one_building assert_building_readable
  remove_building-HasUniqueSlugs user id s unique =
      let after = final (Buildings.remove_building user id s) in
      let ids = map (λ (f : Floor). f.id) (find_many (λ f. f.building_id == id) s.floors) in
      let written : (after.buildings ≡ s.buildings)
          ⊎ (after.buildings ≡ delete (λ b. b.id == id) s.buildings) =
        ground (arith, delete_floors_of-buildings id ids s) in
      elim written [
        | inl same ↦ rw same unique
        | inr e ↦
            rw (e, P.rows-delete)
              (Pairwise-select HasOtherSlug (λ b. not (b.id == id)) (rows s.buildings) unique)
      ]

  -- Whatever buildings are made, changed and removed, no two of them have the same slug, if none had.
  -- The ids must be distinct.
  pub edit-HasUniqueSlugs :
      (user : AuthUser) (e : Edit) (s : Db)
      → Pairwise (λ (a c : Building). a.id ≢ c.id) (rows s.buildings)
      → HasUniqueSlugs s
      → HasUniqueSlugs (edit user e s)
  unfolding edit
  edit-HasUniqueSlugs user (creating call dto) s distinct unique =
      create_building-HasUniqueSlugs call user dto s unique
  edit-HasUniqueSlugs user (updating call id dto) s distinct unique =
      update_building-HasUniqueSlugs call user id dto s distinct unique
  edit-HasUniqueSlugs user (removing id) s distinct unique =
      remove_building-HasUniqueSlugs user id s unique
