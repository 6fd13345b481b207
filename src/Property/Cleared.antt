-- ===== src/Property/Cleared.antt =====
-- backend/src/common/utils/cascade-delete-spaces.util.ts: what every table holds after some floors were
-- cleared of their spaces, and what it is for the rows to refer to rows that are there.
use pfe.Base.{
  ℕ, ◌≡◌, refl, sym, ap, ◌∙◌, subst, true, not, ◌||◌, none, List, [], ◌∷◌, map, select, modify, All,
  is_in, is_in_some, has, has_some, keys_of, select_always, modify_never, is_in_some_nil,
}
use pfe.Prisma.{Prisma}
use pfe.Schema.{
  Db, Building, Floor, Space, Booking, BookingAddOn, BookingApplication, MaintenanceTicket,
  TenantApplication, BookingDocument, SpaceFeature, SpaceAddOnService, BookingApplicationAddOn,
}
use pfe.Property.Cascade

abbrev pub without_booking : MaintenanceTicket → MaintenanceTicket
without_booking t = record t { booking_id = none }

abbrev pub without_space : MaintenanceTicket → MaintenanceTicket
without_space t = record t { space_id = none }

abbrev pub without_place : TenantApplication → TenantApplication
without_place a = record a { space_id = none }

unbooked :
    (ts : List MaintenanceTicket) → modify (λ t. is_in_some [] t.booking_id) without_booking ts ≡ ts
unbooked ts = modify_never _ without_booking (λ t. is_in_some_nil t.booking_id) ts

module _ ⦃P : Prisma⦄ where
  open P use {Table, rows, find_many, delete}

  -- Every row that refers to a building, a floor, a space, a booking or an application refers to one
  -- that is there.
  pub record IsLinked (s : Db) : Type 0 where
    pub floors :
        All
          (λ (f : Floor). has (λ (b : Building). b.id) (rows s.buildings) f.building_id ≡ true)
          (rows s.floors)
    pub spaces :
        All
          (λ (x : Space). has (λ (f : Floor). f.id) (rows s.floors) x.floor_id ≡ true)
          (rows s.spaces)
    pub bookings :
        All
          (λ (b : Booking). has (λ (x : Space). x.id) (rows s.spaces) b.space_id ≡ true)
          (rows s.bookings)
    pub booking_addons :
        All
          (λ (a : BookingAddOn). has (λ (b : Booking). b.id) (rows s.bookings) a.booking_id ≡ true)
          (rows s.booking_addons)
    pub applications :
        All
          (λ (a : BookingApplication).
            (has (λ (x : Space). x.id) (rows s.spaces) a.space_id ≡ true)
            × (has_some (λ (b : Booking). b.id) (rows s.bookings) a.booking_id ≡ true))
          (rows s.booking_applications)
    pub tickets :
        All
          (λ (t : MaintenanceTicket).
            (has_some (λ (x : Space). x.id) (rows s.spaces) t.space_id ≡ true)
            × (has_some (λ (b : Booking). b.id) (rows s.bookings) t.booking_id ≡ true))
          (rows s.maintenance_tickets)
    pub tenant_applications :
        All
          (λ (a : TenantApplication).
            has_some (λ (x : Space). x.id) (rows s.spaces) a.space_id ≡ true)
          (rows s.tenant_applications)
    pub documents :
        All
          (λ (d : BookingDocument).
            has (λ (b : Booking). b.id) (rows s.bookings) d.booking_id ≡ true)
          (rows s.booking_documents)
    pub features :
        All
          (λ (x : SpaceFeature). has (λ (y : Space). y.id) (rows s.spaces) x.space_id ≡ true)
          (rows s.space_features)
    pub services :
        All
          (λ (x : SpaceAddOnService). has (λ (y : Space). y.id) (rows s.spaces) x.space_id ≡ true)
          (rows s.space_addons)
    pub application_addons :
        All
          (λ (a : BookingApplicationAddOn).
            has (λ (b : BookingApplication). b.id) (rows s.booking_applications) a.application_id
            ≡ true)
          (rows s.application_addons)

  -- The applications for some spaces, or for some bookings.
  abbrev pub applications_of : List ℕ → List ℕ → Db → List ℕ
  applications_of ids booking_ids s =
      keys_of (λ (a : BookingApplication). a.id)
        (λ a. is_in ids a.space_id || is_in_some booking_ids a.booking_id)
        (rows s.booking_applications)

  -- What the tables hold after some spaces and bookings went.
  pub record IsCleared (ids booking_ids : List ℕ) (s s' : Db) : Type 0 where
    pub buildings : s'.buildings ≡ s.buildings
    pub floors : s'.floors ≡ s.floors
    pub spaces : rows s'.spaces ≡ select (λ x. not (is_in ids x.id)) (rows s.spaces)
    pub bookings : rows s'.bookings ≡ select (λ b. not (is_in booking_ids b.id)) (rows s.bookings)
    pub booking_addons :
        rows s'.booking_addons
        ≡ select (λ a. not (is_in booking_ids a.booking_id)) (rows s.booking_addons)
    pub applications :
        rows s'.booking_applications
        ≡ select
            (λ a. not (is_in ids a.space_id || is_in_some booking_ids a.booking_id))
            (rows s.booking_applications)
    pub tickets :
        rows s'.maintenance_tickets
        ≡ modify
            (λ t. is_in_some ids t.space_id)
            without_space
            (modify
              (λ t. is_in_some booking_ids t.booking_id)
              without_booking
              (rows s.maintenance_tickets))
    pub tenant_applications :
        rows s'.tenant_applications
        ≡ modify (λ a. is_in_some ids a.space_id) without_place (rows s.tenant_applications)
    pub documents :
        rows s'.booking_documents
        ≡ select (λ d. not (is_in booking_ids d.booking_id)) (rows s.booking_documents)
    pub features :
        rows s'.space_features ≡ select (λ x. not (is_in ids x.space_id)) (rows s.space_features)
    pub services :
        rows s'.space_addons ≡ select (λ x. not (is_in ids x.space_id)) (rows s.space_addons)
    pub application_addons :
        rows s'.application_addons
        ≡ select
            (λ a. not (is_in (applications_of ids booking_ids s) a.application_id))
            (rows s.application_addons)

  applied_addons :
      (ids booking_ids : List ℕ) (s : Db)
      → rows (
          delete
            (λ a.
              is_in
                (map
                  (λ (b : BookingApplication). b.id)
                  (find_many
                    (λ b. is_in ids b.space_id || is_in_some booking_ids b.booking_id)
                    s.booking_applications))
                a.application_id)
            s.application_addons)
        ≡ select
            (λ a. not (is_in (applications_of ids booking_ids s) a.application_id))
            (rows s.application_addons)
  applied_addons ids booking_ids s = rw (P.rows-delete, P.find_many-rows) refl

  clear_spaces-IsCleared :
      (ids booking_ids : List ℕ) (s : Db)
      → IsCleared ids booking_ids s (Cascade.clear_spaces ids booking_ids s)
  unfolding Cascade.clear_spaces Cascade.detach_bookings Cascade.delete_bookings
  clear_spaces-IsCleared ids [] s = record {
    buildings = refl;
    floors = refl;
    spaces = P.rows-delete _ _;
    bookings = sym (select_always _ (λ a. refl) (rows s.bookings));
    booking_addons = sym (select_always _ (λ a. refl) (rows s.booking_addons));
    applications = P.rows-delete _ _;
    tickets =
        P.rows-update _ _ _
        ∙ ap (modify (λ t. is_in_some ids t.space_id) without_space)
            (sym (unbooked (rows s.maintenance_tickets)));
    tenant_applications = P.rows-update _ _ _;
    documents = sym (select_always _ (λ d. refl) (rows s.booking_documents));
    features = P.rows-delete _ _;
    services = P.rows-delete _ _;
    application_addons = applied_addons ids [] s;
  }
  clear_spaces-IsCleared ids (i ∷ is) s = record {
    buildings = refl;
    floors = refl;
    spaces = P.rows-delete _ _;
    bookings = P.rows-delete _ _;
    booking_addons = P.rows-delete _ _;
    applications = P.rows-delete _ _;
    tickets = rw (P.rows-update, P.rows-update) refl;
    tenant_applications = P.rows-update _ _ _;
    documents = P.rows-delete _ _;
    features = P.rows-delete _ _;
    services = P.rows-delete _ _;
    application_addons = applied_addons ids (i ∷ is) s;
  }

  -- The bookings of some spaces.
  abbrev pub bookings_of : List ℕ → Db → List ℕ
  bookings_of ids s = keys_of (λ (b : Booking). b.id) (λ b. is_in ids b.space_id) (rows s.bookings)

  -- The spaces on some floors.
  abbrev pub spaces_on : List ℕ → Db → List ℕ
  spaces_on floor_ids s =
      keys_of (λ (x : Space). x.id) (λ x. is_in floor_ids x.floor_id) (rows s.spaces)

  no_applications :
      (xs : List BookingApplication)
      → keys_of
          (λ (a : BookingApplication). a.id)
          (λ a. is_in [] a.space_id || is_in_some [] a.booking_id)
          xs
        ≡ []
  no_applications [] = refl
  no_applications (a ∷ xs) = rw (is_in_some_nil a.booking_id) (no_applications xs)

  unchanged-IsCleared : (s : Db) → IsCleared [] [] s s
  unchanged-IsCleared s = record {
    buildings = refl;
    floors = refl;
    spaces = sym (select_always _ (λ a. refl) (rows s.spaces));
    bookings = sym (select_always _ (λ a. refl) (rows s.bookings));
    booking_addons = sym (select_always _ (λ a. refl) (rows s.booking_addons));
    applications =
        sym (
          select_always _ (λ a. ap not (is_in_some_nil a.booking_id))
            (rows s.booking_applications));
    tickets =
        sym (
          modify_never _ without_space (λ t. is_in_some_nil t.space_id)
            (rows s.maintenance_tickets))
        ∙ ap (modify (λ t. is_in_some [] t.space_id) without_space)
            (sym (unbooked (rows s.maintenance_tickets)));
    tenant_applications = sym (
        modify_never _ without_place (λ a. is_in_some_nil a.space_id) (rows s.tenant_applications));
    documents = sym (select_always _ (λ d. refl) (rows s.booking_documents));
    features = sym (select_always _ (λ x. refl) (rows s.space_features));
    services = sym (select_always _ (λ x. refl) (rows s.space_addons));
    application_addons =
        rw (no_applications (rows s.booking_applications))
          (sym (select_always _ (λ a. refl) (rows s.application_addons)));
  }

  no_bookings :
      (bs : List Booking) → keys_of (λ (b : Booking). b.id) (λ b. is_in [] b.space_id) bs ≡ []
  no_bookings [] = refl
  no_bookings (b ∷ bs) = no_bookings bs

  delete_spaces-IsCleared :
      (ids : List ℕ) (s : Db) → IsCleared ids (bookings_of ids s) s (Cascade.delete_spaces ids s)
  unfolding Cascade.delete_spaces
  delete_spaces-IsCleared [] s =
      subst (λ booking_ids. IsCleared [] booking_ids s s) (sym (no_bookings (rows s.bookings)))
        (unchanged-IsCleared s)
  delete_spaces-IsCleared (id ∷ ids) s =
      let found = find_many (λ (b : Booking). is_in (id ∷ ids) b.space_id) s.bookings in
      let named = map (λ (b : Booking). b.id) found in
      subst (λ booking_ids. IsCleared (id ∷ ids) booking_ids s (Cascade.delete_spaces (id ∷ ids) s))
        (ap (map (λ (b : Booking). b.id)) (P.find_many-rows _ _))
        (clear_spaces-IsCleared (id ∷ ids) named s)

  no_spaces : (xs : List Space) → keys_of (λ (x : Space). x.id) (λ x. is_in [] x.floor_id) xs ≡ []
  no_spaces [] = refl
  no_spaces (x ∷ xs) = no_spaces xs

  pub cascade-IsCleared :
      (ids : List ℕ) (s : Db)
      → IsCleared
          (spaces_on ids s)
          (bookings_of (spaces_on ids s) s)
          s
          (Cascade.cascade_delete_spaces_for_floors ids s)
  unfolding Cascade.cascade_delete_spaces_for_floors
  cascade-IsCleared [] s =
      subst (λ space_ids. IsCleared space_ids (bookings_of space_ids s) s s)
        (sym (no_spaces (rows s.spaces)))
        (subst (λ booking_ids. IsCleared [] booking_ids s s) (sym (no_bookings (rows s.bookings)))
          (unchanged-IsCleared s))
  cascade-IsCleared (id ∷ ids) s =
      let found = find_many (λ (x : Space). is_in (id ∷ ids) x.floor_id) s.spaces in
      let space_ids = map (λ (x : Space). x.id) found in
      subst
        (λ named.
          IsCleared named (bookings_of named s) s
            (Cascade.cascade_delete_spaces_for_floors (id ∷ ids) s))
        (ap (map (λ (x : Space). x.id)) (P.find_many-rows _ _))
        (delete_spaces-IsCleared space_ids s)
