-- ===== src/Booking/Visits.antt =====
-- backend/src/booking/booking.service.ts: the documents of a booking, the space that the reception
-- workflow releases or reserves, and the removal of an add-on.
use pfe.Base.{ℕ, ◌≤◌, ◌≡◌, ◌≢◌, refl, Option, none, some, String, arith, ◌==◌}
use pfe.Prisma.{Prisma}
use pfe.Tables.{count-create, find_first-update, find_first-delete}
use pfe.Service.{ok, Call, final}
use pfe.Roles.{AuthUser}
use pfe.Schema.{
  Db, Booking, BookingDocument, BookingAddOn, DocumentType, Space, available, refused, find_booking,
  find_space, space_owner,
}
use pfe.Access.Isolation.{MayReadBooking}
use pfe.Booking.Review
use pfe.Booking.Workflow
use pfe.Booking.Gates.{find_one_for_user-final, find_one_for_user_iff}
use pfe.Booking.Machine.Writes.{find_one_for_user-cases}

module _ ⦃P : Prisma⦄ where
  open P use {rows, find_first, count, delete}

  abbrev pub documents_of : ℕ → Db → ℕ
  documents_of id s = count (λ (d : BookingDocument). d.booking_id == id) s.booking_documents

  -- No booking has more than five documents, if none had.
  pub add_document-le_five :
      (call : Call) (user : AuthUser) (id : ℕ) (upload : String) (original : Option String)
      (type : Option DocumentType) (name : Option String) (s : Db) (j : ℕ)
      → documents_of j s ≤ 5
      → documents_of j (final (Workflow.add_document call user id upload original type name s)) ≤ 5
  unfolding Workflow.add_document Workflow.new_document
  add_document-le_five call user id upload original type name s j h = ground (
    arith,
    find_one_for_user-final user id s,
    count-create (λ (d : BookingDocument). d.booking_id == j)
        (Workflow.new_document call user id upload original type name) s.booking_documents,
  )

  -- A booking whose renter could not be reached is refused, and its space is available again.
  pub mark_phone_unreachable-space :
      (user : AuthUser) (id : ℕ) (reason : Option String) (s : Db) (b : Booking) (x : Space)
      → find_booking id s ≡ some b
      → find_space b.space_id s ≡ some x
      → (Workflow.mark_phone_unreachable user id reason s).0 ≡ ok tt
      → let s' = final (Workflow.mark_phone_unreachable user id reason s) in
        (find_booking id s'
          ≡ some (record b { status = refused; notes = some (Workflow.unreachable_notes reason) }))
        × (find_space b.space_id s' ≡ some (record x { status = available }))
  unfolding Workflow.mark_phone_unreachable
  mark_phone_unreachable-space user id reason s b x found space done =
      let moved =
        find_first-update (λ (r : Booking). r.id) id
          (λ r. record r { status = refused; notes = some (Workflow.unreachable_notes reason) })
          s.bookings b (λ r. refl) found in
      let freed =
        find_first-update (λ (r : Space). r.id) b.space_id (λ r. record r { status = available })
          s.spaces x (λ r. refl) space in
      (
        ground (arith, find_one_for_user-cases user id s b found, moved),
        ground (arith, find_one_for_user-cases user id s b found, freed),
      )

  -- Whoever may read one booking can remove an add-on of any other: the add-on is looked up by its
  -- own id alone.
  pub remove_addon_of_other :
      (user : AuthUser) (id : ℕ) (s : Db) (b : Booking) (a : BookingAddOn)
      → find_booking id s ≡ some b
      → MayReadBooking user b (space_owner b.space_id s)
      → find_first (λ (r : BookingAddOn). r.id == a.id) s.booking_addons ≡ some a
      → a.booking_id ≢ id
      → let (r, s') = Review.remove_addon user id a.id s in
        (r ≡ ok tt) × (find_first (λ (r : BookingAddOn). r.id == a.id) s'.booking_addons ≡ none)
  unfolding Review.remove_addon
  remove_addon_of_other user id s b a found may stored other = ground (
    arith,
    (find_one_for_user_iff user id s b).1 (found, may),
    find_first-delete (λ (r : BookingAddOn). r.id == a.id) s.booking_addons,
  )
