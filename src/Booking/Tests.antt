-- ===== src/Booking/Tests.antt =====
-- backend/src/booking/booking.service.ts: examples.
use pfe.Base.{
  ◌≡◌, refl, inl, inr, true, none, some, List, [], ◌∷◌, arith, All, Pointwise, ◌==◌, find,
}
use pfe.Memory.{memory}
use pfe.Service.{ok}
use pfe.Schema.{
  Db, Booking, BookingStatus, BookingAddOn, BookingDocument, signed_lease_contract,
  pending_phone_confirmation, documents_pending_upload, pending_approval, sent, confirmed,
  find_booking, space_owner, floor_owner, building_owner,
}
use pfe.Sample.{landlord, renter, call_at, db_of, booking_as, invoice_as}
use pfe.Access.{assert_booking_readable, readable_booking}
use pfe.Access.Isolation.{MayReadBooking}
use pfe.Booking.Rules
use pfe.Booking.Create.{CreateBookingDto}
use pfe.Booking.Review
use pfe.Booking.Workflow
use pfe.Booking.Queries.{find_all_for_user, workflow_queues}
use pfe.Booking.Machine.{cancel, approve, perform, Moves}
use pfe.Booking.Machine.Laws.{perform-Moves}
use pfe.Booking.Overlap.{Event, book, operate, run, IsDisjoint, run-IsDisjoint}
use pfe.Booking.Machine.{HasDistinctIds}
use pfe.Booking.Gates.{perform_refused}
use pfe.Booking.Visits.{remove_addon_of_other}
use pfe.Booking.Listing.{everything, listed, find_all_for_user-MayRead, to_call-confirm_phone_call}

-- The desk with one booking in some status, and a later one that is confirmed.
abbrev desk : BookingStatus → Db
desk status = db_of (booking_as 400 status ∷ booking_as 401 confirmed ∷ []) (invoice_as 900 sent) []

owner : (status : BookingStatus) → space_owner 300 (desk status) ≡ some 1
unfolding space_owner floor_owner building_owner
owner status = refl

may_read :
    (status : BookingStatus)
    → MayReadBooking landlord (booking_as 400 status) (space_owner 300 (desk status))
may_read status = inr (inl (inr (inl refl), inr (owner status)))

perform-Moves_example :
    Pointwise
      (Moves (cancel none))
      (desk confirmed).bookings
      (perform landlord 400 (cancel none) (desk confirmed)).bookings
perform-Moves_example =
    perform-Moves landlord 400 (cancel none) (desk confirmed) (((λ e. omega arith), tt), (tt, tt))

abbrev monday : CreateBookingDto
monday = record {
  tenant_id = 2;
  space_id = 300;
  created_by_user_id = 20;
  start_time = 402000;
  end_time = 402500;
  total_price = 900;
  status = none;
  addons = [];
}

abbrev traffic : List Event
traffic =
    book (call_at 0 402) (call_at 1 900) renter monday ∷ operate landlord 400 (cancel none) ∷ []

run-IsDisjoint_example :
    HasDistinctIds (run traffic (desk confirmed)) × IsDisjoint (run traffic (desk confirmed))
run-IsDisjoint_example =
    run-IsDisjoint traffic (desk confirmed)
      (((λ e. omega arith), ((λ e. omega arith), tt)), (tt, tt))
      (((λ e. omega arith), tt), (tt, tt)) (((λ clash. ground arith), tt), (tt, tt))

perform_refused_example :
    perform renter 400 (approve (call_at 0 0)) (desk pending_approval) ≡ desk pending_approval
perform_refused_example =
    perform_refused renter 400 (approve (call_at 0 0)) (desk pending_approval)
      (booking_as 400 pending_approval) refl (inr (λ may. ground arith))

abbrev lease : BookingDocument
lease = record {
  id = 960;
  booking_id = 400;
  file_url = "url";
  file_name = "lease.pdf";
  document_type = signed_lease_contract;
  uploaded_by = 20;
}

abbrev signed : Db
signed = record (desk documents_pending_upload) { booking_documents = lease ∷ [] }

refuses :
    (Workflow.mark_phone_unreachable landlord 400 none (desk pending_phone_confirmation)).0 ≡ ok tt
unfolding Workflow.mark_phone_unreachable Review.find_one_for_user Review.find_one
    Rules.is_workflow_staff assert_booking_readable readable_booking space_owner floor_owner
    building_owner Rules.renter_email Workflow.unreachable_notes
refuses = refl

abbrev parking : BookingAddOn
parking = record {
  id = 950;
  booking_id = 401;
  addon_service_id = 30;
  quantity = 2;
  unit_price = 50;
}

abbrev with_parking : Db
with_parking = record (desk confirmed) { booking_addons = parking ∷ [] }

find_all_for_user-MayRead_example :
    All
      (λ b. MayReadBooking renter b (space_owner b.space_id (desk confirmed)))
      (listed (find_all_for_user renter everything (desk confirmed)).0)
find_all_for_user-MayRead_example =
    find_all_for_user-MayRead renter everything (desk confirmed) (λ e. ground arith)
      (λ e. ground arith)

staff : Rules.is_workflow_staff landlord.role ≡ true
unfolding Rules.is_workflow_staff
staff = refl

to_call-confirm_phone_call_example :
    All
      (λ (b : Booking).
        find_booking b.id (desk pending_phone_confirmation) ≡ some b
        → (Workflow.confirm_phone_call landlord b.id (desk pending_phone_confirmation)).0 ≡ ok tt)
      (workflow_queues landlord (desk pending_phone_confirmation)).to_call
to_call-confirm_phone_call_example =
    to_call-confirm_phone_call landlord (desk pending_phone_confirmation) staff

remove_addon_of_other_example :
    let (r, s') = Review.remove_addon landlord 400 950 with_parking in
    (r ≡ ok tt) × (find (λ (a : BookingAddOn). a.id == 950) s'.booking_addons ≡ none)
unfolding space_owner floor_owner building_owner
remove_addon_of_other_example =
    remove_addon_of_other landlord 400 with_parking (booking_as 400 confirmed) parking refl
      (may_read confirmed) refl (λ e. omega arith)
