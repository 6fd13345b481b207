-- ===== src/Booking/Machine.antt =====
-- backend/src/booking/booking.service.ts: the life of a booking as a state machine, and the handlers
-- that move a stored booking.
pub mod Writes
pub mod Laws
use pfe.Base.{
  ℕ, ◌≡◌, refl, sym, ap, subst, ◌⊎◌, ◌≢◌, inl, inr, Bool, true, false, Option, none, some, List, [],
  ◌∷◌, String, arith, Option-cases, ◌==◌, is_some, if◌then◌else◌, Pairwise, Pointwise,
  Pointwise-refl, Pointwise-trans, Pointwise-find, modify-Pointwise, modify-Pointwise_all, All,
  find, modify,
}
use pfe.Prisma.{Prisma}
use pfe.Service.{Result, ok, throw, forbidden, Call, final}
use pfe.Roles.{AuthUser}
use pfe.Schema.{
  Db, Booking, BookingStatus, booking_confirmed, draft, pending_approval,
  pending_phone_confirmation, awaiting_physical_visit, documents_pending_upload, active, confirmed,
  checked_in, completed, cancelled, refused, no_show, unlisted, find_booking,
}
use pfe.Access.{assert_booking_readable}
use pfe.Billing.{generate_invoice_from_booking, send}
use pfe.Booking.Rules
use pfe.Booking.Review
use pfe.Booking.Workflow

pub data Operation : Type 0 where
  approve : Call → Operation
  reject cancel mark_phone_unreachable : Option String → Operation
  check_in check_out confirm_phone_call mark_documents_pending finalize_booking : Operation

-- The machine: where an operation leads from a status, if anywhere.
abbrev pub next_status : Operation → BookingStatus → Option BookingStatus
next_status (approve _) pending_approval = some confirmed
next_status (reject _) pending_approval = some cancelled
next_status (cancel _) cancelled = none
next_status (cancel _) _ = some cancelled
next_status (mark_phone_unreachable _) pending_phone_confirmation = some refused
next_status check_in confirmed = some checked_in
next_status check_out checked_in = some completed
next_status confirm_phone_call pending_phone_confirmation = some awaiting_physical_visit
next_status mark_documents_pending awaiting_physical_visit = some documents_pending_upload
next_status finalize_booking documents_pending_upload = some active
next_status _ _ = none

module _ ⦃P : Prisma⦄ where
  -- The database after an operation of a user on the booking with an id.
  unfoldable pub perform : AuthUser → ℕ → Operation → Db → Db
  perform user id (approve call) s = final (Review.approve call user id s)
  perform user id (reject reason) s = final (Review.reject user id reason s)
  perform user id (cancel reason) s = final (Review.cancel user id reason s)
  perform user id (mark_phone_unreachable reason) s =
      final (Workflow.mark_phone_unreachable user id reason s)
  perform user id check_in s = final (Review.check_in user id s)
  perform user id check_out s = final (Review.check_out user id s)
  perform user id confirm_phone_call s = final (Workflow.confirm_phone_call user id s)
  perform user id mark_documents_pending s = final (Workflow.mark_documents_pending user id s)
  perform user id finalize_booking s = final (Workflow.finalize_booking user id s)

-- What an operation keeps of every booking, and where it may take its status.
pub record Moves (op : Operation) (a b : Booking) : Type 0 where
  pub id : a.id ≡ b.id
  pub tenant_id : a.tenant_id ≡ b.tenant_id
  pub user_id : a.user_id ≡ b.user_id
  pub space_id : a.space_id ≡ b.space_id
  pub start_time : a.start_time ≡ b.start_time
  pub end_time : a.end_time ≡ b.end_time
  pub total_amount : a.total_amount ≡ b.total_amount
  pub status : (a.status ≡ b.status) ⊎ (next_status op a.status ≡ some b.status)

-- The change that an operation writes to a booking that was found as `b`.
abbrev pub written : Operation → Booking → Booking → Booking
written (approve _) b r = record r { status = confirmed }
written (reject reason) b r = record r {
  status = cancelled;
  notes = some (Review.rejection_notes reason);
}
written (cancel reason) b r = record r {
  status = cancelled;
  notes = Review.cancellation_notes reason b.notes;
}
written (mark_phone_unreachable reason) b r = record r {
  status = refused;
  notes = some (Workflow.unreachable_notes reason);
}
written check_in b r = record r { status = checked_in }
written check_out b r = record r { status = completed }
written confirm_phone_call b r = record r { status = awaiting_physical_visit }
written mark_documents_pending b r = record r { status = documents_pending_upload }
written finalize_booking b r = record r { status = active }

module _ ⦃P : Prisma⦄ where
  open P use {rows}

  -- The ids of the stored bookings are distinct, as the primary key has it.
  abbrev pub HasDistinctIds : Db → Type 0
  HasDistinctIds s = Pairwise (λ (a c : Booking). a.id ≢ c.id) (rows s.bookings)
