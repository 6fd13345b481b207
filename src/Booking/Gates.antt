-- ===== src/Booking/Gates.antt =====
-- backend/src/booking/booking.service.ts with common/services/access-policy.service.ts: who may
-- operate on a booking.
use pfe.Base.{ℕ, ◌≡◌, ◌↔◌, ◌⊎◌, inl, inr, some, arith, Option-cases, Bool-cases}
use pfe.Prisma.{Prisma}
use pfe.Service.{ok, throw, forbidden, final}
use pfe.Roles.{AuthUser, Role, super_admin, client_admin, manager, receptionist}
use pfe.Schema.{Db, Booking, find_booking, space_owner}
use pfe.Access.{assert_booking_readable, readable_booking}
use pfe.Access.Isolation.{MayReadBooking, readable_booking_sound, readable_booking_complete}
use pfe.Booking.Rules
use pfe.Booking.Review
use pfe.Booking.Workflow
use pfe.Booking.Machine.{
  Operation, approve, reject, cancel, mark_phone_unreachable, check_in, check_out,
  confirm_phone_call, mark_documents_pending, finalize_booking, perform,
}

module _ ⦃P : Prisma⦄ where
  -- `findOneForUser` returns a booking exactly where the policy lets the user read it.
  pub find_one_for_user_iff :
      (user : AuthUser) (id : ℕ) (s : Db) (b : Booking)
      → (Review.find_one_for_user user id s ≡ (ok b, s))
        ↔ ((find_booking id s ≡ some b) × MayReadBooking user b (space_owner b.space_id s))
  unfolding Review.find_one_for_user Review.find_one assert_booking_readable
  find_one_for_user_iff user id s b = (
    λ h. elim (Option-cases (find_booking id s)) [
      | inl missing ↦ ground arith
      | inr (r, found) ↦ ground (arith, readable_booking_sound user r (space_owner r.space_id s))
    ],
    λ (found, may). ground (arith, readable_booking_complete user b (space_owner b.space_id s) may),
  )

  -- Reading changes nothing, however it ends.
  pub find_one_for_user-final :
      (user : AuthUser) (id : ℕ) (s : Db) → final (Review.find_one_for_user user id s) ≡ s
  unfolding Review.find_one_for_user Review.find_one assert_booking_readable
  find_one_for_user-final user id s = ground arith

  pub find_one_for_user_refused :
      (user : AuthUser) (id : ℕ) (s : Db) (b : Booking)
      → find_booking id s ≡ some b
      → ¬ (MayReadBooking user b (space_owner b.space_id s))
      → Review.find_one_for_user user id s ≡ (throw forbidden, s)
  unfolding Review.find_one_for_user assert_booking_readable
  find_one_for_user_refused user id s b found hidden =
      elim (Bool-cases (readable_booking user b (space_owner b.space_id s))) [
        | inl shown ↦
            absurd (hidden (readable_booking_sound user b (space_owner b.space_id s) shown))
        | inr refused ↦ ground arith
      ]

  -- The roles that may carry an operation out; cancelling and the stay ask for none.
  abbrev pub MayPerform : Operation → Role → Type 0
  MayPerform (approve _) role = (role ≡ super_admin) ⊎ (role ≡ client_admin) ⊎ (role ≡ manager)
  MayPerform (reject _) role = (role ≡ super_admin) ⊎ (role ≡ client_admin) ⊎ (role ≡ manager)
  MayPerform finalize_booking role = (role ≡ super_admin) ⊎ (role ≡ client_admin) ⊎ (role ≡ manager)
  MayPerform (mark_phone_unreachable _) role =
      (role ≡ super_admin) ⊎ (role ≡ client_admin) ⊎ (role ≡ manager) ⊎ (role ≡ receptionist)
  MayPerform confirm_phone_call role =
      (role ≡ super_admin) ⊎ (role ≡ client_admin) ⊎ (role ≡ manager) ⊎ (role ≡ receptionist)
  MayPerform mark_documents_pending role =
      (role ≡ super_admin) ⊎ (role ≡ client_admin) ⊎ (role ≡ manager) ⊎ (role ≡ receptionist)
  MayPerform _ role = Unit

  -- Whoever may not read a booking, or whose role may not carry an operation out, changes nothing at
  -- all by it: the whole database is as it was.
  pub perform_refused :
      (user : AuthUser) (id : ℕ) (op : Operation) (s : Db) (b : Booking)
      → find_booking id s ≡ some b
      → (¬ (MayReadBooking user b (space_owner b.space_id s))) ⊎ (¬ (MayPerform op user.role))
      → perform user id op s ≡ s
  unfolding perform Review.approve Review.cancel Review.reject Workflow.mark_phone_unreachable
      Review.check_in Review.check_out Workflow.confirm_phone_call Workflow.mark_documents_pending
      Workflow.finalize_booking Review.is_approver Rules.is_workflow_staff
  perform_refused user id (approve call) s b found (inl hidden) =
      ground (arith, find_one_for_user_refused user id s b found hidden)
  perform_refused user id _ s b found (inl hidden) =
      ground (arith, find_one_for_user_refused user id s b found hidden)
  perform_refused user id (approve call) s b found (inr refused) = ground arith
  perform_refused user id (cancel reason) s b found (inr refused) = absurd (refused tt)
  perform_refused user id check_in s b found (inr refused) = absurd (refused tt)
  perform_refused user id check_out s b found (inr refused) = absurd (refused tt)
  perform_refused user id _ s b found (inr refused) = ground arith
