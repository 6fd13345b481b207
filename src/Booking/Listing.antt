-- ===== src/Booking/Listing.antt =====
-- backend/src/booking/booking.service.ts: what the lists and the queues show.
use pfe.Base.{
  ◌≡◌, ◌≢◌, refl, inl, inr, Bool, true, false, none, some, List, [], arith, Bool-cases, All,
  All-map, holds_id, not, ◌&&◌, ◌||◌, eq_refl,
}
use pfe.Prisma.{Prisma}
use pfe.Tables.{find_many-All}
use pfe.Service.{Result, ok, throw, forbidden}
use pfe.Roles.{AuthUser, is_role, receptionist, finance, guest}
use pfe.Schema.{
  Db, Booking, find_booking, space_owner, BookingStatus, is_booking, same_booking,
  pending_phone_confirmation,
}
use pfe.Access.{assert_booking_readable}
use pfe.Access.Isolation.{MayReadBooking, holds_id_sound}
use pfe.Booking.Rules
use pfe.Booking.Workflow
use pfe.Booking.Gates.{find_one_for_user_iff}
use pfe.Booking.Queries.{
  BookingQuery, in_landlord_filter, query_refused, booking_where, find_all_for_user,
  workflow_queues,
}

-- What a call returned, as a list.
abbrev pub listed : Result (List Booking) → List Booking
listed (ok bs) = bs
listed (throw _) = []

same_booking_refl : (status : BookingStatus) → same_booking status status ≡ true
same_booking_refl (BookingStatus.unlisted text) = eq_refl text
same_booking_refl _ = refl

abbrev pub everything : BookingQuery
everything = record { tenant_id = none; space_id = none; status = none; created_by = none }

module _ ⦃P : Prisma⦄ where
  where-MayRead :
      (user : AuthUser) (q : BookingQuery) (s : Db) (b : Booking)
      → user.role ≢ finance
      → user.role ≢ guest
      → query_refused user q ≡ false
      → booking_where user q s b ≡ true
      → MayReadBooking user b (space_owner b.space_id s)
  unfolding booking_where query_refused
  where-MayRead user q s b not_finance not_guest passed h =
      ground (arith, holds_id_sound (space_owner b.space_id s) user.tenant_id)

  -- Every booking that a user's list shows is one that the user may read, for every role but FINANCE
  -- and GUEST.
  pub find_all_for_user-MayRead :
      (user : AuthUser) (q : BookingQuery) (s : Db)
      → user.role ≢ finance
      → user.role ≢ guest
      → All
          (λ b. MayReadBooking user b (space_owner b.space_id s))
          (listed (find_all_for_user user q s).0)
  unfolding find_all_for_user
  find_all_for_user-MayRead user q s not_finance not_guest =
      elim (Bool-cases (query_refused user q)) [
        | inl refused ↦ rw refused tt
        | inr passed ↦ rw passed (
            All-map (λ b h. where-MayRead user q s b not_finance not_guest passed h) _
              (find_many-All (booking_where user q s) s.bookings))
      ]

  -- A FINANCE user's unfiltered list shows a booking that another organisation made in the user's own
  -- building, and opening it is forbidden.
  pub finance_lists_unreadable :
      (user : AuthUser) (s : Db) (b : Booking)
      → user.role ≡ finance
      → find_booking b.id s ≡ some b
      → space_owner b.space_id s ≡ some user.tenant_id
      → b.tenant_id ≢ user.tenant_id
      → (booking_where user everything s b ≡ true)
        × (assert_booking_readable user b.id s ≡ (throw forbidden, s))
  unfolding booking_where assert_booking_readable
  finance_lists_unreadable user s b role stored own other =
      (ground (arith, same_booking_refl b.status), ground arith)

  abbrev waits_for : AuthUser → Db → Booking → Bool
  waits_for user s b =
      in_landlord_filter user s b
      && is_booking b.status pending_phone_confirmation
      && (not (is_role user.role receptionist) || holds_id b.receptionist_id user.id)

  in_landlord_filter-MayRead :
      (user : AuthUser) (s : Db) (b : Booking)
      → Rules.is_workflow_staff user.role ≡ true
      → in_landlord_filter user s b ≡ true
      → MayReadBooking user b (space_owner b.space_id s)
  unfolding Rules.is_workflow_staff in_landlord_filter
  in_landlord_filter-MayRead user s b staff h =
      ground (arith, holds_id_sound (space_owner b.space_id s) user.tenant_id)

  confirms :
      (user : AuthUser) (s : Db) (b : Booking)
      → Rules.is_workflow_staff user.role ≡ true
      → waits_for user s b ≡ true
      → find_booking b.id s ≡ some b
      → (Workflow.confirm_phone_call user b.id s).0 ≡ ok tt
  unfolding Workflow.confirm_phone_call Workflow.is_assigned_to_other
  confirms user s b staff h stored =
      let read =
        (find_one_for_user_iff user b.id s b).1
          (stored, in_landlord_filter-MayRead user s b staff (ground arith)) in
      ground arith

  -- A booking in the queue of calls can be confirmed by the user whose queue it is.
  pub to_call-confirm_phone_call :
      (user : AuthUser) (s : Db)
      → Rules.is_workflow_staff user.role ≡ true
      → All
          (λ (b : Booking).
            find_booking b.id s ≡ some b → (Workflow.confirm_phone_call user b.id s).0 ≡ ok tt)
          (workflow_queues user s).to_call
  unfolding workflow_queues
  to_call-confirm_phone_call user s staff =
      All-map (λ b h stored. confirms user s b staff h stored) _
        (find_many-All (waits_for user s) s.bookings)
