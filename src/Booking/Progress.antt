-- ===== src/Booking/Progress.antt =====
-- backend/src/booking/booking.service.ts: an operation that is allowed and that the machine has an
-- edge for takes the booking along that edge.
use pfe.Base.{ℕ, ◌≡◌, true, false, is_some}
use pfe.Prisma.{Prisma}
use pfe.Roles.{AuthUser}
use pfe.Schema.{Db, Booking}
use pfe.Booking.Rules
use pfe.Booking.Review
use pfe.Booking.Workflow
use pfe.Booking.Machine.{Operation, confirm_phone_call, finalize_booking}

module _ ⦃P : Prisma⦄ where
  open P use {Table, rows, find_first, update, find_first-rows, rows-update}

  -- What an operation asks for beyond the role: a call belongs to its receptionist, and a contract
  -- is signed before the booking is final.
  abbrev pub IsReady : Operation → AuthUser → ℕ → Booking → Db → Type 0
  IsReady confirm_phone_call user id b s = Workflow.is_assigned_to_other user b ≡ false
  IsReady finalize_booking user id b s =
      is_some (find_first (Workflow.is_contract_document id) s.booking_documents) ≡ true
  IsReady _ user id b s = Unit
