-- ===== src/Booking/Invoicing.antt =====
-- backend/src/booking/booking.service.ts and billing/billing.service.ts: a booking's invoice is issued
-- once.
use pfe.Base.{ℕ, ◌≡◌, refl, inl, inr, none, some, arith, Option-cases}
use pfe.Prisma.{Prisma}
use pfe.Tables.{find_first-update}
use pfe.Booking.Machine.Writes.{set_invoice}
use pfe.Service.{Call, final}
use pfe.Schema.{Db, Booking, find_booking}
use pfe.Billing.{booking_invoice, generate_invoice_from_booking}
use pfe.Booking.Rules.{issue_booking_invoice, issue_if_missing}

module _ ⦃P : Prisma⦄ where
  issue_missing :
      (call : Call) (id : ℕ) (s : Db)
      → find_booking id s ≡ none
      → final (issue_booking_invoice call id s) ≡ s
  unfolding issue_booking_invoice issue_if_missing generate_invoice_from_booking
  issue_missing call id s missing = ground arith

  issued_already :
      (again : Call) (id : ℕ) (s : Db) (b : Booking) (i : ℕ)
      → find_booking id s ≡ some b
      → b.invoice_id ≡ some i
      → final (issue_booking_invoice again id s) ≡ s
  unfolding issue_booking_invoice issue_if_missing
  issued_already again id s b i found old = ground arith

  -- What the first issue leaves of a booking without an invoice.
  issue_found :
      (call : Call) (id : ℕ) (s : Db) (b : Booking)
      → find_booking id s ≡ some b
      → b.invoice_id ≡ none
      → find_booking id (final (issue_booking_invoice call id s))
        ≡ some (set_invoice (call.uuid 0) b)
  unfolding issue_booking_invoice issue_if_missing generate_invoice_from_booking booking_invoice
  issue_found call id s b found new = ground (
    arith,
    find_first-update (λ (r : Booking). r.id) id (set_invoice (call.uuid 0)) s.bookings b
        (λ r. refl) found,
  )

  -- However often the invoice of a booking is issued, a second issue changes nothing.
  pub issue_booking_invoice_once :
      (call again : Call) (id : ℕ) (s : Db)
      → final (issue_booking_invoice again id (final (issue_booking_invoice call id s)))
        ≡ final (issue_booking_invoice call id s)
  issue_booking_invoice_once call again id s = elim (Option-cases (find_booking id s)) [
    | inl missing ↦ rw (issue_missing call id s missing) (issue_missing again id s missing)
    | inr (b, found) ↦ elim (Option-cases b.invoice_id) [
      | inl new ↦
          issued_already again id _ (set_invoice (call.uuid 0) b) (call.uuid 0)
            (issue_found call id s b found new) refl
      | inr (i, old) ↦
          rw (issued_already call id s b i found old) (issued_already again id s b i found old)
    ]
  ]
