-- ===== src/Booking/Machine/Writes.antt =====
-- backend/src/booking/booking.service.ts: what each handler writes to the table of bookings.
use pfe.Base.{ℕ, ◌≡◌, refl, ◌⊎◌, ◌≢◌, none, some, List, [], ◌∷◌, String, arith, ◌==◌}
use pfe.Prisma.{Prisma}
use pfe.Service.{ok, throw, forbidden, Call, final}
use pfe.Roles.{AuthUser}
use pfe.Schema.{Db, Booking, booking_confirmed, find_booking}
use pfe.Access.{assert_booking_readable}
use pfe.Billing.{generate_invoice_from_booking, send}
use pfe.Booking.Rules
use pfe.Booking.Review
use pfe.Booking.Workflow
use pfe.Booking.Machine.{Operation, approve, reject, perform, Moves, written}

abbrev pub set_invoice : ℕ → Booking → Booking
set_invoice invoice_id r = record r { invoice_id = some invoice_id }

module _ ⦃P : Prisma⦄ where
  open P use {Table, update, rows}

  abbrev pub Writes : ℕ → Operation → Booking → Db → Db → Type 0
  Writes id op b s s' =
      (s'.bookings ≡ s.bookings)
      ⊎ (Moves op b (written op b b)
          × (s'.bookings ≡ update (λ r. r.id == id) (written op b) s.bookings))

  -- Reading a stored booking changes nothing, and returns it or is forbidden.
  pub find_one_for_user-cases :
      (user : AuthUser) (id : ℕ) (s : Db) (b : Booking)
      → find_booking id s ≡ some b
      → (Review.find_one_for_user user id s ≡ (ok b, s))
        ⊎ (Review.find_one_for_user user id s ≡ (throw forbidden, s))
  unfolding Review.find_one_for_user Review.find_one assert_booking_readable
  find_one_for_user-cases user id s b found = ground arith

  notify_each-bookings :
      (tenant_id : ℕ) (type title : String) (us : List ℕ) (s : Db)
      → (Rules.notify_each tenant_id type title us s).bookings ≡ s.bookings
  unfolding Rules.notify_each
  notify_each-bookings tenant_id type title [] s = refl
  notify_each-bookings tenant_id type title (u ∷ us) s =
      notify_each-bookings tenant_id type title us _

  pub notify_users-bookings :
      (tenant_id : ℕ) (us : List ℕ) (type title : String) (s : Db)
      → (Rules.notify_users tenant_id us type title s).bookings ≡ s.bookings
  unfolding Rules.notify_users
  notify_users-bookings tenant_id us type title s =
      notify_each-bookings tenant_id type title (Rules.unique [] us) s

  pub notify_tenant_admins-bookings :
      (tenant_id : ℕ) (type title : String) (s : Db)
      → (Rules.notify_tenant_admins tenant_id type title s).bookings ≡ s.bookings
  unfolding Rules.notify_tenant_admins
  notify_tenant_admins-bookings tenant_id type title s = rw notify_users-bookings

  pub ruleset notices = (notify_users-bookings, notify_tenant_admins-bookings)

  -- One write at most, for every operation but `approve`.
  pub perform-Writes :
      (user : AuthUser) (id : ℕ) (op : Operation) (s : Db) (b : Booking)
      → find_booking id s ≡ some b
      → ((call : Call) → op ≢ approve call)
      → Writes id op b s (perform user id op s)
  unfolding perform Review.cancel Review.reject Workflow.mark_phone_unreachable Review.check_in
      Review.check_out Workflow.confirm_phone_call Workflow.mark_documents_pending
      Workflow.finalize_booking
  perform-Writes user id (approve call) s b found other = absurd (other call refl)
  perform-Writes user id (reject reason) s b found other =
      grind (arith, notices, find_one_for_user-cases user id s b found)
  perform-Writes user id _ s b found other =
      ground (arith, find_one_for_user-cases user id s b found)

  pub issue_booking_invoice-bookings :
      (call : Call) (id : ℕ) (s : Db)
      → ((final (Rules.issue_booking_invoice call id s)).bookings ≡ s.bookings)
        ⊎ ((final (Rules.issue_booking_invoice call id s)).bookings
            ≡ update (λ r. r.id == id) (set_invoice (call.uuid 0)) s.bookings)
  unfolding Rules.issue_booking_invoice generate_invoice_from_booking
  issue_booking_invoice-bookings call id s = ground arith

  -- The bookings before the invoice is issued, and after it.
  abbrev pub Issues : ℕ → ℕ → Table Booking → Table Booking → Type 0
  Issues id invoice_id moved after =
      (after ≡ moved) ⊎ (after ≡ update (λ r. r.id == id) (set_invoice invoice_id) moved)

  pub approve_pending_writes :
      (id : ℕ) (call : Call) (s : Db) (b : Booking)
      → Issues id
          (call.uuid 0)
          (update (λ r. r.id == id) (written (approve call) b) s.bookings)
          (final (Review.approve_pending call id b s)).bookings
  unfolding Review.approve_pending Review.find_one
  approve_pending_writes id call s b =
      let s₁ = Rules.update_booking id (written (approve call) b) s in
      let s₂ = send (Rules.resolve_booking_recipient_email b s₁) booking_confirmed id s₁ in
      let s₃ =
        Rules.notify_users b.tenant_id (b.user_id ∷ []) "BOOKING_CONFIRMATION" "Booking approved"
          s₂ in
      let s₄ =
        Rules.notify_tenant_admins b.tenant_id "BOOKING_CONFIRMATION"
          "Booking approved — action required" s₃ in
      ground (
        arith,
        notify_users-bookings b.tenant_id (b.user_id ∷ []) "BOOKING_CONFIRMATION" "Booking approved"
            s₂,
        notify_tenant_admins-bookings b.tenant_id "BOOKING_CONFIRMATION"
            "Booking approved — action required" s₃,
        issue_booking_invoice-bookings call id s₄,
      )

  -- `approve` writes the status, and then perhaps the invoice.
  pub approve_writes :
      (user : AuthUser) (id : ℕ) (call : Call) (s : Db) (b : Booking)
      → find_booking id s ≡ some b
      → ((perform user id (approve call) s).bookings ≡ s.bookings)
        ⊎ (Moves (approve call) b (written (approve call) b b)
            × Issues id
                (call.uuid 0)
                (update (λ r. r.id == id) (written (approve call) b) s.bookings)
                (perform user id (approve call) s).bookings)
  unfolding perform Review.approve Review.find_one
  approve_writes user id call s b found =
      ground (arith, approve_pending_writes id call s b, find_one_for_user-cases user id s b found)

  -- An operation on an id that no booking has leaves the bookings alone.
  pub perform_missing :
      (user : AuthUser) (id : ℕ) (op : Operation) (s : Db)
      → find_booking id s ≡ none
      → (perform user id op s).bookings ≡ s.bookings
  unfolding perform Review.approve Review.cancel Review.reject Workflow.mark_phone_unreachable
      Review.check_in Review.check_out Workflow.confirm_phone_call Workflow.mark_documents_pending
      Workflow.finalize_booking Review.find_one_for_user assert_booking_readable
  perform_missing user id (approve call) s missing = ground arith
  perform_missing user id _ s missing = ground arith
