-- ===== src/Booking/Create/Writes.antt =====
-- backend/src/booking/booking.service.ts: what `create` writes to the table of bookings.
use pfe.Base.{ℕ, ◌≡◌, refl, ◌⊎◌, inl, inr, none, some, List, [], ◌∷◌, arith, Option-cases}
use pfe.Prisma.{Prisma}
use pfe.Service.{Result, ok, throw, Call, final}
use pfe.Roles.{AuthUser}
use pfe.Schema.{Db, Booking, Space, find_space, space_owner}
use pfe.Pricing.{duration_months}
use pfe.Booking.Rules
use pfe.Booking.Rules.{ApplicationAddon, ResolvedAddon}
use pfe.Booking.Create.{CreateBookingDto, new_booking, insert_booking, after_insert, create_booking}
use pfe.Booking.Machine.Writes.{Issues, issue_booking_invoice-bookings, notify_users-bookings}

module _ ⦃P : Prisma⦄ where
  open P use {Table, create, find_first}

  -- A resolution of add-ons changes nothing.
  pub resolve_items-final :
      (space_id landlord months : ℕ) (items : List ApplicationAddon) (s : Db)
      → final (Rules.resolve_items space_id landlord months items s) ≡ s
  unfolding Rules.resolve_items
  resolve_items-final space_id landlord months [] s = refl
  resolve_items-final space_id landlord months (item ∷ items) s =
      ground (arith, resolve_items-final space_id landlord months items s)

  pub resolve_booking_addons-final :
      (space_id months : ℕ) (items : List ApplicationAddon) (s : Db)
      → final (Rules.resolve_booking_addons space_id months items s) ≡ s
  unfolding Rules.resolve_booking_addons
  resolve_booking_addons-final space_id months [] s = refl
  resolve_booking_addons-final space_id months (item ∷ items) s =
      elim (Option-cases (space_owner space_id s)) [
        | inl missing ↦ ground arith
        | inr (landlord, found) ↦
            ground (arith, resolve_items-final space_id landlord months (item ∷ items) s)
      ]

  notify_approvers-bookings :
      (b : Booking) (s : Db) → (Rules.notify_approvers b s).bookings ≡ s.bookings
  unfolding Rules.notify_approvers
  notify_approvers-bookings b s = rw notify_users-bookings

  after_insert-Issues :
      (later : Call) (b : Booking) (s : Db)
      → Issues b.id (later.uuid 0) s.bookings (final (after_insert later b s)).bookings
  unfolding after_insert
  after_insert-Issues later b s =
      ground (arith, issue_booking_invoice-bookings later b.id s, notify_approvers-bookings b s)

  abbrev resolved : Result (List ResolvedAddon) × Db → List ResolvedAddon
  resolved (ok addons, _) = addons
  resolved (throw _, _) = []

  abbrev pub addons_of : CreateBookingDto → Db → List ResolvedAddon
  addons_of dto s = resolved (
      Rules.resolve_booking_addons dto.space_id (duration_months dto.start_time dto.end_time)
        dto.addons s)

  -- `create` leaves the bookings alone; or it found no conflict, and it adds the new booking and
  -- perhaps writes its invoice.
  pub create_booking_writes :
      (call later : Call) (user : AuthUser) (dto : CreateBookingDto) (s : Db) (space : Space)
      → find_space dto.space_id s ≡ some space
      → ((final (create_booking call later user dto s)).bookings ≡ s.bookings)
        ⊎ ((find_first (Rules.is_conflict dto.space_id dto.start_time dto.end_time none) s.bookings
              ≡ none)
            × Issues
                (call.uuid 0)
                (later.uuid 0)
                (create (new_booking call user dto space (addons_of dto s)) s.bookings)
                (final (create_booking call later user dto s)).bookings)
  unfolding create_booking Rules.check_availability insert_booking new_booking
  create_booking_writes call later user dto s space found =
      let b = new_booking call user dto space (addons_of dto s) in
      ground (
        arith,
        resolve_booking_addons-final dto.space_id (duration_months dto.start_time dto.end_time)
            dto.addons s,
        after_insert-Issues later b (insert_booking call b (addons_of dto s) s),
      )

  pub create_booking_missing :
      (call later : Call) (user : AuthUser) (dto : CreateBookingDto) (s : Db)
      → find_space dto.space_id s ≡ none
      → (final (create_booking call later user dto s)).bookings ≡ s.bookings
  unfolding create_booking
  create_booking_missing call later user dto s missing = ground arith
