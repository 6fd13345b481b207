-- ===== src/Booking/Overlap.antt =====
-- backend/src/booking/booking.service.ts: bookings that `create` makes and the handlers of Machine
-- move. `create` looks for conflicts, and those handlers give no booking back its space.
use pfe.Base.{
  ℕ, ◌≤◌, ◌≡◌, ◌≢◌, refl, sym, ◌∙◌, ◌⊎◌, inl, inr, false, none, some, List, [], ◌∷◌, arith,
  Option-cases, find-none, All, All-map, Pairwise, Pointwise-Pairwise, Pairwise-append_one,
  modify-Pointwise_all, ◌==◌,
}
use pfe.Prisma.{Prisma}
use pfe.Service.{Call, final}
use pfe.Roles.{AuthUser}
use pfe.Schema.{Db, Booking, BookingStatus, find_space}
use pfe.Booking.Rules
use pfe.Booking.Create.{CreateBookingDto, new_booking, create_booking}
use pfe.Booking.Create.Writes.{create_booking_writes, create_booking_missing, addons_of}
use pfe.Booking.Machine.Writes.{Issues, set_invoice}
use pfe.Booking.Machine.{Operation, Moves, perform, HasDistinctIds, next_status}
use pfe.Booking.Machine.Laws.{perform-Moves}

-- The booking still holds its space.
abbrev pub IsLive : Booking → Type 0
IsLive b = Rules.is_dead b.status ≡ false

-- Two bookings hold the same space at the same moment: the ends of a stay count.
abbrev pub Clashes : Booking → Booking → Type 0
Clashes a b =
    (a.space_id ≡ b.space_id)
    × IsLive a
    × IsLive b
    × (a.start_time ≤ b.end_time)
    × (b.start_time ≤ a.end_time)

module _ ⦃P : Prisma⦄ where
  open P use {rows}

  abbrev pub IsDisjoint : Db → Type 0
  IsDisjoint s = Pairwise (λ a b. ¬ (Clashes a b)) (rows s.bookings)

-- The machine leads from no dead status to a live one.
next_status_dead :
    (op : Operation) (s t : BookingStatus)
    → next_status op s ≡ some t
    → Rules.is_dead t ≡ false
    → Rules.is_dead s ≡ false
unfolding Rules.is_dead
next_status_dead op s t h live = ground arith

Moves-IsLive : (op : Operation) (a b : Booking) → Moves op a b → IsLive b → IsLive a
Moves-IsLive op a b m live = elim m.status [
  | inl same ↦ rw same live
  | inr step ↦ next_status_dead op a.status b.status step live
]

Moves-Clashes :
    (op : Operation) (a b c d : Booking) → Moves op a b → Moves op c d → Clashes b d → Clashes a c
Moves-Clashes op a b c d m n clash = ground (arith, Moves-IsLive op a b m, Moves-IsLive op c d n)

module _ ⦃P : Prisma⦄ where
  open P use {rows}

  perform-HasDistinctIds :
      (user : AuthUser) (id : ℕ) (op : Operation) (s : Db)
      → HasDistinctIds s
      → HasDistinctIds (perform user id op s)
  perform-HasDistinctIds user id op s h =
      Pointwise-Pairwise (Moves op) (λ a c. a.id ≢ c.id)
        (λ a b c d m n ne e. ne (m.id ∙ e ∙ sym n.id)) (perform-Moves user id op s h) h

  perform-IsDisjoint :
      (user : AuthUser) (id : ℕ) (op : Operation) (s : Db)
      → HasDistinctIds s
      → IsDisjoint s
      → IsDisjoint (perform user id op s)
  perform-IsDisjoint user id op s h k =
      Pointwise-Pairwise (Moves op) (λ a b. ¬ (Clashes a b))
        (λ a b c d m n apart clash. apart (Moves-Clashes op a b c d m n clash))
        (perform-Moves user id op s h) k

-- What the invoice's write keeps of a booking.
abbrev KeepsPlace : Booking → Booking → Type 0
KeepsPlace a b = (b ≡ a) ⊎ ((i : ℕ) × (b ≡ set_invoice i a))

KeepsPlace-id : (a b : Booking) → KeepsPlace a b → a.id ≡ b.id
KeepsPlace-id a b k = ground arith

KeepsPlace-Clashes :
    (a b c d : Booking) → KeepsPlace a b → KeepsPlace c d → Clashes b d → Clashes a c
KeepsPlace-Clashes a b c d k l clash = ground arith

-- A booking that the search for conflicts passed over does not clash with the new one.
not_conflict-apart :
    (dto : CreateBookingDto) (b a : Booking)
    → b.space_id ≡ dto.space_id
    → b.start_time ≡ dto.start_time
    → b.end_time ≡ dto.end_time
    → Rules.is_conflict dto.space_id dto.start_time dto.end_time none a ≡ false
    → ¬ (Clashes a b)
unfolding Rules.is_conflict
not_conflict-apart dto b a p q r h clash = ground arith

module _ ⦃P : Prisma⦄ where
  open P use {Table, rows, create, update, find_first-rows, rows-create, rows-update}

  -- The two parts of the invariant, of a table of bookings.
  abbrev IsSound : Table Booking → Type 0
  IsSound t =
      Pairwise (λ (a c : Booking). a.id ≢ c.id) (rows t)
      × Pairwise (λ a b. ¬ (Clashes a b)) (rows t)

  issue-IsSound :
      (id invoice_id : ℕ) (t t' : Table Booking)
      → IsSound t
      → Issues id invoice_id t t'
      → IsSound t'
  issue-IsSound id invoice_id t t' (d, k) (inl e) = rw e (d, k)
  issue-IsSound id invoice_id t t' (d, k) (inr e) =
      let kept =
        modify-Pointwise_all (λ b. b.id) KeepsPlace (λ a. inl refl) (λ r. r.id == id)
          (set_invoice invoice_id) (λ a. inr (invoice_id, refl)) (rows t) in
      rw (e, rows-update)
        (
          Pointwise-Pairwise KeepsPlace (λ a c. a.id ≢ c.id)
              (λ a b c d k l ne e. ne (KeepsPlace-id a b k ∙ e ∙ sym (KeepsPlace-id c d l))) kept d,
          Pointwise-Pairwise KeepsPlace (λ a c. ¬ (Clashes a c))
              (λ a b c d k l apart clash. apart (KeepsPlace-Clashes a b c d k l clash)) kept k,
        )

  create-IsSound :
      (dto : CreateBookingDto) (b : Booking) (t : Table Booking)
      → b.space_id ≡ dto.space_id
      → b.start_time ≡ dto.start_time
      → b.end_time ≡ dto.end_time
      → All (λ a. a.id ≢ b.id) (rows t)
      → P.find_first (Rules.is_conflict dto.space_id dto.start_time dto.end_time none) t ≡ none
      → IsSound t
      → IsSound (create b t)
  create-IsSound dto b t p q r fresh free (d, k) = rw rows-create (
    Pairwise-append_one (λ (a c : Booking). a.id ≢ c.id) (rows t) b d fresh,
    Pairwise-append_one (λ a c. ¬ (Clashes a c)) (rows t) b k
        (All-map (λ a. not_conflict-apart dto b a p q r) (rows t)
          (find-none _ (rows t) (sym (find_first-rows _ t) ∙ free))),
  )

  -- `create` keeps the stored ids distinct and the stored bookings apart. Its own id must be new.
  pub create_booking-IsSound :
      (call later : Call) (user : AuthUser) (dto : CreateBookingDto) (s : Db)
      → All (λ (a : Booking). a.id ≢ call.uuid 0) (rows s.bookings)
      → IsSound s.bookings
      → IsSound (final (create_booking call later user dto s)).bookings
  unfolding new_booking
  create_booking-IsSound call later user dto s fresh sound =
      elim (Option-cases (find_space dto.space_id s)) [
        | inl missing ↦ rw (create_booking_missing call later user dto s missing) sound
        | inr (space, found) ↦ elim (create_booking_writes call later user dto s space found) [
          | inl e ↦ rw e sound
          | inr (free, issued) ↦
              issue-IsSound _ _ _ _
                (create-IsSound dto (new_booking call user dto space (addons_of dto s)) s.bookings
                  refl refl refl fresh free sound)
                issued
        ]
      ]

-- The traffic of a booking desk: a new booking, or an operation on a stored one.
pub data Event : Type 0 where
  book : Call → Call → AuthUser → CreateBookingDto → Event
  operate : AuthUser → ℕ → Operation → Event

module _ ⦃P : Prisma⦄ where
  open P use {rows}

  unfoldable pub apply : Event → Db → Db
  apply (book call later user dto) s = final (create_booking call later user dto s)
  apply (operate user id op) s = perform user id op s

  unfoldable pub run : List Event → Db → Db
  unfolding apply
  run [] s = s
  run (e ∷ es) s = run es (apply e s)

  -- The ids that uuid makes are new.
  abbrev pub IsFresh : Event → Db → Type 0
  IsFresh (book call later user dto) s = All (λ (a : Booking). a.id ≢ call.uuid 0) (rows s.bookings)
  IsFresh (operate user id op) s = Unit

  abbrev pub AreFresh : List Event → Db → Type 0
  AreFresh [] s = Unit
  AreFresh (e ∷ es) s = IsFresh e s × AreFresh es (apply e s)

  apply-IsSound :
      (e : Event) (s : Db) → IsFresh e s → IsSound s.bookings → IsSound (apply e s).bookings
  unfolding apply
  apply-IsSound (book call later user dto) s fresh sound =
      create_booking-IsSound call later user dto s fresh sound
  apply-IsSound (operate user id op) s fresh (d, k) =
      (perform-HasDistinctIds user id op s d, perform-IsDisjoint user id op s d k)

  -- However bookings are made by `create` and then approved, rejected, cancelled, checked in and out
  -- and taken through the four steps of the reception desk, two of them that hold the same space
  -- never meet in time, if none did at the start, the stored ids are distinct and each new id is new.
  -- `update` and the acceptance of an application are not among these calls.
  pub run-IsDisjoint :
      (es : List Event) (s : Db)
      → AreFresh es s
      → HasDistinctIds s
      → IsDisjoint s
      → HasDistinctIds (run es s) × IsDisjoint (run es s)
  unfolding run
  run-IsDisjoint [] s fresh d k = (d, k)
  run-IsDisjoint (e ∷ es) s (f, fs) d k =
      let (d', k') = apply-IsSound e s f (d, k) in run-IsDisjoint es (apply e s) fs d' k'
