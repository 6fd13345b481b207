-- ===== src/Booking/Machine/Laws.antt =====
-- backend/src/booking/booking.service.ts: every operation follows the machine.
use pfe.Base.{
  ℕ, ◌≡◌, refl, sym, subst, ◌⊎◌, ◌≢◌, inl, inr, some, arith, Option-cases, ◌∙◌, ◌==◌, Pointwise,
  Pointwise-refl, Pointwise-trans, modify-Pointwise, modify-Pointwise_all,
}
use pfe.Prisma.{Prisma}
use pfe.Service.{Call}
use pfe.Roles.{AuthUser}
use pfe.Schema.{Db, Booking, find_booking}
use pfe.Booking.Machine.{Operation, approve, reject, perform, Moves, written, HasDistinctIds}
use pfe.Booking.Machine.Writes.{perform-Writes, approve_writes, perform_missing, set_invoice}

Moves-refl : (op : Operation) (a : Booking) → Moves op a a
Moves-refl op a = ground arith

-- What the second write of `approve` keeps.
Moves-set_invoice :
    (op : Operation) (i : ℕ) (a b : Booking) → Moves op a b → Moves op a (set_invoice i b)
Moves-set_invoice op i a b m = ground arith

-- The second write, as a relation.
abbrev Keeps : ℕ → Booking → Booking → Type 0
Keeps i a b = (b ≡ a) ⊎ (b ≡ set_invoice i a)

Moves-set_invoice_after :
    (op : Operation) (i : ℕ) (a b c : Booking) → Moves op a b → Keeps i b c → Moves op a c
Moves-set_invoice_after op i a b c m k = ground arith

pub IsApprove-cases :
    (op : Operation) → ((call : Call) × (op ≡ approve call)) ⊎ ((call : Call) → op ≢ approve call)
IsApprove-cases (approve call) = inl (call, refl)
IsApprove-cases (reject _) = inr (λ call. cc)
IsApprove-cases _ = inr (λ call e. cc)

module _ ⦃P : Prisma⦄ where
  open P use {rows, update, find_first-rows, rows-update}

  writes-Moves :
      (id : ℕ) (op : Operation) (s : Db) (b : Booking)
      → HasDistinctIds s
      → find_booking id s ≡ some b
      → Moves op b (written op b b)
      → Pointwise
          (Moves op)
          (rows s.bookings)
          (rows (update (λ r. r.id == id) (written op b) s.bookings))
  writes-Moves id op s b distinct found m = rw rows-update (
      modify-Pointwise (λ r. r.id) (Moves op) (Moves-refl op) id (written op b) (rows s.bookings) b
        distinct (sym (find_first-rows _ _) ∙ found) m)

  unchanged-Moves :
      (op : Operation) (s s' : Db)
      → s'.bookings ≡ s.bookings
      → Pointwise (Moves op) (rows s.bookings) (rows s'.bookings)
  unchanged-Moves op s s' e = rw e (Pointwise-refl (Moves-refl op) (rows s.bookings))

  approve-Moves :
      (user : AuthUser) (id : ℕ) (call : Call) (s : Db) (b : Booking)
      → HasDistinctIds s
      → find_booking id s ≡ some b
      → Pointwise
          (Moves (approve call))
          (rows s.bookings)
          (rows (perform user id (approve call) s).bookings)
  approve-Moves user id call s b distinct found = elim (approve_writes user id call s b found) [
    | inl same ↦ unchanged-Moves (approve call) s (perform user id (approve call) s) same
    | inr (m, issued) ↦
        let moved = writes-Moves id (approve call) s b distinct found m in
        elim issued [
          | inl e ↦ rw e moved
          | inr e ↦
              rw (e, rows-update)
                (Pointwise-trans
                  (λ a b c. Moves-set_invoice_after (approve call) (call.uuid 0) a b c) moved
                  (modify-Pointwise_all (λ r. r.id) (Keeps (call.uuid 0)) (λ a. inl refl)
                    (λ r. r.id == id) (set_invoice (call.uuid 0)) (λ a. inr refl) _))
        ]
  ]

  -- Each of the nine handlers of the machine (approve, reject, cancel, check in and out, and the four
  -- of the reception desk; `update` is none of them), whoever asks and whatever it returns, takes
  -- every stored booking along the machine: each keeps its id, organisation, user, space, times and
  -- price, and its status stays or moves as `next_status` says. The ids must be distinct.
  pub perform-Moves :
      (user : AuthUser) (id : ℕ) (op : Operation) (s : Db)
      → HasDistinctIds s
      → Pointwise (Moves op) (rows s.bookings) (rows (perform user id op s).bookings)
  perform-Moves user id op s distinct = elim (Option-cases (find_booking id s)) [
    | inl missing ↦
        unchanged-Moves op s (perform user id op s) (perform_missing user id op s missing)
    | inr (b, found) ↦ elim (IsApprove-cases op) [
      | inl (call, e) ↦
          subst (λ o. Pointwise (Moves o) (rows s.bookings) (rows (perform user id o s).bookings))
            (sym e) (approve-Moves user id call s b distinct found)
      | inr other ↦ elim (perform-Writes user id op s b found other) [
        | inl same ↦ unchanged-Moves op s (perform user id op s) same
        | inr (m, e) ↦ rw e (writes-Moves id op s b distinct found m)
      ]
    ]
  ]
