-- ===== src/Guards/RateLimit/Bound.antt =====
-- backend/src/common/guards/rate-limit.guard.ts: how many requests pass.
use pfe.Base.{
  ℕ, ◌-◌, ◌≤◌, ◌<◌, ◌≡◌, refl, inl, inr, String, eq_refl, List, [], ◌∷◌, ◌++◌, arith, ltb, leb,
  select, length, length-append, Bool-cases,
}
use pfe.Guards.RateLimit.{
  Entry, recorded, record_all, valid_requests, or_default, can_activate, run,
}

-- The moments go forward from a moment.
abbrev pub GoesForward : ℕ → List ℕ → Type 0
GoesForward clock [] = Unit
GoesForward clock (now ∷ later) = (clock ≤ now) × GoesForward now later

-- The last moment.
abbrev pub end_of : ℕ → List ℕ → ℕ
end_of clock [] = clock
end_of clock (now ∷ later) = end_of now later

recorded-record_all :
    (key : String) (requests : List ℕ) (es : List Entry)
    → recorded key (record_all key requests es) ≡ requests
unfolding recorded record_all
recorded-record_all key requests [] = rw (eq_refl key) refl
recorded-record_all key requests (e ∷ es) =
    ground (arith, eq_refl key, recorded-record_all key requests es)

-- How many of some moments lie within the window that ends at a moment.
abbrev pub within : ℕ → ℕ → List ℕ → ℕ
within window t moments = length (select (λ a. ltb (t - a) window) moments)

within_le : (window t : ℕ) (moments : List ℕ) → within window t moments ≤ length moments
within_le window t [] = omega arith
within_le window t (a ∷ moments) = ground (arith, within_le window t moments)

-- Requests that have expired by a moment are in no window that ends later.
within-valid_requests :
    (window now t : ℕ) (moments : List ℕ)
    → now ≤ t
    → within window t (valid_requests window now moments) ≡ within window t moments
unfolding valid_requests
within-valid_requests window now t [] le = refl
within-valid_requests window now t (a ∷ moments) le =
    ground (arith, within-valid_requests window now t moments le)

within-append_one :
    (window t now : ℕ) (moments : List ℕ)
    → within window t (moments ++ (now ∷ [])) ≡ within window t (now ∷ moments)
within-append_one window t now [] = refl
within-append_one window t now (a ∷ moments) =
    ground (arith, within-append_one window t now moments)

-- The store has no more moments than the limit, and as many in a window as passed in it.
record IsTracked (limit window : ℕ) (key : String) (clock : ℕ) (store : List Entry)
    (passed : List ℕ) : Type 0 where
  bounded : length (recorded key store) ≤ or_default limit 100
  tracked :
      (t : ℕ)
      → clock ≤ t
      → within (or_default window 60000) t (recorded key store)
        ≡ within (or_default window 60000) t passed

IsTracked-later :
    (limit window : ℕ) (key : String) (clock now : ℕ) (store : List Entry) (passed : List ℕ)
    → clock ≤ now
    → IsTracked limit window key clock store passed
    → IsTracked limit window key now store passed
IsTracked-later limit window key clock now store passed le h = record {
  bounded = h.bounded;
  tracked = λ t later. h.tracked t (omega arith);
}

IsTracked-passed :
    (limit window : ℕ) (key : String) (now : ℕ) (store : List Entry) (passed : List ℕ)
    → length (valid_requests (or_default window 60000) now (recorded key store))
      < or_default limit 100
    → IsTracked limit window key now store passed
    → IsTracked limit window key now
        (record_all key
          (valid_requests (or_default window 60000) now (recorded key store) ++ (now ∷ []))
          store)
        (now ∷ passed)
IsTracked-passed limit window key now store passed room h =
    let w = or_default window 60000 in
    let valid = valid_requests w now (recorded key store) in
    record {
      bounded =
          rw (recorded-record_all key (valid ++ (now ∷ [])) store)
            (omega (arith, length-append valid (now ∷ []), room));
      tracked = λ t later.
          rw (recorded-record_all key (valid ++ (now ∷ [])) store, within-append_one w t now valid)
            (ground
              (arith, within-valid_requests w now t (recorded key store) later, h.tracked t later));
    }

run-IsTracked :
    (limit window : ℕ) (key : String) (clock : ℕ) (moments : List ℕ) (store : List Entry)
    (passed : List ℕ)
    → GoesForward clock moments
    → IsTracked limit window key clock store passed
    → IsTracked limit window key
        (end_of clock moments)
        (run limit window key moments store passed).0
        (run limit window key moments store passed).1
unfolding run can_activate
run-IsTracked limit window key clock [] store passed forward h = h
run-IsTracked limit window key clock (now ∷ later) store passed (le, forward) h =
    let valid = valid_requests (or_default window 60000) now (recorded key store) in
    let here = IsTracked-later limit window key clock now store passed le h in
    elim (Bool-cases (leb (or_default limit 100) (length valid))) [
      | inl full ↦
          rw (run, can_activate, full)
            (run-IsTracked limit window key now later store passed forward here)
      | inr room ↦
          rw (run, can_activate, room)
            (run-IsTracked limit window key now later (record_all key (valid ++ (now ∷ [])) store)
              (now ∷ passed) forward
              (IsTracked-passed limit window key now store passed (ground arith) here))
    ]

-- Whenever a client's requests come, no window that ends after them has more that passed than the
-- limit, or than 100 where none is set. The clock must not go back.
pub run-within_limit :
    (limit window : ℕ) (key : String) (moments : List ℕ) (t : ℕ)
    → GoesForward 0 moments
    → end_of 0 moments ≤ t
    → within (or_default window 60000) t (run limit window key moments [] []).1
      ≤ or_default limit 100
unfolding recorded
run-within_limit limit window key moments t forward later =
    let start : IsTracked limit window key 0 [] [] = record {
      bounded = ground arith;
      tracked = λ t later. refl;
    } in
    let h = run-IsTracked limit window key 0 moments [] [] forward start in
    let store = (run limit window key moments [] []).0 in
    omega (
      arith,
      h.bounded,
      h.tracked t later,
      within_le (or_default window 60000) t (recorded key store),
    )
