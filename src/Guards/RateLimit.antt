-- ===== src/Guards/RateLimit.antt =====
-- backend/src/common/guards/rate-limit.guard.ts: RateLimitGuard. The store is a list of the keys, each
-- with the moments of its requests.
pub mod Bound
use pfe.Base.{
  ℕ, ◌-◌, Bool, true, false, not, Option, none, some, String, str_eq, List, [], ◌∷◌, ◌++◌, ltb, leb,
  ◌==◌, select, length, if◌then◌else◌,
}

pub record Entry : Type 0 where
  pub key : String
  pub requests : List ℕ

-- `store.get(key) || []`
unfoldable pub recorded : String → List Entry → List ℕ
recorded key [] = []
recorded key (e ∷ es) = if str_eq e.key key then e.requests else recorded key es

-- `store.set(key, requests)`
unfoldable pub record_all : String → List ℕ → List Entry → List Entry
record_all key requests [] = record { key = key; requests = requests } ∷ []
record_all key requests (e ∷ es) =
    let rest = record_all key requests es in
    if str_eq e.key key then record { key = key; requests = requests } ∷ es else e ∷ rest

-- The requests that have not expired.
unfoldable pub valid_requests : ℕ → ℕ → List ℕ → List ℕ
valid_requests window now requests = select (λ t. ltb (now - t) window) requests

-- `limit || 100` and `window || 60000`
unfoldable pub or_default : ℕ → ℕ → ℕ
or_default n default = if n == 0 then default else n

-- RateLimitGuard.canActivate: whether the request passes, and the store after it.
unfoldable pub can_activate : ℕ → ℕ → String → ℕ → List Entry → Bool × List Entry
unfolding recorded record_all valid_requests or_default
can_activate limit window key now store =
    let valid = valid_requests (or_default window 60000) now (recorded key store) in
    if leb (or_default limit 100) (length valid)
    then (false, store)
    else (true, record_all key (valid ++ (now ∷ [])) store)

-- The store and the moments at which requests passed, after requests of a client at some moments.
unfoldable pub run : ℕ → ℕ → String → List ℕ → List Entry → List ℕ → List Entry × List ℕ
unfolding can_activate
run limit window key [] store passed = (store, passed)
run limit window key (now ∷ later) store passed =
    let (passes, after) = can_activate limit window key now store in
    run limit window key later after (if passes then now ∷ passed else passed)
