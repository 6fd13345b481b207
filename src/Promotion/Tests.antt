-- ===== src/Promotion/Tests.antt =====
-- backend/src/promotion-code/promotion-code.service.ts: examples.
use pfe.Base.{ℕ, ◌≡◌, ◌<◌, refl, true, false, none, some, List, [], ◌∷◌, arith, pos}
use pfe.Memory.{memory}
use pfe.Service.{ok, final}
use pfe.Schema.{PromotionCode}
use pfe.Sample.{landlord, call_at, sample, summer}
use pfe.Promotion
use pfe.Promotion.Redeem.{reading, consuming, Step, Redemptions, IsSafe, run, run-IsSafe}
use pfe.Promotion.Owners.{HasUniqueCodes, apply-own}
use pfe.Promotion.Unique.{updating, edit, edit-HasUniqueCodes}

abbrev at_start : Redemptions
at_start = record { db = sample; waiting = [] }

-- Two requests read the last use before either consumes it.
abbrev race : List Step
race =
    reading (call_at 10 0) landlord "SUMMER"
    ∷ reading (call_at 11 0) landlord "SUMMER"
    ∷ consuming 0
    ∷ consuming 1
    ∷ []

run-IsSafe_example : IsSafe (run race at_start)
run-IsSafe_example = run-IsSafe race at_start ((tt, tt), (λ m h. ground arith, tt), tt)

abbrev no_change : Promotion.UpdatePromotionCodeDto
no_change = record {
  code = none;
  description = none;
  discount_type = none;
  discount = none;
  max_uses = none;
  valid_from = none;
  valid_until = none;
  is_active = some false;
}

abbrev rename : Promotion.UpdatePromotionCodeDto
rename = record no_change { code = some "WINTER" }

edit-HasUniqueCodes_example : HasUniqueCodes (edit landlord (updating 700 rename) sample)
edit-HasUniqueCodes_example =
    edit-HasUniqueCodes landlord (updating 700 rename) sample (λ text e. e) (tt, tt) (tt, tt)

applies : Promotion.apply (call_at 10 0) landlord "SUMMER" (pos 100000000) sample ≡ (
  ok (Promotion.applied summer 100000000),
  final (Promotion.apply (call_at 10 0) landlord "SUMMER" (pos 100000000) sample),
)
unfolding Promotion.apply Promotion.validate Promotion.find_by_code Promotion.is_running
    Promotion.is_below Promotion.consume Promotion.is_consumable Promotion.scope_for
applies = refl

apply-own_example :
    (p : PromotionCode) × ((Promotion.validate (call_at 10 0) landlord "SUMMER" sample).0 ≡ ok p)
    × (p.tenant_id ≡ 1)
    × (p.code ≡ "SUMMER")
    × (Promotion.is_running 10 p ≡ true)
    × ((m : ℕ) → p.max_uses ≡ some m → p.used_count < m)
apply-own_example =
    apply-own (call_at 10 0) landlord "SUMMER" (pos 100000000) sample _ _ (λ e. ground arith)
      applies
