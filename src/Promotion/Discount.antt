-- ===== src/Promotion/Discount.antt =====
-- backend/src/promotion-code/promotion-code.service.ts: what a code takes off an amount.
use pfe.Base.{ℕ, ◌+◌, ◌-◌, ◌%◌, ◌≤◌, ◌≡◌, inl, inr, arith, Bool-cases}
use pfe.Schema.{PromotionCode, is_percentage}
use pfe.Promotion

to_cents_total :
    (a x : ℕ)
    → x ≤ a
    → a % 10000 ≡ 0
    → (Promotion.to_cents x ≤ a)
      × (Promotion.to_cents x + Promotion.to_cents (a - Promotion.to_cents x) ≡ a)
unfolding Promotion.to_cents
to_cents_total a x h cents = (omega arith, omega arith)

-- A discount never adds to an amount in whole cents, and what is paid and what is saved make up the
-- amount.
pub applied_total :
    (p : PromotionCode) (amount : ℕ)
    → amount % 10000 ≡ 0
    → (let result = Promotion.applied p amount in
        (result.discounted_amount ≤ amount) × (result.discounted_amount + result.saved ≡ amount))
unfolding Promotion.applied Promotion.final_amount
applied_total p amount cents = elim (Bool-cases (is_percentage p.discount_type)) [
  | inl percent ↦ rw percent (to_cents_total amount _ (omega arith) cents)
  | inr fixed ↦ rw fixed (to_cents_total amount _ (omega arith) cents)
]
