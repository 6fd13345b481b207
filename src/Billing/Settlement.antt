-- ===== src/Billing/Settlement.antt =====
-- backend/src/billing/billing.service.ts: the payments of an invoice decide its status.
use pfe.Base.{ℕ, ◌≤◌, ◌≡◌, ◌⊎◌, List, ◌==◌, select, map, sum_doubles, ◌||◌, holds_id}
use pfe.Prisma.{Prisma}
use pfe.Schema.{Db, Invoice, paid, Payment, PaymentStatus, is_payment}
use pfe.Billing.Invoices
use pfe.Billing.Payments

-- The completed payments of invoice `n` among some payments.
abbrev paid_for : ℕ → List Payment → ℕ
paid_for n xs = Invoices.completed_total (select (λ (p : Payment). holds_id p.invoice_id n) xs)

-- The payments of invoice `n` that were completed, and payment `id` in its place among them, added up.
abbrev paid_with : ℕ → ℕ → List Payment → ℕ
paid_with n id xs = sum_doubles 0 (
    map (λ (p : Payment). p.amount)
      (select (λ p. is_payment p.status PaymentStatus.completed || p.id == id)
        (select (λ (p : Payment). holds_id p.invoice_id n) xs)))

-- When an invoice is paid once `received` has come in.
abbrev pub IsPaidBy : ℕ → Invoice → Type 0
IsPaidBy received i = (i.total_amount ≤ received) ⊎ ((i.status ≡ paid) × (received ≡ 0))

module _ ⦃P : Prisma⦄ where
  open P use {rows, create}

  -- What the invoice has received.
  abbrev pub received : ℕ → Db → ℕ
  received n s = paid_for n (rows s.payments)

  -- What the invoice has received once a payment is completed too.
  abbrev pub received_with : ℕ → ℕ → Db → ℕ
  received_with n id s = paid_with n id (rows s.payments)
