-- ===== src/Billing/Scope.antt =====
-- backend/src/billing/billing.service.ts: who sees which invoices, and who pays.
use pfe.Base.{
  ℕ, ◌≡◌, ◌≢◌, ◌⊎◌, inl, inr, refl, sym, Bool, true, false, ◌==◌, Option, some, String, arith,
  Bool-cases, All, All-map,
}
use pfe.Prisma.{Prisma}
use pfe.Service.{Result-cases, ok, throw, bad_request, Call, final}
use pfe.Roles.{AuthUser, client_billing}
use pfe.Schema.{Db, Invoice, InvoiceStatus, find_invoice}
use pfe.Tables.{find_many-All}
use pfe.Billing.Invoices
use pfe.Billing.Payments

module _ ⦃P : Prisma⦄ where
  open P use {find_many}

  listed_readable :
      (user : AuthUser) (tenant_id : Option ℕ) (status : Option InvoiceStatus)
      (type : Option String) (test : Db → Invoice → Bool) (s : Db) (i : Invoice)
      → Invoices.invoice_list_where user tenant_id status type ≡ ok test
      → test s i ≡ true
      → Invoices.assert_invoice_readable user i.id i.tenant_id s ≡ (ok tt, s)
  unfolding Invoices.invoice_list_where Invoices.resolve_tenant_scope
      Invoices.assert_invoice_readable Invoices.is_client_ops Invoices.is_tenant_user
  listed_readable user tenant_id status type test s i scope passes = ground arith

  -- Every invoice that `findAllInvoices` lists to a user passes `assertInvoiceReadable` for that user.
  pub find_all_invoices-readable :
      (user : AuthUser) (tenant_id : Option ℕ) (status : Option InvoiceStatus)
      (type : Option String) (s : Db) (found : _)
      → Invoices.find_all_invoices user tenant_id status type s ≡ (ok found, s)
      → All (λ i. Invoices.assert_invoice_readable user i.id i.tenant_id s ≡ (ok tt, s)) found
  unfolding Invoices.find_all_invoices
  find_all_invoices-readable user tenant_id status type s found listed =
      elim (Result-cases (Invoices.invoice_list_where user tenant_id status type)) [
        | inl (test, scope) ↦
            let rows_found : find_many (test s) s.invoices ≡ found = ground arith in
            rw (sym rows_found) (
              All-map (λ i passes. listed_readable user tenant_id status type test s i scope passes)
                _ (find_many-All (test s) s.invoices))
        | inr (e, refused) ↦ ground arith
      ]

  -- A renter's own payment settles nothing: whichever way `createPayment` ends, every invoice, every
  -- line and every mail is as it was.
  pub create_payment-renter :
      (call : Call) (user : AuthUser) (dto : Payments.CreatePaymentDto) (s : Db)
      → Invoices.is_tenant_user user.role ≡ true
      → (let after = final (Payments.create_payment call user dto s) in
          (after.invoices ≡ s.invoices)
          × (after.invoice_lines ≡ s.invoice_lines)
          × (after.mails ≡ s.mails))
  unfolding Payments.create_payment Payments.check_payer Payments.payment_status
      Payments.new_payment Invoices.find_one_invoice
  create_payment-renter call user dto s renter = ground arith

  check_payer_other :
      (user : AuthUser) (dto : Payments.CreatePaymentDto) (s : Db)
      → Invoices.is_tenant_user user.role ≡ true
      → dto.tenant_id ≢ user.tenant_id
      → Payments.check_payer user dto s ≡ (throw bad_request, s)
  unfolding Payments.check_payer
  check_payer_other user dto s renter other =
      let differs : (dto.tenant_id == user.tenant_id) ≡ false = ground arith in
      rw (renter, differs) refl

  -- Nothing is written for a payment of an invoice that is paid or cancelled, by a renter for another
  -- organisation, or by whoever is neither a renter nor of the client's billing.
  pub create_payment_refused :
      (call : Call) (user : AuthUser) (dto : Payments.CreatePaymentDto) (s : Db) (i : Invoice)
      → find_invoice dto.invoice_id s ≡ some i
      → (Invoices.is_closed i.status ≡ true)
        ⊎ ((Invoices.is_tenant_user user.role ≡ true) × (dto.tenant_id ≢ user.tenant_id))
        ⊎ ((Invoices.is_tenant_user user.role ≡ false) × (client_billing user.role ≡ false))
      → final (Payments.create_payment call user dto s) ≡ s
  unfolding Payments.create_payment Payments.check_payer Invoices.find_one_invoice
  create_payment_refused call user dto s i found (inl closed) = ground arith
  create_payment_refused call user dto s i found (inr (inl (renter, other))) =
      let barred = check_payer_other user dto s renter other in
      elim (Bool-cases (Invoices.is_closed i.status)) [
        | inl closed ↦ ground arith
        | inr unclosed ↦ ground arith
      ]
  create_payment_refused call user dto s i found (inr (inr (stranger, unbilled))) =
      elim (Bool-cases (Invoices.is_closed i.status)) [
        | inl closed ↦ ground arith
        | inr unclosed ↦ ground arith
      ]
