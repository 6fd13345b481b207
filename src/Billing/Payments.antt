-- ===== src/Billing/Payments.antt =====
-- backend/src/billing/billing.service.ts: payments.
use pfe.Base.{
  ℕ, Bool, true, false, not, ◌&&◌, Option, none, some, List, String, str_eq, ◌==◌, if◌then◌else◌,
  or_else, holds_id, is_some, nonempty,
}
use pfe.Prisma.{Prisma}
use pfe.Service.{
  ok, throw, bad_request, internal_error, forbidden, not_found, pure, reads, reads_or, or_throw,
  throw_if, throw_error, writes, run_if, Call, ◌>>=◌, ◌>>◌,
}
use pfe.Roles.{AuthUser, client_billing}
use pfe.Schema.{
  Db, Action, Payment, PaymentStatus, pending, refunded, is_payment, find_payment, find_invoice,
}
use pfe.Billing.Invoices.{
  is_tenant_user, is_client_ops, is_closed, in_portfolio, find_one_invoice, resolve_tenant_scope,
  assert_invoice_readable, update_invoice_status,
}

-- `CreatePaymentDto`, with the alternative spellings of a field made one.
pub record CreatePaymentDto : Type 0 where
  pub tenant_id : ℕ
  pub invoice_id : ℕ
  pub user_id : Option ℕ
  pub recorded_by_id : Option ℕ
  pub method : String
  pub amount : ℕ
  pub payment_date : ℕ
  pub transaction_id : Option String
  pub status : Option PaymentStatus
  pub cheque_document_url : Option String

-- `paymentStatus`
unfoldable pub payment_status : AuthUser → CreatePaymentDto → PaymentStatus
payment_status user dto =
    if is_tenant_user user.role
    then pending
    else if is_payment (or_else dto.status PaymentStatus.completed) pending
    then pending
    else PaymentStatus.completed

unfoldable pub new_payment : Call → AuthUser → CreatePaymentDto → Payment
new_payment call user dto =
    let renter = is_tenant_user user.role in
    let status = payment_status user dto in
    record {
      id = call.uuid 0;
      tenant_id = dto.tenant_id;
      user_id = if renter then some user.id else dto.user_id;
      invoice_id = some dto.invoice_id;
      recorded_by_id = if renter then none else some (or_else dto.recorded_by_id user.id);
      amount = dto.amount;
      method = dto.method;
      status = status;
      transaction_id = dto.transaction_id;
      cheque_document_url = nonempty dto.cheque_document_url;
      payment_date = dto.payment_date;
      paid_at = if is_payment status PaymentStatus.completed then some call.now else none;
    }

-- The row that `refundPayment` writes.
unfoldable pub refunded_payment : Payment → Payment
refunded_payment p = record p { status = refunded }

-- The row that `confirmPayment` writes.
unfoldable pub confirmed_payment : Call → AuthUser → Payment → Payment
confirmed_payment call user p = record p {
  status = PaymentStatus.completed;
  paid_at = some call.now;
  recorded_by_id = some user.id;
}

module _ ⦃P : Prisma⦄ where
  open P use {find_first, find_many, create, update}

  -- The checks of `createPayment` on who pays: a renter pays for its own organisation, and not while
  -- a payment of the invoice waits; anyone else must be of the client's billing roles.
  unfoldable pub check_payer : AuthUser → CreatePaymentDto → Action (Unit {0})
  check_payer user dto =
      if is_tenant_user user.role
      then (do
        throw_if (not (dto.tenant_id == user.tenant_id)) bad_request
        waiting ← reads (λ s.
            find_first (λ p. holds_id p.invoice_id dto.invoice_id && is_payment p.status pending)
              s.payments)
        throw_if (is_some waiting) bad_request)
      else throw_if (not (client_billing user.role)) forbidden

  -- BillingService.createPayment
  unfoldable pub create_payment : Call → AuthUser → CreatePaymentDto → Action Payment
  create_payment call user dto = do
    invoice ← find_one_invoice dto.invoice_id
    throw_if (is_closed invoice.status) bad_request
    check_payer user dto
    let payment = new_payment call user dto
    writes (λ s. record s { payments = create payment s.payments })
    run_if (is_payment payment.status PaymentStatus.completed)
        (update_invoice_status dto.invoice_id)
    pure payment

  -- `findOnePayment`
  unfoldable pub find_one_payment : ℕ → Action Payment
  find_one_payment id = reads_or not_found (find_payment id)

  -- `findOnePaymentForUser`
  unfoldable pub check_payment_invoice : AuthUser → Payment → Action (Unit {0})
  check_payment_invoice user p = elim p.invoice_id [
    | none ↦ pure tt
    | some invoice_id ↦ assert_invoice_readable user invoice_id p.tenant_id
  ]

  unfoldable pub find_one_payment_for_user : AuthUser → ℕ → Action Payment
  find_one_payment_for_user user id = do
    payment ← find_one_payment id
    throw_if (is_tenant_user user.role && not (payment.tenant_id == user.tenant_id)) forbidden
    check_payment_invoice user payment
    pure payment

  abbrev pub update_payment_row : ℕ → (Payment → Payment) → Db → Db
  update_payment_row id f s = record s { payments = update (λ p. p.id == id) f s.payments }

  -- The status of the invoice that a payment names.
  unfoldable pub update_status_of : Option ℕ → Action (Unit {0})
  update_status_of none = pure tt
  update_status_of (some invoice_id) = update_invoice_status invoice_id

  -- BillingService.confirmPayment
  unfoldable pub confirm_payment : Call → AuthUser → ℕ → Action (Unit {0})
  confirm_payment call user id = do
    throw_if (not (client_billing user.role)) bad_request
    payment ← find_one_payment id
    throw_if (not (is_payment payment.status pending)) bad_request
    writes (update_payment_row id (confirmed_payment call user))
    update_status_of payment.invoice_id

  -- The refund of a payment without an invoice fails after the payment was changed.
  unfoldable pub update_status_or_throw : Option ℕ → Action (Unit {0})
  update_status_or_throw none = throw_error internal_error
  update_status_or_throw (some invoice_id) = update_invoice_status invoice_id

  -- BillingService.refundPayment
  unfoldable pub refund_payment : AuthUser → ℕ → Action (Unit {0})
  refund_payment user id = do
    payment ← find_one_payment_for_user user id
    throw_if (not (is_payment payment.status PaymentStatus.completed)) bad_request
    writes (update_payment_row id refunded_payment)
    update_status_or_throw payment.invoice_id

  -- BillingService.uploadChequeDocument. `upload` is the address that UploadService gives the file,
  -- which also deletes the old one.
  unfoldable pub upload_cheque_document : AuthUser → ℕ → Option String → Action (Unit {0})
  upload_cheque_document user payment_id upload = do
    url ← or_throw bad_request upload
    payment ← find_one_payment payment_id
    throw_if (not (str_eq payment.method "CHECK")) bad_request
    throw_if (is_tenant_user user.role && not (payment.tenant_id == user.tenant_id)) forbidden
    throw_if (not (is_tenant_user user.role) && not (client_billing user.role)) forbidden
    writes (update_payment_row payment_id (λ p. record p { cheque_document_url = some url }))

  -- The part of `findAllPayments`'s `where` on `invoice`: the invoice is in the portfolio, and of the
  -- organisation that the list is narrowed to.
  unfoldable pub in_scoped_portfolio : AuthUser → Option ℕ → Db → ℕ → Bool
  in_scoped_portfolio user scoped s invoice_id = elim (find_invoice invoice_id s) [
    | none ↦ false
    | some i ↦ in_portfolio user.tenant_id s i.id && or_else scoped i.tenant_id == i.tenant_id
  ]

  -- The `where` of `findAllPayments`.
  unfoldable pub payment_list_where : AuthUser → Option ℕ → Option ℕ → Db → Payment → Bool
  payment_list_where user scoped invoice_id s p =
      (if is_client_ops user.role
        then elim p.invoice_id [ none ↦ false | some i ↦ in_scoped_portfolio user scoped s i ]
        else or_else scoped p.tenant_id == p.tenant_id)
      && elim invoice_id [ none ↦ true | some i ↦ holds_id p.invoice_id i ]

  -- BillingService.findAllPayments
  unfoldable pub find_all_payments : AuthUser → Option ℕ → Option ℕ → Action (List Payment)
  find_all_payments user tenant_id invoice_id = elim (resolve_tenant_scope user tenant_id) [
    | throw e ↦ throw_error e
    | ok scoped ↦ reads (λ s. find_many (payment_list_where user scoped invoice_id s) s.payments)
  ]
