-- ===== src/Billing/Invoices.antt =====
-- backend/src/billing/billing.service.ts: invoices, their scope, and their status after payments.
use pfe.Base.{
  ℕ, ◌-◌, ◌/◌, Bool, false, not, ◌&&◌, ◌||◌, Option, none, some, List, [], ◌∷◌, String, str_eq,
  ◌==◌, ltb, leb, if◌then◌else◌, or_else, holds_id, is_some, any, select, sum_doubles, map,
}
use pfe.Prisma.{Prisma}
use pfe.Service.{
  Result, ok, throw, bad_request, internal_error, forbidden, not_found, pure, reads, reads_or,
  throw_if, throw_error, writes, run_if, Call, ◌>>=◌, ◌>>◌,
}
use pfe.Roles.{
  Role, AuthUser, is_role, client_admin, manager, finance, tenant_admin, tenant_employee,
}
use pfe.Schema.{
  Db, Action, Invoice, InvoiceStatus, issued, sent, partially_paid, paid, overdue, is_invoice,
  same_invoice, Payment, PaymentStatus, is_payment, invoice_created, invoice_paid, invoice_overdue,
  overdue_sequence, find_invoice, space_owner,
}
use pfe.Billing.FromBooking.{send, send_both, contact_of}

-- `isClientOps`
unfoldable pub is_client_ops : Role → Bool
is_client_ops role = is_role role client_admin || is_role role manager || is_role role finance

-- `isTenantUser`
unfoldable pub is_tenant_user : Role → Bool
is_tenant_user role = is_role role tenant_admin || is_role role tenant_employee

-- `resolveTenantScope`: the organisation that a list is narrowed to, if any.
unfoldable pub resolve_tenant_scope : AuthUser → Option ℕ → Result (Option ℕ)
unfolding is_client_ops is_tenant_user
resolve_tenant_scope user tenant_id =
    if is_tenant_user user.role
    then if is_some tenant_id && not (holds_id tenant_id user.tenant_id)
      then throw forbidden
      else ok (some user.tenant_id)
    else if is_client_ops user.role
    then if is_some tenant_id && not (holds_id tenant_id user.tenant_id)
      then ok tenant_id
      else ok none
    else ok tenant_id

-- `totalPaid`: the completed payments, added up in their order.
unfoldable pub completed_total : List Payment → ℕ
completed_total payments = sum_doubles 0 (
    map (λ (p : Payment). p.amount)
      (select (λ p. is_payment p.status PaymentStatus.completed) payments))

-- `newStatus`
unfoldable pub new_status : InvoiceStatus → ℕ → ℕ → InvoiceStatus
new_status status total_paid total =
    if leb total total_paid then paid else if ltb 0 total_paid then partially_paid else status

-- `chosen`: the first of the tiers 1, 7 and 14 that is due and was not sent. A day is never past
-- the first tier before the due date.
unfoldable pub choose_tier : List ℕ → ℕ → ℕ → Option ℕ
choose_tier [] days_overdue max_sent = none
choose_tier (tier ∷ tiers) days_overdue max_sent =
    if leb tier days_overdue && ltb max_sent tier
    then some tier
    else choose_tier tiers days_overdue max_sent

abbrev pub tiers : List ℕ
tiers = 1 ∷ 7 ∷ 14 ∷ []

-- The statuses that `sendInvoice` sends from, and those that `cancelInvoice` and `createPayment`
-- refuse.
unfoldable pub is_sendable : InvoiceStatus → Bool
is_sendable status = is_invoice status issued || is_invoice status InvoiceStatus.draft

unfoldable pub is_closed : InvoiceStatus → Bool
is_closed status = is_invoice status paid || is_invoice status InvoiceStatus.cancelled

-- The row that `updateInvoiceStatus` writes: a paid invoice starts its reminders anew.
unfoldable pub settled_invoice : ℕ → Invoice → Invoice
settled_invoice total_paid i =
    let status = new_status i.status total_paid i.total_amount in
    record i {
      status = status;
      overdue_reminder_max_day = if is_invoice status paid then 0 else i.overdue_reminder_max_day;
    }

module _ ⦃P : Prisma⦄ where
  open P use {find_first, find_many, create, update, delete, count}

  -- `portfolioInvoiceWhere`: some booking with the invoice is in a building of the client.
  unfoldable pub in_portfolio : ℕ → Db → ℕ → Bool
  in_portfolio client_tenant_id s invoice_id = ltb 0 (
      count
        (λ b.
          holds_id b.invoice_id invoice_id && holds_id (space_owner b.space_id s) client_tenant_id)
        s.bookings)

  -- The payments of an invoice.
  unfoldable pub payments_of : ℕ → Db → List Payment
  payments_of invoice_id s = find_many (λ p. holds_id p.invoice_id invoice_id) s.payments

  -- `buildInvoiceListWhere`
  unfoldable pub invoice_list_where :
      AuthUser → Option ℕ → Option InvoiceStatus → Option String → Result (Db → Invoice → Bool)
  invoice_list_where user tenant_id status type = elim (resolve_tenant_scope user tenant_id) [
    | throw e ↦ throw e
    | ok scoped ↦ ok (λ s i.
        (not (is_client_ops user.role) || in_portfolio user.tenant_id s i.id)
        && or_else scoped i.tenant_id == i.tenant_id
        && same_invoice (or_else status i.status) i.status
        && str_eq (or_else type i.invoice_type) i.invoice_type)
  ]

  -- `assertInvoiceReadable`
  unfoldable pub assert_invoice_readable : AuthUser → ℕ → ℕ → Action (Unit {0})
  assert_invoice_readable user invoice_id tenant_id = do
    throw_if (is_tenant_user user.role && not (tenant_id == user.tenant_id)) forbidden
    allowed ← reads (λ s. in_portfolio user.tenant_id s invoice_id)
    throw_if (is_client_ops user.role && not allowed) forbidden

  -- `findOneInvoice`
  unfoldable pub find_one_invoice : ℕ → Action Invoice
  find_one_invoice id = reads_or not_found (find_invoice id)

  -- `findOneInvoiceForUser`
  unfoldable pub find_one_invoice_for_user : AuthUser → ℕ → Action Invoice
  find_one_invoice_for_user user id = do
    invoice ← find_one_invoice id
    assert_invoice_readable user invoice.id invoice.tenant_id
    pure invoice

  abbrev pub update_invoice_row : ℕ → (Invoice → Invoice) → Db → Db
  update_invoice_row id f s = record s { invoices = update (λ i. i.id == id) f s.invoices }

  -- `findAllInvoices`
  unfoldable pub find_all_invoices :
      AuthUser → Option ℕ → Option InvoiceStatus → Option String → Action (List Invoice)
  find_all_invoices user tenant_id status type =
      elim (invoice_list_where user tenant_id status type) [
        | throw e ↦ throw_error e
        | ok test ↦ reads (λ s. find_many (test s) s.invoices)
      ]

  -- BillingService.removeInvoice, with what the schema does to the rows that name the invoice.
  unfoldable pub remove_invoice : AuthUser → ℕ → Action (Unit {0})
  remove_invoice user id = do
    invoice ← find_one_invoice_for_user user id
    writes (λ s. record s {
      invoices = delete (λ i. i.id == id) s.invoices;
      invoice_lines = delete (λ l. l.invoice_id == id) s.invoice_lines;
      payments =
          update (λ p. holds_id p.invoice_id id) (λ p. record p { invoice_id = none }) s.payments;
      bookings =
          update (λ b. holds_id b.invoice_id id) (λ b. record b { invoice_id = none }) s.bookings;
    })

  -- BillingService.sendInvoice
  unfoldable pub send_invoice : AuthUser → ℕ → Action (Unit {0})
  send_invoice user id = do
    invoice ← find_one_invoice_for_user user id
    throw_if (not (is_sendable invoice.status)) bad_request
    writes (update_invoice_row id (λ i. record i { status = sent }))
    writes (λ s. send_both (contact_of invoice.tenant_id s) invoice_created id s)

  -- BillingService.cancelInvoice
  unfoldable pub cancel_invoice : AuthUser → ℕ → Action (Unit {0})
  cancel_invoice user id = do
    invoice ← find_one_invoice_for_user user id
    throw_if (is_closed invoice.status) bad_request
    writes (update_invoice_row id (λ i. record i { status = InvoiceStatus.cancelled }))

  -- `updateInvoiceStatus`, on the invoice as it is stored with its payments.
  unfoldable pub update_invoice_status : ℕ → Action (Unit {0})
  update_invoice_status invoice_id = do
    invoice ← reads_or internal_error (find_invoice invoice_id)
    total_paid ← reads (λ s. completed_total (payments_of invoice_id s))
    writes (update_invoice_row invoice_id (settled_invoice total_paid))
    run_if (is_invoice (new_status invoice.status total_paid invoice.total_amount) paid)
        (writes (λ s. send (contact_of invoice.tenant_id s) invoice_paid invoice_id s))

  -- The `where` of `getOverdueInvoices`.
  unfoldable pub is_overdue : ℕ → Invoice → Bool
  is_overdue now i =
      elim i.due_date [ none ↦ false | some due ↦ ltb due now ] && not (is_closed i.status)

  -- BillingService.getOverdueInvoices: the rows as they were found, which are then marked.
  unfoldable pub get_overdue_invoices : Call → AuthUser → Option ℕ → Action (List Invoice)
  get_overdue_invoices call user tenant_id = elim (invoice_list_where user tenant_id none none) [
    | throw e ↦ throw_error e
    | ok test ↦ do
      found ← reads (λ s. find_many (λ i. test s i && is_overdue call.now i) s.invoices)
      writes (λ s. record s {
        invoices =
            update (λ i. any (λ f. f.id == i.id) found && not (is_invoice i.status overdue))
              (λ i. record i { status = overdue }) s.invoices;
      })
      pure found
  ]

  -- The body of the loop of `sendOverdueReminders`: the reminder of MailService, the one of
  -- EmailSequenceService, and the tier that they were sent for.
  unfoldable pub send_overdue_reminder : ℕ → Invoice → Db → Db
  send_overdue_reminder now i s = elim (contact_of i.tenant_id s) [
    | none ↦ s
    | some address ↦ elim i.due_date [
      | none ↦ s
      | some due ↦ elim (choose_tier tiers ((now - due) / 86400000) i.overdue_reminder_max_day) [
        | none ↦ s
        | some tier ↦
            update_invoice_row i.id (λ r. record r { overdue_reminder_max_day = tier })
              (send (some address) overdue_sequence i.id
                (send (some address) invoice_overdue i.id s))
      ]
    ]
  ]

  unfoldable pub send_reminders : ℕ → List Invoice → Db → Db
  send_reminders now [] s = s
  send_reminders now (i ∷ is) s = send_reminders now is (send_overdue_reminder now i s)

  -- BillingService.sendOverdueReminders, where every mail is delivered and the task of each invoice
  -- ends before the next run.
  unfoldable pub send_overdue_reminders : Call → Db → Db
  send_overdue_reminders call s =
      send_reminders call.now
        (find_many
          (λ i.
            is_invoice i.status overdue
            && elim i.due_date [ none ↦ false | some due ↦ ltb due call.now ])
          s.invoices)
        s
