-- ===== src/Billing/Lines.antt =====
-- backend/src/billing/billing.service.ts: invoices that a user writes, their lines, and the summary.
-- A rate is in millionths of a percent, and a percentage of an amount is rounded down to the step of
-- amounts. A quantity is whole.
use pfe.Base.{
  ℕ, ◌*◌, add_double, times_double, sum_doubles, map, ◌/◌, not, Option, none, some, List, String,
  ◌==◌, or_else, is_some, ℤ, sub_ℕ, length, select, trimmed,
}
use pfe.Prisma.{Prisma}
use pfe.Service.{
  ok, throw, not_found, internal_error, throw_if, pure, reads, reads_or, throw_error, writes,
  run_if, Call, ◌>>=◌, ◌>>◌,
}
use pfe.Roles.{AuthUser}
use pfe.Schema.{
  Db, Action, Invoice, InvoiceLine, words, InvoiceStatus, is_invoice, overdue, invoice_created,
}
use pfe.Billing.FromBooking.{send_both, contact_of}
use pfe.Billing.Invoices.{
  find_one_invoice_for_user, update_invoice_row, invoice_list_where, completed_total, payments_of,
}

-- `x * (rate / 100)`
unfoldable pub percent_of : ℕ → ℕ → ℕ
percent_of rate x = x * rate / 100000000

pub record CreateInvoiceDto : Type 0 where
  pub tenant_id : ℕ
  pub contract_id : Option ℕ
  pub invoice_type : String
  pub issue_date : ℕ
  pub due_date : ℕ
  pub subtotal : ℕ
  pub tax_rate : Option ℕ
  pub tax_amount : Option ℕ
  pub total_amount : ℕ
  pub notes : Option String
  pub status : Option InvoiceStatus

-- The row of `createInvoice`.
unfoldable pub new_invoice : Call → CreateInvoiceDto → Invoice
new_invoice call dto =
    let tax_rate = or_else dto.tax_rate 0 in
    record {
      id = call.uuid 0;
      tenant_id = dto.tenant_id;
      contract_id = dto.contract_id;
      invoice_type = dto.invoice_type;
      subtotal = dto.subtotal;
      tax_rate = tax_rate;
      tax_amount = or_else dto.tax_amount (percent_of tax_rate dto.subtotal);
      total_amount = dto.total_amount;
      issue_date = dto.issue_date;
      due_date = some dto.due_date;
      status = or_else dto.status InvoiceStatus.draft;
      overdue_reminder_max_day = 0;
    }

pub record CreateInvoiceLineDto : Type 0 where
  pub description : String
  pub quantity : ℕ
  pub unit_price : ℕ
  pub tax_rate : Option ℕ

-- The row of `addInvoiceLine`.
unfoldable pub new_line : Call → ℕ → CreateInvoiceLineDto → InvoiceLine
new_line call invoice_id dto =
    let rate = or_else dto.tax_rate 0 in
    let line_total = times_double dto.quantity dto.unit_price in
    record {
      id = call.uuid 0;
      invoice_id = invoice_id;
      description = words dto.description;
      quantity = dto.quantity;
      unit_price = dto.unit_price;
      tax_rate = rate;
      line_total = add_double line_total (percent_of rate line_total);
    }

-- The amounts that `addInvoiceLine` writes from all the lines of the invoice.
unfoldable pub totalled : List InvoiceLine → Invoice → Invoice
totalled lines i =
    let subtotal = sum_doubles 0 (map (λ (l : InvoiceLine). l.line_total) lines) in
    let tax_amount =
      sum_doubles 0 (map (λ (l : InvoiceLine). percent_of l.tax_rate l.line_total) lines) in
    record i {
      subtotal = subtotal;
      tax_amount = tax_amount;
      total_amount = add_double subtotal tax_amount;
    }

-- `UpdateInvoiceDto`: a field that is not given is not written. `notes` names no column of an invoice.
pub record UpdateInvoiceDto : Type 0 where
  pub contract_id : Option ℕ
  pub invoice_type : Option String
  pub issue_date : Option ℕ
  pub due_date : Option ℕ
  pub subtotal : Option ℕ
  pub tax_rate : Option ℕ
  pub tax_amount : Option ℕ
  pub total_amount : Option ℕ
  pub notes : Option String
  pub status : Option InvoiceStatus

unfoldable pub updated_invoice : UpdateInvoiceDto → Invoice → Invoice
updated_invoice dto i = record i {
  contract_id = elim dto.contract_id [ none ↦ i.contract_id | some c ↦ some c ];
  invoice_type = or_else dto.invoice_type i.invoice_type;
  issue_date = or_else dto.issue_date i.issue_date;
  due_date = elim dto.due_date [ none ↦ i.due_date | some d ↦ some d ];
  subtotal = or_else dto.subtotal i.subtotal;
  tax_rate = or_else dto.tax_rate i.tax_rate;
  tax_amount = or_else dto.tax_amount i.tax_amount;
  total_amount = or_else dto.total_amount i.total_amount;
  status = or_else dto.status i.status;
}

pub record FinancialSummary : Type 0 where
  pub total_invoiced : ℕ
  pub total_paid : ℕ
  pub total_pending : ℤ
  pub total_overdue : ℕ
  pub invoice_count : ℕ

module _ ⦃P : Prisma⦄ where
  open P use {find_first, find_many, create, update, delete}

  -- The line that `createInvoice` makes of the notes.
  unfoldable pub create_notes_line : Call → CreateInvoiceDto → Db → Db
  create_notes_line call dto s = elim (trimmed dto.notes) [
    | none ↦ s
    | some notes ↦ record s {
      invoice_lines =
          create
            (record {
              id = call.uuid 1;
              invoice_id = call.uuid 0;
              description = words notes;
              quantity = 1;
              unit_price = dto.total_amount;
              tax_rate = 0;
              line_total = dto.total_amount;
            })
            s.invoice_lines;
    }
  ]

  -- BillingService.createInvoice
  unfoldable pub create_invoice : Call → CreateInvoiceDto → Action Invoice
  create_invoice call dto = do
    let invoice = new_invoice call dto
    writes (λ s. record s { invoices = create invoice s.invoices })
    writes (create_notes_line call dto)
    run_if (not (is_invoice invoice.status InvoiceStatus.draft))
        (writes (λ s. send_both (contact_of dto.tenant_id s) invoice_created invoice.id s))
    pure invoice

  -- BillingService.updateInvoice
  unfoldable pub update_invoice : AuthUser → ℕ → UpdateInvoiceDto → Action (Unit {0})
  update_invoice user id dto = do
    _ ← find_one_invoice_for_user user id
    throw_if (is_some dto.notes) internal_error
    writes (update_invoice_row id (updated_invoice dto))

  -- BillingService.addInvoiceLine
  unfoldable pub add_invoice_line : Call → AuthUser → ℕ → CreateInvoiceLineDto → Action InvoiceLine
  add_invoice_line call user invoice_id dto = do
    _ ← find_one_invoice_for_user user invoice_id
    let line = new_line call invoice_id dto
    writes (λ s. record s { invoice_lines = create line s.invoice_lines })
    all_lines ← reads (λ s. find_many (λ l. l.invoice_id == invoice_id) s.invoice_lines)
    writes (update_invoice_row invoice_id (totalled all_lines))
    pure line

  -- BillingService.removeInvoiceLine
  unfoldable pub remove_invoice_line : AuthUser → ℕ → ℕ → Action (Unit {0})
  remove_invoice_line user invoice_id line_id = do
    _ ← find_one_invoice_for_user user invoice_id
    _ ← reads_or not_found (λ s. find_first (λ l. l.id == line_id) s.invoice_lines)
    writes (λ s. record s { invoice_lines = delete (λ l. l.id == line_id) s.invoice_lines })

  -- BillingService.getFinancialSummary
  unfoldable pub summary_of : Db → List Invoice → FinancialSummary
  summary_of s invoices =
      let total_invoiced = sum_doubles 0 (map (λ (i : Invoice). i.total_amount) invoices) in
      let total_paid =
        sum_doubles 0 (map (λ (i : Invoice). completed_total (payments_of i.id s)) invoices) in
      record {
        total_invoiced = total_invoiced;
        total_paid = total_paid;
        total_pending = sub_ℕ total_invoiced total_paid;
        total_overdue = sum_doubles 0 (
            map (λ (i : Invoice). i.total_amount)
              (select (λ (i : Invoice). is_invoice i.status overdue) invoices));
        invoice_count = length invoices;
      }

  unfoldable pub get_financial_summary : AuthUser → Option ℕ → Action FinancialSummary
  get_financial_summary user tenant_id = elim (invoice_list_where user tenant_id none none) [
    | throw e ↦ throw_error e
    | ok test ↦ reads (λ s. summary_of s (find_many (test s) s.invoices))
  ]
