-- ===== src/Billing/FromBooking.antt =====
-- backend/src/billing/billing.service.ts: `generateInvoiceFromBooking`.
use pfe.Base.{
  ℕ, ◌+◌, ◌*◌, add_double, times_double, Option, none, some, List, [], ◌∷◌, ◌++◌, ◌==◌, or_else,
  suc, String, nonempty,
}
use pfe.Prisma.{Prisma}
use pfe.Service.{not_found, pure, reads, reads_or, writes, Call, ◌>>=◌, ◌>>◌}
use pfe.Schema.{
  Db, Action, Booking, BookingAddOn, Invoice, InvoiceLine, space_rental, addon_line, issued,
  MailKind, invoice_notice, invoice_sequence, find_booking, find_tenant,
}

-- `due_date`: thirty days from now.
abbrev pub thirty_days_ms : ℕ
thirty_days_ms = 30 * 24 * 60 * 60 * 1000

abbrev pub line_of_addon : ℕ → ℕ → BookingAddOn → InvoiceLine
line_of_addon id invoice_id a = record {
  id = id;
  invoice_id = invoice_id;
  description = addon_line a.addon_service_id a.quantity;
  quantity = a.quantity;
  unit_price = a.unit_price;
  tax_rate = 0;
  line_total = times_double a.quantity a.unit_price;
}

-- The loop over `booking.addOns`: the k-th line takes the id `uuid k`.
unfoldable pub addon_lines : (ℕ → ℕ) → ℕ → ℕ → List BookingAddOn → List InvoiceLine
addon_lines uuid k invoice_id [] = []
addon_lines uuid k invoice_id (a ∷ rest) =
    line_of_addon (uuid k) invoice_id a ∷ addon_lines uuid (suc k) invoice_id rest

-- `totalAmount` after the loop.
unfoldable pub total_with_addons : ℕ → List BookingAddOn → ℕ
total_with_addons total [] = total
total_with_addons total (a ∷ rest) =
    total_with_addons (add_double total (times_double a.quantity a.unit_price)) rest

-- `lineItems`: the space first, then the add-ons.
unfoldable pub booking_lines : (ℕ → ℕ) → ℕ → Booking → List BookingAddOn → List InvoiceLine
unfolding addon_lines
booking_lines uuid invoice_id b addons =
    record {
      id = uuid 1;
      invoice_id = invoice_id;
      description = space_rental b.space_id;
      quantity = 1;
      unit_price = or_else b.total_price 0;
      tax_rate = 0;
      line_total = or_else b.total_price 0;
    }
    ∷ addon_lines uuid 2 invoice_id addons

unfoldable pub booking_invoice : Call → Booking → List BookingAddOn → Invoice
unfolding total_with_addons
booking_invoice call b addons =
    let total = total_with_addons (or_else b.total_price 0) addons in
    record {
      id = call.uuid 0;
      tenant_id = b.tenant_id;
      contract_id = none;
      invoice_type = "MONTHLY_RENT";
      subtotal = total;
      tax_rate = 0;
      tax_amount = 0;
      total_amount = total;
      issue_date = call.now;
      due_date = some (call.now + thirty_days_ms);
      status = issued;
      overdue_reminder_max_day = 0;
    }

module _ ⦃P : Prisma⦄ where
  open P use {create, find_many}

  -- Nested `create` of several rows.
  unfoldable pub create_all : {R : Type 0} → List R → P.Table R → P.Table R
  create_all [] t = t
  create_all (r ∷ rs) t = create_all rs (create r t)

  -- The address of an organisation that has one.
  unfoldable pub contact_of : ℕ → Db → Option String
  contact_of tenant_id s = elim (find_tenant tenant_id s) [
    | none ↦ none
    | some t ↦ nonempty t.contact_email
  ]

  -- A mail to an address, if there is one.
  abbrev pub send : Option String → MailKind → ℕ → Db → Db
  send none kind about s = s
  send (some address) kind about s = record s {
    mails = s.mails ++ (record { recipient = address; kind = kind; about = about } ∷ []);
  }

  -- The mail of an invoice, and EmailSequenceService's `sendInvoiceGenerated`.
  abbrev pub send_both : Option String → MailKind → ℕ → Db → Db
  send_both to kind about s = send to invoice_sequence about (send to kind about s)

  unfoldable pub generate_invoice_from_booking : Call → ℕ → Action Invoice
  unfolding booking_invoice booking_lines create_all contact_of
  generate_invoice_from_booking call booking_id = do
    booking ← reads_or not_found (find_booking booking_id)
    addons ← reads (λ s. find_many (λ a. a.booking_id == booking_id) s.booking_addons)
    let invoice = booking_invoice call booking addons
    writes (λ s. record s {
      invoices = create invoice s.invoices;
      invoice_lines =
          create_all (booking_lines call.uuid invoice.id booking addons) s.invoice_lines;
    })
    writes (λ s. send_both (contact_of booking.tenant_id s) invoice_notice invoice.id s)
    pure invoice
