-- ===== src/Billing/Tests.antt =====
-- backend/src/billing/billing.service.ts: examples.
use pfe.Base.{
  sum_doubles, add_double, rounded, ◌+◌, ◌*◌, List, ◌≤◌, ◌≡◌, refl, true, none, some, [], ◌∷◌, All,
}
use pfe.Memory.{memory}
use pfe.Service.{ok, Call}
use pfe.Billing.FromBooking.{contact_of}
use pfe.Schema.{Db, Invoice, sent, overdue, PaymentStatus, floor_owner, space_owner, building_owner}
use pfe.Sample.{landlord, renter, call_at, sample, db_of, invoice_as}
use pfe.Billing.Invoices
use pfe.Billing.Payments
use pfe.Billing.Settlement.{received_with}
use pfe.Billing.Scope.{find_all_invoices-readable}
use pfe.Billing.Reminders.{remind_at, reminders_in, tiers_after, remind_at-mails}

-- The payment is all that the invoice asks for.
pays_in_full : received_with 500 600 sample ≡ 900
unfolding sum_doubles add_double rounded
pays_in_full = refl

listed :
    Invoices.find_all_invoices landlord none none none sample
    ≡ (ok (invoice_as 900 sent ∷ []), sample)
unfolding Invoices.find_all_invoices Invoices.invoice_list_where Invoices.resolve_tenant_scope
    Invoices.in_portfolio Invoices.is_tenant_user Invoices.is_client_ops space_owner floor_owner
    building_owner
listed = refl

find_all_invoices-readable_example :
    All
      (λ (i : Invoice).
        Invoices.assert_invoice_readable landlord i.id i.tenant_id sample ≡ (ok tt, sample))
      (invoice_as 900 sent ∷ [])
find_all_invoices-readable_example =
    find_all_invoices-readable landlord none none none sample _ listed

abbrev cash : Payments.CreatePaymentDto
cash = record {
  tenant_id = 2;
  invoice_id = 500;
  user_id = none;
  recorded_by_id = none;
  method = "CASH";
  amount = 900;
  payment_date = 0;
  transaction_id = none;
  status = some PaymentStatus.completed;
  cheque_document_url = none;
}

is_renter : Invoices.is_tenant_user renter.role ≡ true
unfolding Invoices.is_tenant_user
is_renter = refl

abbrev late : Db
late = db_of [] (invoice_as 900 overdue) []

-- Four runs.
abbrev runs : List Call
runs = call_at 100000000 0 ∷ call_at 900000000 0 ∷ call_at 1300000000 0 ∷ call_at 1400000000 0 ∷ []

remind_at-mails_example : reminders_in 500 (remind_at runs late).mails ≤ 0 + 2 * tiers_after 0
remind_at-mails_example = remind_at-mails 500 runs late (invoice_as 900 overdue) (tt, tt) refl

-- Three tiers are reached, with two mails each.
six_mails : reminders_in 500 (remind_at runs late).mails ≡ 6
unfolding Invoices.send_overdue_reminders Invoices.send_reminders Invoices.send_overdue_reminder
    Invoices.choose_tier contact_of
six_mails = refl
