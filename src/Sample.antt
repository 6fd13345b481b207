-- ===== src/Sample.antt =====
-- A small database on which the examples of the other files run: a landlord (organisation 1) with a
-- building, and a renter (organisation 2) with bookings, an invoice and its payments.
use pfe.Base.{ℕ, ◌+◌, ◌*◌, ◌^◌, true, false, none, some, List, [], ◌∷◌}
use pfe.Memory.{memory}
use pfe.Service.{Call}
use pfe.Roles.{AuthUser, client_admin, finance, tenant_admin}
use pfe.Schema.{
  Db, Space, Building, Floor, Tenant, available, Booking, BookingStatus, Invoice, InvoiceStatus,
  sent, Payment, PaymentStatus, pending, PromotionCode, percentage,
}

abbrev pub landlord : AuthUser
landlord = record { id = 10; tenant_id = 1; role = client_admin }

abbrev pub renter : AuthUser
renter = record { id = 20; tenant_id = 2; role = tenant_admin }

abbrev pub accountant : AuthUser
accountant = record { id = 11; tenant_id = 1; role = finance }

-- A call at a moment, whose ids start at a number.
abbrev pub call_at : ℕ → ℕ → Call
call_at moment first = record { now = moment; uuid = λ k. first + k; number = "BK-1" }

abbrev pub office : Space
office = record {
  id = 300;
  floor_id = 200;
  name = "Office 1";
  slug = "office-1";
  space_type = "OFFICE";
  status = available;
  monthly_rate = some 500;
  is_listed = false;
  requires_approval = true;
  is_published = true;
  address = some "1 Main Street";
  city = some "Doha";
  country = some "Qatar";
  map_lat = some 25;
  map_lng = some 51;
}

abbrev pub tower : Building
tower = record {
  id = 100;
  tenant_id = 1;
  name = "Tower";
  slug = "tower";
  address = none;
  total_floors_in_building = none;
  year_built = none;
  status = "ACTIVE";
}

abbrev pub ground_floor : Floor
ground_floor = record {
  id = 200;
  building_id = 100;
  name = "Ground Floor";
  floor_number = 2 ^ 31 + 1;
  status = "ACTIVE";
}

abbrev pub renter_company : Tenant
renter_company = record {
  id = 2;
  name = "Renter";
  slug = "renter";
  contact_email = some "renter@example.com";
}

abbrev pub booking_as : ℕ → BookingStatus → Booking
booking_as id status = record {
  id = id;
  tenant_id = 2;
  user_id = 20;
  space_id = 300;
  invoice_id = none;
  receptionist_id = none;
  booking_number = "BK-1";
  start_time = 1000 * id;
  end_time = 1000 * id + 500;
  status = status;
  total_amount = 900;
  total_price = none;
  notes = none;
  created_at = 0;
}

abbrev pub invoice_as : ℕ → InvoiceStatus → Invoice
invoice_as total status = record {
  id = 500;
  tenant_id = 2;
  contract_id = none;
  invoice_type = "BOOKING";
  subtotal = total;
  tax_rate = 0;
  tax_amount = 0;
  total_amount = total;
  issue_date = 0;
  due_date = some 0;
  status = status;
  overdue_reminder_max_day = 0;
}

abbrev pub payment_as : PaymentStatus → Payment
payment_as status = record {
  id = 600;
  tenant_id = 2;
  user_id = some 20;
  invoice_id = some 500;
  recorded_by_id = none;
  amount = 900;
  method = "CASH";
  status = status;
  transaction_id = none;
  cheque_document_url = none;
  payment_date = 0;
  paid_at = none;
}

abbrev pub summer : PromotionCode
summer = record {
  id = 700;
  tenant_id = 1;
  code = "SUMMER";
  description = none;
  discount = 20000000;
  discount_type = percentage;
  valid_from = none;
  valid_until = some 5000;
  max_uses = some 1;
  used_count = 0;
  is_active = true;
}

-- The database with some bookings, an invoice and payments.
abbrev pub db_of : List Booking → Invoice → List Payment → Db
db_of bookings invoice payments = record {
  tenants = renter_company ∷ [];
  users = [];
  buildings = tower ∷ [];
  floors = ground_floor ∷ [];
  spaces = office ∷ [];
  bookings = bookings;
  booking_addons = [];
  booking_documents = [];
  addon_services = [];
  space_addons = [];
  invoices = invoice ∷ [];
  invoice_lines = [];
  payments = payments;
  promotion_codes = summer ∷ [];
  lease_contracts = [];
  booking_applications = [];
  application_addons = [];
  tenant_applications = [];
  space_features = [];
  maintenance_tickets = [];
  notifications = [];
  mails = [];
}

abbrev pub sample : Db
sample =
    db_of (record (booking_as 400 BookingStatus.confirmed) { invoice_id = some 500 } ∷ [])
      (invoice_as 900 sent) (payment_as pending ∷ [])
