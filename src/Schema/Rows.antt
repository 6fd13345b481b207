-- ===== src/Schema/Rows.antt =====
-- backend/prisma/schema.prisma: the models, by the columns that the services use.
use pfe.Base.{ℕ, Bool, Option, String, List}
use pfe.Prisma.{Prisma}
use pfe.Service.{Result}
use pfe.Roles.{Role}
use pfe.Schema.Status.{
  BookingStatus, SpaceStatus, DocumentType, InvoiceStatus, PaymentStatus, DiscountType,
  BillingCycle, TicketStatus, ApplicationStatus,
}

pub record Tenant : Type 0 where
  pub id : ℕ
  pub name : String
  pub slug : String
  pub contact_email : Option String

pub record User : Type 0 where
  pub id : ℕ
  pub tenant_id : ℕ
  pub role : Role
  pub email : Option String
  pub phone_number : Option String
  pub is_active : Bool  -- `status === 'ACTIVE'`
  pub created_at : ℕ

pub record Building : Type 0 where
  pub id : ℕ
  pub tenant_id : ℕ
  pub name : String
  pub slug : String
  pub address : Option String
  pub total_floors_in_building : Option ℕ
  pub year_built : Option ℕ
  pub status : String

-- `floor_number` counts from the least number of the column, so that floor 1 is 2 ^ 31 + 1.
pub record Floor : Type 0 where
  pub id : ℕ
  pub building_id : ℕ
  pub name : String
  pub floor_number : ℕ
  pub status : String

-- A latitude or a longitude is a number, since it is only tested for being there.
pub record Space : Type 0 where
  pub id : ℕ
  pub floor_id : ℕ
  pub name : String
  pub slug : String
  pub space_type : String
  pub status : SpaceStatus
  pub monthly_rate : Option ℕ
  pub is_listed : Bool
  pub requires_approval : Bool
  pub is_published : Bool
  pub address : Option String
  pub city : Option String
  pub country : Option String
  pub map_lat : Option ℕ
  pub map_lng : Option ℕ

pub record SpaceFeature : Type 0 where
  pub space_id : ℕ
  pub name : String
  pub description : Option String

pub record Booking : Type 0 where
  pub id : ℕ
  pub tenant_id : ℕ
  pub user_id : ℕ
  pub space_id : ℕ
  pub invoice_id : Option ℕ
  pub receptionist_id : Option ℕ
  pub booking_number : String
  pub start_time : ℕ
  pub end_time : ℕ
  pub status : BookingStatus
  pub total_amount : ℕ
  pub total_price : Option ℕ
  pub notes : Option String
  pub created_at : ℕ

pub record BookingAddOn : Type 0 where
  pub id : ℕ
  pub booking_id : ℕ
  pub addon_service_id : ℕ
  pub quantity : ℕ
  pub unit_price : ℕ

pub record BookingDocument : Type 0 where
  pub id : ℕ
  pub booking_id : ℕ
  pub file_url : String
  pub file_name : String
  pub document_type : DocumentType
  pub uploaded_by : ℕ

pub record AddOnService : Type 0 where
  pub id : ℕ
  pub tenant_id : ℕ
  pub name : String
  pub price : ℕ
  pub billing_cycle : BillingCycle
  pub is_active : Bool

pub record SpaceAddOnService : Type 0 where
  pub space_id : ℕ
  pub addon_service_id : ℕ

pub record Invoice : Type 0 where
  pub id : ℕ
  pub tenant_id : ℕ
  pub contract_id : Option ℕ
  pub invoice_type : String
  pub subtotal : ℕ
  pub tax_rate : ℕ
  pub tax_amount : ℕ
  pub total_amount : ℕ
  pub issue_date : ℕ
  pub due_date : Option ℕ
  pub status : InvoiceStatus
  pub overdue_reminder_max_day : ℕ

-- What an invoice line is for; the service makes a sentence of the first two.
pub data LineDescription : Type 0 where
  space_rental : ℕ → LineDescription
  addon_line : ℕ → ℕ → LineDescription
  words : String → LineDescription

pub record InvoiceLine : Type 0 where
  pub id : ℕ
  pub invoice_id : ℕ
  pub description : LineDescription
  pub quantity : ℕ
  pub unit_price : ℕ
  pub tax_rate : ℕ
  pub line_total : ℕ

pub record Payment : Type 0 where
  pub id : ℕ
  pub tenant_id : ℕ
  pub user_id : Option ℕ
  pub invoice_id : Option ℕ
  pub recorded_by_id : Option ℕ
  pub amount : ℕ
  pub method : String
  pub status : PaymentStatus
  pub transaction_id : Option String
  pub cheque_document_url : Option String
  pub payment_date : ℕ
  pub paid_at : Option ℕ

pub record PromotionCode : Type 0 where
  pub id : ℕ
  pub tenant_id : ℕ
  pub code : String
  pub description : Option String
  pub discount : ℕ
  pub discount_type : DiscountType
  pub valid_from : Option ℕ
  pub valid_until : Option ℕ
  pub max_uses : Option ℕ
  pub used_count : ℕ
  pub is_active : Bool

pub record LeaseContract : Type 0 where
  pub id : ℕ
  pub tenant_id : ℕ
  pub user_id : Option ℕ
  pub start_date : ℕ
  pub end_date : ℕ
  pub monthly_rent : ℕ
  pub status : String

pub record BookingApplication : Type 0 where
  pub id : ℕ
  pub space_id : ℕ
  pub user_id : Option ℕ
  pub guest_name : Option String
  pub guest_email : Option String
  pub guest_phone : Option String
  pub applicant_type : String
  pub company_name : Option String
  pub start_date : ℕ
  pub duration_months : ℕ
  pub message : Option String
  pub status : ApplicationStatus
  pub reviewed_by_id : Option ℕ
  pub reviewed_at : Option ℕ
  pub refusal_reason : Option String
  pub booking_id : Option ℕ

pub record BookingApplicationAddOn : Type 0 where
  pub id : ℕ
  pub application_id : ℕ
  pub addon_service_id : ℕ
  pub quantity : ℕ
  pub unit_price : ℕ

-- By the columns that the removal of a space changes.
pub record TenantApplication : Type 0 where
  pub id : ℕ
  pub space_id : Option ℕ

pub record MaintenanceTicket : Type 0 where
  pub id : ℕ
  pub tenant_id : ℕ
  pub space_id : Option ℕ
  pub booking_id : Option ℕ
  pub user_id : Option ℕ
  pub created_by_user_id : Option ℕ
  pub title : String
  pub description : Option String
  pub category : String
  pub priority : String
  pub status : TicketStatus
  pub assigned_to : Option ℕ
  pub cost : Option ℕ
  pub resolved_at : Option ℕ

pub record Notification : Type 0 where
  pub tenant_id : ℕ
  pub user_id : ℕ
  pub notification_type : String
  pub title : String

pub data MailKind : Type 0 where
  booking_confirmed booking_cancelled visit_instructions booking_finalized : MailKind
  invoice_notice invoice_created invoice_paid invoice_overdue : MailKind
  invoice_sequence overdue_sequence : MailKind
  contract_notice contract_expiring : MailKind
  application_submitted application_received application_accepted application_refused : MailKind
  password_reset : MailKind
  maintenance_created urgent_ticket ticket_created maintenance_status : MailKind

-- A mail handed to MailService; `about` is the row that it names.
pub record Mail : Type 0 where
  pub recipient : String
  pub kind : MailKind
  pub about : ℕ

module _ ⦃P : Prisma⦄ where
  open P use {Table}

  -- The database, and the mails sent.
  pub record Db : Type 0 where
    pub tenants : Table Tenant
    pub users : Table User
    pub buildings : Table Building
    pub floors : Table Floor
    pub spaces : Table Space
    pub bookings : Table Booking
    pub booking_addons : Table BookingAddOn
    pub booking_documents : Table BookingDocument
    pub addon_services : Table AddOnService
    pub space_addons : Table SpaceAddOnService
    pub invoices : Table Invoice
    pub invoice_lines : Table InvoiceLine
    pub payments : Table Payment
    pub promotion_codes : Table PromotionCode
    pub lease_contracts : Table LeaseContract
    pub booking_applications : Table BookingApplication
    pub application_addons : Table BookingApplicationAddOn
    pub tenant_applications : Table TenantApplication
    pub space_features : Table SpaceFeature
    pub maintenance_tickets : Table MaintenanceTicket
    pub notifications : Table Notification
    pub mails : List Mail

  abbrev pub Action : Type 0 → Type 0
  Action A = Db → Result A × Db
