-- ===== src/Schema/Status.antt =====
-- backend/src/constants/enums.ts: the status constants, and their comparison.
use pfe.Base.{ℕ, Bool, true, false, ◌==◌, str_eq, String}

pub data BookingStatus : Type 0 where
  draft pending_approval pending_phone_confirmation awaiting_physical_visit : BookingStatus
  documents_pending_upload active confirmed checked_in completed cancelled refused : BookingStatus
  no_show : BookingStatus
  unlisted : String → BookingStatus

abbrev booking_code : BookingStatus → ℕ
booking_code draft = 0
booking_code pending_approval = 1
booking_code pending_phone_confirmation = 2
booking_code awaiting_physical_visit = 3
booking_code documents_pending_upload = 4
booking_code active = 5
booking_code confirmed = 6
booking_code checked_in = 7
booking_code completed = 8
booking_code cancelled = 9
booking_code refused = 10
booking_code no_show = 11
booking_code (unlisted _) = 12

-- `status === BOOKING_STATUS.X`, at one of the constants.
abbrev pub is_booking : BookingStatus → BookingStatus → Bool
is_booking a b = booking_code a == booking_code b

-- `===` of two statuses, either of which may be another text.
abbrev pub same_booking : BookingStatus → BookingStatus → Bool
same_booking (unlisted a) (unlisted b) = str_eq a b
same_booking a b = booking_code a == booking_code b

pub data SpaceStatus : Type 0 where
  available occupied reserved maintenance out_of_service : SpaceStatus

abbrev space_code : SpaceStatus → ℕ
space_code available = 0
space_code occupied = 1
space_code reserved = 2
space_code maintenance = 3
space_code out_of_service = 4

abbrev pub is_space_status : SpaceStatus → SpaceStatus → Bool
is_space_status a b = space_code a == space_code b

pub data DocumentType : Type 0 where
  cr_copy qid_copy trade_license signed_lease_contract payment_proof contract cheque : DocumentType
  id_document other : DocumentType

abbrev document_code : DocumentType → ℕ
document_code cr_copy = 0
document_code qid_copy = 1
document_code trade_license = 2
document_code signed_lease_contract = 3
document_code payment_proof = 4
document_code contract = 5
document_code cheque = 6
document_code id_document = 7
document_code other = 8

abbrev pub is_document : DocumentType → DocumentType → Bool
is_document a b = document_code a == document_code b

pub data InvoiceStatus : Type 0 where
  draft issued sent partially_paid paid overdue cancelled : InvoiceStatus
  unlisted : String → InvoiceStatus

abbrev invoice_code : InvoiceStatus → ℕ
invoice_code InvoiceStatus.draft = 0
invoice_code issued = 1
invoice_code sent = 2
invoice_code partially_paid = 3
invoice_code paid = 4
invoice_code overdue = 5
invoice_code InvoiceStatus.cancelled = 6
invoice_code (InvoiceStatus.unlisted _) = 7

abbrev pub is_invoice : InvoiceStatus → InvoiceStatus → Bool
is_invoice a b = invoice_code a == invoice_code b

abbrev pub same_invoice : InvoiceStatus → InvoiceStatus → Bool
same_invoice (InvoiceStatus.unlisted a) (InvoiceStatus.unlisted b) = str_eq a b
same_invoice a b = invoice_code a == invoice_code b

pub data PaymentStatus : Type 0 where
  pending completed failed refunded : PaymentStatus

abbrev payment_code : PaymentStatus → ℕ
payment_code pending = 0
payment_code PaymentStatus.completed = 1
payment_code failed = 2
payment_code refunded = 3

abbrev pub is_payment : PaymentStatus → PaymentStatus → Bool
is_payment a b = payment_code a == payment_code b

pub data DiscountType : Type 0 where
  percentage fixed_amount : DiscountType

abbrev pub is_percentage : DiscountType → Bool
is_percentage percentage = true
is_percentage fixed_amount = false

-- The column `billing_cycle`, in upper case.
pub data BillingCycle : Type 0 where
  hourly daily weekly monthly quarterly yearly one_time : BillingCycle

-- `ticket_open` is OPEN.
pub data TicketStatus : Type 0 where
  ticket_open assigned in_progress resolved closed cancelled : TicketStatus
  unlisted : String → TicketStatus

abbrev ticket_code : TicketStatus → ℕ
ticket_code ticket_open = 0
ticket_code assigned = 1
ticket_code in_progress = 2
ticket_code resolved = 3
ticket_code closed = 4
ticket_code TicketStatus.cancelled = 5
ticket_code (TicketStatus.unlisted _) = 6

abbrev pub is_ticket : TicketStatus → TicketStatus → Bool
is_ticket a b = ticket_code a == ticket_code b

abbrev pub same_ticket : TicketStatus → TicketStatus → Bool
same_ticket (TicketStatus.unlisted a) (TicketStatus.unlisted b) = str_eq a b
same_ticket a b = ticket_code a == ticket_code b

pub data ApplicationStatus : Type 0 where
  pending accepted refused : ApplicationStatus

abbrev application_code : ApplicationStatus → ℕ
application_code ApplicationStatus.pending = 0
application_code accepted = 1
application_code ApplicationStatus.refused = 2

abbrev pub is_application : ApplicationStatus → ApplicationStatus → Bool
is_application a b = application_code a == application_code b
