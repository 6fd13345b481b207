-- ===== src/Booking/Workflow.antt =====
-- backend/src/booking/booking.service.ts: the reception workflow, from the phone call to the signed
-- contract, and the documents of a booking.
use pfe.Base.{
  ℕ, Bool, false, not, ◌&&◌, ◌||◌, Option, none, some, String, ◌==◌, leb, or_else, trimmed,
  nonempty, first_of_texts, holds_id, is_some,
}
use Prim.Native.String
use pfe.Prisma.{Prisma}
use pfe.Service.{
  bad_request, forbidden, not_found, pure, reads, reads_or, throw_if, writes, Call, ◌>>=◌, ◌>>◌,
}
use pfe.Roles.{AuthUser, is_role, receptionist}
use pfe.Schema.{
  Action, Booking, BookingDocument, DocumentType, booking_cancelled, booking_finalized,
  visit_instructions, pending_phone_confirmation, awaiting_physical_visit, documents_pending_upload,
  active, refused, is_booking, is_document, signed_lease_contract, contract, other, available,
  reserved,
}
use pfe.Billing.{send}
use pfe.Booking.Rules.{
  is_workflow_staff, pick_receptionist, renter_email, update_booking, update_space,
}
use pfe.Booking.Review.{is_approver, find_one_for_user}

-- `notes` when nobody answered.
unfoldable pub unreachable_notes : Option String → String
unreachable_notes reason = elim (trimmed reason) [
  | none ↦ "Tenant unreachable by phone — booking refused"
  | some text ↦ String.◌++◌ "Phone unreachable: " text
]

-- The call of a booking that is another receptionist's.
unfoldable pub is_assigned_to_other : AuthUser → Booking → Bool
is_assigned_to_other user b =
    is_role user.role receptionist
    && is_some b.receptionist_id
    && not (holds_id b.receptionist_id user.id)

-- The row of a document, with its name: the given one, or else the file's own.
unfoldable pub new_document :
    Call
    → AuthUser
    → ℕ
    → String
    → Option String
    → Option DocumentType
    → Option String
    → BookingDocument
new_document call user booking_id upload original_name document_type file_name = record {
  id = call.uuid 0;
  booking_id = booking_id;
  file_url = upload;
  file_name = or_else (first_of_texts (trimmed file_name) (nonempty original_name)) "document.pdf";
  document_type = or_else document_type other;
  uploaded_by = user.id;
}

-- The document types that count as the signed contract.
unfoldable pub is_contract_document : ℕ → BookingDocument → Bool
is_contract_document booking_id d =
    d.booking_id == booking_id
    && (is_document d.document_type signed_lease_contract || is_document d.document_type contract)

module _ ⦃P : Prisma⦄ where
  open P use {create, delete, find_first, count}

  -- BookingService.confirmPhoneCall
  unfoldable pub confirm_phone_call : AuthUser → ℕ → Action (Unit {0})
  confirm_phone_call user id = do
    throw_if (not (is_workflow_staff user.role)) forbidden
    booking ← find_one_for_user user id
    throw_if (not (is_booking booking.status pending_phone_confirmation)) bad_request
    throw_if (is_assigned_to_other user booking) forbidden
    writes (update_booking id (λ b. record b { status = awaiting_physical_visit }))
    writes (λ s. send (renter_email booking s) visit_instructions id s)

  -- BookingService.markPhoneUnreachable: the space is released and the booking refused.
  unfoldable pub mark_phone_unreachable : AuthUser → ℕ → Option String → Action (Unit {0})
  mark_phone_unreachable user id reason = do
    throw_if (not (is_workflow_staff user.role)) forbidden
    booking ← find_one_for_user user id
    throw_if (not (is_booking booking.status pending_phone_confirmation)) bad_request
    writes (update_space booking.space_id (λ x. record x { status = available }))
    writes (
        update_booking id
          (λ b. record b { status = refused; notes = some (unreachable_notes reason) }))
    writes (λ s. send (renter_email booking s) booking_cancelled id s)

  -- BookingService.markDocumentsPending
  unfoldable pub mark_documents_pending : AuthUser → ℕ → Action (Unit {0})
  mark_documents_pending user id = do
    throw_if (not (is_workflow_staff user.role)) forbidden
    booking ← find_one_for_user user id
    throw_if (not (is_booking booking.status awaiting_physical_visit)) bad_request
    writes (update_booking id (λ b. record b { status = documents_pending_upload }))

  -- BookingService.addDocument. `upload` is the address that UploadService gives the file, and
  -- `original_name` the name that the file came with.
  unfoldable pub add_document :
      Call
      → AuthUser
      → ℕ
      → String
      → Option String
      → Option DocumentType
      → Option String
      → Action BookingDocument
  add_document call user booking_id upload original_name document_type file_name = do
    throw_if (not (is_workflow_staff user.role)) forbidden
    booking ← find_one_for_user user booking_id
    stored ← reads (λ s. count (λ d. d.booking_id == booking_id) s.booking_documents)
    throw_if (leb 5 stored) bad_request
    let doc = new_document call user booking_id upload original_name document_type file_name
    writes (λ s. record s { booking_documents = create doc s.booking_documents })
    pure doc

  -- BookingService.removeDocument. The stored file is deleted by UploadService.
  unfoldable pub remove_document : AuthUser → ℕ → ℕ → Action (Unit {0})
  remove_document user booking_id document_id = do
    throw_if (not (is_workflow_staff user.role)) forbidden
    booking ← find_one_for_user user booking_id
    doc ← reads_or not_found (λ s.
        find_first (λ d. d.id == document_id && d.booking_id == booking_id) s.booking_documents)
    writes (λ s. record s {
      booking_documents = delete (λ d. d.id == document_id) s.booking_documents;
    })

  -- BookingService.finalizeBooking: the space is reserved and leaves the public map.
  unfoldable pub finalize_booking : AuthUser → ℕ → Action (Unit {0})
  finalize_booking user id = do
    throw_if (not (is_approver user.role)) forbidden
    booking ← find_one_for_user user id
    throw_if (not (is_booking booking.status documents_pending_upload)) bad_request
    contract_doc ←
        reads_or bad_request (λ s. find_first (is_contract_document id) s.booking_documents)
    writes
        (update_space booking.space_id (λ x. record x { status = reserved; is_published = false }))
    writes (update_booking id (λ b. record b { status = active }))
    writes (λ s. send (renter_email booking s) booking_finalized id s)

  -- BookingService.assignReceptionistForLandlord
  unfoldable pub assign_receptionist_for_landlord : ℕ → Action (Option ℕ)
  assign_receptionist_for_landlord landlord_tenant_id = reads (pick_receptionist landlord_tenant_id)
