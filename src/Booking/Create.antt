-- ===== src/Booking/Create.antt =====
-- backend/src/booking/booking.service.ts: `create`.
pub mod Writes
use pfe.Base.{
  ℕ, add_double, Bool, true, false, not, ◌&&◌, ◌||◌, Option, none, some, List, [], ◌∷◌, map, ◌==◌,
  suc, if◌then◌else◌, or_else,
}
use pfe.Prisma.{Prisma}
use pfe.Service.{
  Result, forbidden, not_found, pure, reads, reads_or, throw_if, writes, run_if, Call, ◌>>=◌, ◌>>◌,
}
use pfe.Roles.{AuthUser, is_role, super_admin, finance, tenant_employee}
use pfe.Schema.{
  Db, Action, Booking, BookingAddOn, BookingStatus, Space, MailKind, booking_confirmed,
  pending_approval, confirmed, is_booking, find_space,
}
use pfe.Pricing.{duration_months}
use pfe.Billing.{create_all, send}
use pfe.Booking.Rules.{
  ApplicationAddon, ResolvedAddon, addons_total, is_portal_booker, check_availability,
  resolve_booking_addons, issue_booking_invoice, notify_approvers, resolve_booking_recipient_email,
}

-- `CreateBookingDto`, as `create` reads it. The dates are checked by the request pipe.
pub record CreateBookingDto : Type 0 where
  pub tenant_id : ℕ
  pub space_id : ℕ
  pub created_by_user_id : ℕ
  pub start_time : ℕ
  pub end_time : ℕ
  pub total_price : ℕ
  pub status : Option BookingStatus
  pub addons : List ApplicationAddon

-- The first two throws of `create`: only the platform owner and FINANCE book for another
-- organisation, and an employee books only as themself.
unfoldable pub create_refused : AuthUser → CreateBookingDto → Bool
create_refused user dto =
    not (is_role user.role super_admin)
    && not (is_role user.role finance)
    && (not (dto.tenant_id == user.tenant_id)
        || (is_role user.role tenant_employee && not (dto.created_by_user_id == user.id)))

-- `finalStatus`
unfoldable pub initial_status : AuthUser → CreateBookingDto → Space → BookingStatus
unfolding is_portal_booker
initial_status user dto space =
    if is_portal_booker user.role
    then pending_approval
    else or_else dto.status (if space.requires_approval then pending_approval else confirmed)

-- The row of the new booking, with the id `uuid 0`.
unfoldable pub new_booking :
    Call → AuthUser → CreateBookingDto → Space → List ResolvedAddon → Booking
unfolding initial_status addons_total
new_booking call user dto space addons = record {
  id = call.uuid 0;
  tenant_id = dto.tenant_id;
  user_id = dto.created_by_user_id;
  space_id = dto.space_id;
  invoice_id = none;
  receptionist_id = none;
  booking_number = call.number;
  start_time = dto.start_time;
  end_time = dto.end_time;
  status = initial_status user dto space;
  total_amount = add_double dto.total_price (addons_total addons);
  total_price = some dto.total_price;
  notes = none;
  created_at = call.now;
}

-- The nested rows, with the ids that follow.
unfoldable pub addon_rows : (ℕ → ℕ) → ℕ → ℕ → List ResolvedAddon → List BookingAddOn
addon_rows uuid k booking_id [] = []
addon_rows uuid k booking_id (a ∷ rest) =
    record {
      id = uuid k;
      booking_id = booking_id;
      addon_service_id = a.addon_service_id;
      quantity = a.quantity;
      unit_price = a.unit_price;
    }
    ∷ addon_rows uuid (suc k) booking_id rest

module _ ⦃P : Prisma⦄ where
  open P use {create}

  unfoldable pub insert_booking : Call → Booking → List ResolvedAddon → Db → Db
  insert_booking call b addons s = record s {
    bookings = create b s.bookings;
    booking_addons = create_all (addon_rows call.uuid 1 b.id addons) s.booking_addons;
  }

  -- What follows the insertion: the invoice or the approvers, and the mail. `later` is the call as
  -- the invoice sees it.
  unfoldable pub after_insert : Call → Booking → Action (Unit {0})
  after_insert later b = do
    run_if (is_booking b.status confirmed) (issue_booking_invoice later b.id)
    run_if (is_booking b.status pending_approval) (writes (notify_approvers b))
    run_if (is_booking b.status confirmed)
        (writes (λ s. send (resolve_booking_recipient_email b s) booking_confirmed b.id s))

  -- BookingService.create
  unfoldable pub create_booking : Call → Call → AuthUser → CreateBookingDto → Action Booking
  create_booking call later user dto = do
    throw_if (create_refused user dto) forbidden
    space ← reads_or not_found (find_space dto.space_id)
    check_availability dto.space_id dto.start_time dto.end_time none
    addons ←
        resolve_booking_addons dto.space_id (duration_months dto.start_time dto.end_time) dto.addons
    let booking = new_booking call user dto space addons
    writes (insert_booking call booking addons)
    after_insert later booking
    pure booking
