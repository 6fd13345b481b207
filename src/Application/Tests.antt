-- ===== src/Application/Tests.antt =====
-- backend/src/booking-application/booking-application.service.ts: examples.
use pfe.Base.{◌+◌, ◌*◌, ◌%◌, ◌≤◌, ◌<◌, ◌≡◌, refl, true, none, some, [], ◌∷◌, arith, All}
use pfe.Memory.{memory}
use pfe.Service.{ok, final, Call}
use pfe.Roles.{AuthUser, client_admin}
use pfe.Schema.{
  Db, User, BookingApplication, find_application, space_owner, floor_owner, building_owner,
}
use pfe.Sample.{sample, call_at, office, landlord}
use pfe.Application.Calendar.{
  first_of_month, month_of, day_of_month, day_of, add_months, add_months_le, add_months-month_of,
}
use pfe.Application.Requests
use pfe.Application.Requests.{CreateBookingApplicationDto, create_application}
use pfe.Application.Review
use pfe.Application.Decided.{accepting, refusing, decide, decide_once, accept-own}
use pfe.Application.Pending.{
  HasOnePending, create_application-HasOnePending, find_all_for_user-opens,
}

-- A month after the 31st of January 2026 it is the 3rd of March.
january_31 : add_months (86400000 * 20484) 1 ≡ 86400000 * 20515
unfolding add_months
january_31 = refl

-- A year after the 29th of February 2024 it is the 1st of March 2025.
leap_day : add_months (86400000 * 19782 + 5) 12 ≡ 86400000 * 20148 + 5
unfolding add_months
leap_day = refl

add_months_le_example : 86400000 * 20484 + 28 * 86400000 * 6 ≤ add_months (86400000 * 20484) 6
add_months_le_example = add_months_le (86400000 * 20484) 6

july_fits :
    first_of_month (month_of (day_of (86400000 * 20484)) + 6)
      + day_of_month (day_of (86400000 * 20484))
    < first_of_month (month_of (day_of (86400000 * 20484)) + 6 + 1)
unfolding first_of_month month_of day_of_month
july_fits = omega arith

-- Half a year after the 31st of January 2026 it is the 31st of July.
add_months-month_of_example :
    (month_of (day_of (add_months (86400000 * 20484) 6)) ≡ month_of (day_of (86400000 * 20484)) + 6)
    × (day_of_month (day_of (add_months (86400000 * 20484) 6))
        ≡ day_of_month (day_of (86400000 * 20484)))
    × (add_months (86400000 * 20484) 6 % 86400000 ≡ 86400000 * 20484 % 86400000)
add_months-month_of_example = add_months-month_of (86400000 * 20484) 6 july_fits

-- An administrator of a third organisation.
abbrev outsider : AuthUser
outsider = record { id = 30; tenant_id = 3; role = client_admin }

abbrev outsider_row : User
outsider_row = record {
  id = 30;
  tenant_id = 3;
  role = client_admin;
  email = some "outsider@example.com";
  phone_number = none;
  is_active = true;
  created_at = 0;
}

abbrev request : CreateBookingApplicationDto
request = record {
  space_id = 300;
  start_date = 86400000 * 20484;
  duration_months = 6;
  message = none;
  addons = [];
}

abbrev application : BookingApplication
application = Requests.new_application (call_at 1000 900) outsider request

abbrev applied : Db
applied = record sample { users = outsider_row ∷ []; booking_applications = application ∷ [] }

abbrev now : Call
now = call_at 2000 1000

abbrev later : Call
later = call_at 2000 1100

abbrev account : Call
account = call_at 2000 1200

refused_once :
    (decide landlord "landlord@example.com" 900 (refusing now (some "Taken")) applied).0 ≡ ok tt
unfolding decide Review.refuse Review.find_pending Review.find_one_for_user Review.may_open
    Review.is_manager Review.is_applicant Review.refuse_pending Requests.new_application space_owner
    floor_owner building_owner
refused_once = refl

decide_once_example :
    final (
      decide landlord "landlord@example.com" 900
        (accepting now account later)
        (final (decide landlord "landlord@example.com" 900 (refusing now (some "Taken")) applied)))
    ≡ final (decide landlord "landlord@example.com" 900 (refusing now (some "Taken")) applied)
decide_once_example =
    decide_once landlord landlord "landlord@example.com" "landlord@example.com" 900
      (refusing now (some "Taken")) (accepting now account later) applied refused_once

accept-own_example :
    find_application 900
      (final (Review.accept now account later outsider "outsider@example.com" 900 applied))
    ≡ some (Review.accepted_application now 30 1000 30 application)
unfolding Requests.new_application
accept-own_example =
    accept-own now account later outsider "outsider@example.com" 900 applied application office
      outsider_row refl refl refl refl refl refl

create_application-HasOnePending_example :
    HasOnePending (final (create_application now outsider request applied))
create_application-HasOnePending_example =
    create_application-HasOnePending now outsider request applied (tt, tt)

find_all_for_user-opens_example :
    All
      (λ (a : BookingApplication).
        Review.may_open landlord "landlord@example.com" (space_owner a.space_id applied) a ≡ true)
      (Review.find_all_for_user landlord "landlord@example.com" none applied)
unfolding Review.is_manager
find_all_for_user-opens_example =
    find_all_for_user-opens landlord "landlord@example.com" none applied refl
