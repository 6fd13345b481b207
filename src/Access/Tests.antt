-- ===== src/Access/Tests.antt =====
-- backend/src/common/services/access-policy.service.ts: examples.
use pfe.Base.{◌≡◌, ◌↔◌, refl, true, none, some}
use pfe.Memory.{memory}
use pfe.Service.{ok}
use pfe.Schema.{find_booking, space_owner, BookingStatus}
use pfe.Sample.{landlord, sample, office, tower, booking_as}
use pfe.Access.{
  assert_building_readable, assert_booking_readable, space_where_for_list, building_where_for_list,
}
use pfe.Access.Isolation.{
  MayReadBooking, Shows, assert_booking_readable_iff, building_where_for_list-readable,
}

assert_booking_readable_iff_example :
    (assert_booking_readable landlord 400 sample
      ≡ (ok (record (booking_as 400 BookingStatus.confirmed) { invoice_id = some 500 }), sample))
    ↔ ((find_booking 400 sample
          ≡ some (record (booking_as 400 BookingStatus.confirmed) { invoice_id = some 500 }))
        × MayReadBooking landlord
            (record (booking_as 400 BookingStatus.confirmed) { invoice_id = some 500 })
            (space_owner 300 sample))
assert_booking_readable_iff_example =
    assert_booking_readable_iff landlord 400 sample
      (record (booking_as 400 BookingStatus.confirmed) { invoice_id = some 500 })

shown : space_where_for_list landlord none none none sample office ≡ true
unfolding space_where_for_list
shown = refl

building_where_for_list-readable_example :
    Shows (building_where_for_list landlord none) sample tower
    ↔ (assert_building_readable landlord 100 sample ≡ (ok tower, sample))
building_where_for_list-readable_example =
    building_where_for_list-readable landlord sample tower refl
