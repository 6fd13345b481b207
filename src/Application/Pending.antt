-- ===== src/Application/Pending.antt =====
-- backend/src/booking-application/booking-application.service.ts: what `create` stores, and what the
-- lists show.
use pfe.Base.{
  ℕ, ◌≡◌, refl, sym, ◌∙◌, true, false, Option, none, String, List, [], ◌∷◌, arith, ◌⊎◌, inl, inr,
  Option-cases, All, All-map, Pairwise, Pairwise-append_one, find-none,
}
use pfe.Prisma.{Prisma}
use pfe.Service.{Result-cases, Call, final}
use pfe.Roles.{AuthUser}
use pfe.Tables.{find_many-All}
use pfe.Schema.{
  Db, User, BookingApplication, ApplicationStatus, application_submitted, find_space, space_owner,
}
use pfe.Booking.Rules.{ApplicationAddon}
use pfe.Application.Requests
use pfe.Application.Requests.{CreateBookingApplicationDto, is_own_pending}
use pfe.Application.Review
use pfe.Application.Writes.{send-applications}

-- Of two applications, the second is no pending one of a user for a space where the first is.
pub ArePendingApart : BookingApplication → BookingApplication → Type 0
ArePendingApart a c =
    (space user : ℕ) → (is_own_pending space user a ≡ false) ⊎ (is_own_pending space user c ≡ false)

new_apart :
    (call : Call) (user : AuthUser) (dto : CreateBookingApplicationDto) (space owner : ℕ)
    (a : BookingApplication)
    → is_own_pending dto.space_id user.id a ≡ false
    → (is_own_pending space owner a ≡ false)
      ⊎ (is_own_pending space owner (Requests.new_application call user dto) ≡ false)
unfolding is_own_pending Requests.new_application
new_apart call user dto space owner a other = ground arith

module _ ⦃P : Prisma⦄ where
  open P use {rows, create}

  abbrev pub HasOnePending : Db → Type 0
  HasOnePending s = Pairwise ArePendingApart (rows s.booking_applications)

  resolve_requested-final :
      (space_id : ℕ) (landlord : Option ℕ) (months : ℕ) (items : List ApplicationAddon) (s : Db)
      → final (Requests.resolve_requested space_id landlord months items s) ≡ s
  unfolding Requests.resolve_requested
  resolve_requested-final space_id landlord months [] s = refl
  resolve_requested-final space_id landlord months (item ∷ items) s =
      ground (arith, resolve_requested-final space_id landlord months items s)

  resolve_application_addons-final :
      (space_id months : ℕ) (items : List ApplicationAddon) (s : Db)
      → final (Requests.resolve_application_addons space_id months items s) ≡ s
  unfolding Requests.resolve_application_addons
  resolve_application_addons-final space_id months [] s = refl
  resolve_application_addons-final space_id months (item ∷ items) s =
      elim (Option-cases (find_space space_id s)) [
        | inl missing ↦ ground arith
        | inr (space, found) ↦ ground (
          arith,
          found,
          resolve_requested-final space_id (space_owner space_id s) months (item ∷ items) s,
        )
      ]

  notify_managers_each-applications :
      (about : ℕ) (ms : List User) (s : Db)
      → (Requests.notify_managers_each about ms s).booking_applications ≡ s.booking_applications
  unfolding Requests.notify_managers_each
  notify_managers_each-applications about [] s = refl
  notify_managers_each-applications about (m ∷ ms) s =
      notify_managers_each-applications about ms _
      ∙ send-applications m.email application_submitted about _

  assert_space_applicable-final :
      (space_id : ℕ) (s : Db) → final (Requests.assert_space_applicable space_id s) ≡ s
  unfolding Requests.assert_space_applicable
  assert_space_applicable-final space_id s = ground arith

  -- `create` stores nothing among the applications, or one of a user who has no pending one.
  create_application-writes :
      (call : Call) (user : AuthUser) (dto : CreateBookingApplicationDto) (s : Db)
      → let after = (final (Requests.create_application call user dto s)).booking_applications in
        (after ≡ s.booking_applications)
        ⊎ ((P.find_first (is_own_pending dto.space_id user.id) s.booking_applications ≡ none)
            × (after ≡ create (Requests.new_application call user dto) s.booking_applications))
  unfolding Requests.create_application Requests.insert_application Requests.notify_managers
  create_application-writes call user dto s =
      let opened = assert_space_applicable-final dto.space_id s in
      let resolved =
        resolve_application_addons-final dto.space_id dto.duration_months dto.addons s in
      elim (Result-cases (Requests.assert_space_applicable dto.space_id s).0) [
        | inr (e, closed) ↦ inl (ground (arith, closed, opened))
        | inl (space, open_) ↦
            elim (Option-cases
              (P.find_first (is_own_pending dto.space_id user.id) s.booking_applications)) [
                | inr (other, there) ↦ inl (ground (arith, open_, opened, there))
                | inl free ↦
                    elim (Result-cases
                      (Requests.resolve_application_addons dto.space_id dto.duration_months
                        dto.addons s).0) [
                          | inr (e, barred) ↦
                              inl (ground (arith, open_, opened, free, barred, resolved))
                          | inl (addons, found) ↦
                              let app = Requests.new_application call user dto in
                              let s₁ = Requests.insert_application call app addons s in
                              let told =
                                notify_managers_each-applications app.id
                                  (P.find_many (Requests.is_notified (space_owner dto.space_id s₁))
                                    s₁.users)
                                  s₁ in
                              inr (free, ground (arith, open_, opened, free, found, resolved, told))
                        ]
              ]
      ]

  -- Applying for a space never gives a user two pending applications for it, if no user had two for one
  -- space.
  pub create_application-HasOnePending :
      (call : Call) (user : AuthUser) (dto : CreateBookingApplicationDto) (s : Db)
      → HasOnePending s
      → HasOnePending (final (Requests.create_application call user dto s))
  unfolding ArePendingApart
  create_application-HasOnePending call user dto s once =
      elim (create_application-writes call user dto s) [
        | inl same ↦ rw same once
        | inr (free, e) ↦
            rw (e, P.rows-create)
              (Pairwise-append_one ArePendingApart (rows s.booking_applications) _ once (
                All-map (λ a other space owner. new_apart call user dto space owner a other)
                  (rows s.booking_applications)
                  (find-none (is_own_pending dto.space_id user.id) (rows s.booking_applications)
                    (sym (P.find_first-rows _ _) ∙ free))))
      ]

  shown_opens :
      (user : AuthUser) (email : String) (status : Option ApplicationStatus) (s : Db)
      (a : BookingApplication)
      → Review.is_manager user.role ≡ true
      → Review.application_where user email status s a ≡ true
      → Review.may_open user email (space_owner a.space_id s) a ≡ true
  unfolding Review.application_where Review.may_open Review.is_manager
  shown_opens user email status s a managing shown = ground arith

  -- Every application that a list shows to a manager, an administrator of a client or the platform
  -- owner is one that they may open.
  pub find_all_for_user-opens :
      (user : AuthUser) (email : String) (status : Option ApplicationStatus) (s : Db)
      → Review.is_manager user.role ≡ true
      → All
          (λ (a : BookingApplication).
            Review.may_open user email (space_owner a.space_id s) a ≡ true)
          (Review.find_all_for_user user email status s)
  unfolding Review.find_all_for_user
  find_all_for_user-opens user email status s managing =
      All-map (λ a shown. shown_opens user email status s a managing shown) _
        (find_many-All (Review.application_where user email status s) s.booking_applications)
