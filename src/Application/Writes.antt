-- ===== src/Application/Writes.antt =====
-- backend/src/booking-application/booking-application.service.ts: what `accept` writes to the
-- applications.
use pfe.Base.{
  ℕ, ◌≡◌, refl, ap, Option, none, some, String, List, arith, ◌⊎◌, inl, inr, Option-cases, ◌==◌,
  trimmed, lower,
}
use pfe.Prisma.{Prisma}
use pfe.Service.{Result-cases, ok, Call, final}
use pfe.Roles.{AuthUser}
use pfe.Tables.{find_first-update}
use pfe.Schema.{
  Db, MailKind, application_accepted, User, Space, Booking, BookingApplication,
  BookingApplicationAddOn, find_application, find_user,
}
use pfe.Billing.{send, generate_invoice_from_booking}
use pfe.Application.Accounts
use pfe.Application.Accounts.{has_email, update_application}
use pfe.Application.Review

module _ ⦃P : Prisma⦄ where
  open P use {Table, update, rows, find_first, find_many}

  -- What `resolveApplicantForAccept` may write to an application.
  abbrev pub RewritesApplications : Table BookingApplication → Table BookingApplication → ℕ → Type 0
  RewritesApplications before after id =
      (after ≡ before)
      ⊎ ((user : ℕ) × (after
            ≡ update (λ a. a.id == id) (λ a. record a { user_id = some user }) before))

  create_account-applications :
      (call : Call) (fallback email : String) (app : BookingApplication) (s : Db)
      → (final (Accounts.create_account call fallback email app s)).booking_applications
        ≡ s.booking_applications
  unfolding Accounts.create_account
  create_account-applications call fallback email app s = ground arith

  resolve_guest-writes :
      (account : Call) (app : BookingApplication) (s : Db)
      → RewritesApplications s.booking_applications
          (final (Review.resolve_guest account app s)).booking_applications
          app.id
  unfolding Review.resolve_guest
  resolve_guest-writes account app s = elim (Option-cases (trimmed app.guest_email)) [
    | inl missing ↦ inl (ground arith)
    | inr (e, given) ↦ elim (Option-cases (find_first (has_email (lower e)) s.users)) [
      | inr (u, known) ↦ inr (u.id, ground arith)
      | inl unknown ↦
          elim (Result-cases (Accounts.create_account account "guest" (lower e) app s).0) [
            | inl (u, made) ↦
                inr (
                  u.id,
                  ground (arith, create_account-applications account "guest" (lower e) app s),
                )
            | inr (err, failed) ↦
                inl (ground (arith, create_account-applications account "guest" (lower e) app s))
          ]
    ]
  ]

  store_phone-applications :
      (app : BookingApplication) (u : User) (s : Db)
      → (Review.store_phone app u s).booking_applications ≡ s.booking_applications
  unfolding Review.store_phone
  store_phone-applications app u s = ground arith

  resolve_applicant-writes :
      (account : Call) (app : BookingApplication) (s : Db)
      → RewritesApplications s.booking_applications
          (final (Review.resolve_applicant_for_accept account app s)).booking_applications
          app.id
  unfolding Review.resolve_applicant_for_accept
  resolve_applicant-writes account app s = elim (Option-cases app.user_id) [
    | inl guest ↦ rw guest (resolve_guest-writes account app s)
    | inr (id, named) ↦ elim (Option-cases (find_user id s)) [
      | inl gone ↦ rw (named, gone) (resolve_guest-writes account app s)
      | inr (u, known) ↦ inl (ground (arith, store_phone-applications app u s))
    ]
  ]

  -- The row of an application is there after the applicant is known.
  pub resolve_applicant-finds :
      (account : Call) (app : BookingApplication) (s : Db)
      → find_application app.id s ≡ some app
      → (b : BookingApplication) × (find_application app.id
            (final (Review.resolve_applicant_for_accept account app s))
          ≡ some b)
  resolve_applicant-finds account app s found = elim (resolve_applicant-writes account app s) [
    | inl same ↦ (app, rw same found)
    | inr (u, e) ↦ (
      record app { user_id = some u },
      rw e (
          find_first-update (λ a. a.id) app.id (λ a. record a { user_id = some u })
            s.booking_applications app (λ r. refl) found),
    )
  ]

  pub generate_invoice-applications :
      (later : Call) (booking_id : ℕ) (s : Db)
      → (final (generate_invoice_from_booking later booking_id s)).booking_applications
        ≡ s.booking_applications
  unfolding generate_invoice_from_booking
  generate_invoice-applications later booking_id s = ground arith

  notify_receptionist-applications :
      (receptionist : Option ℕ) (s : Db)
      → (Review.notify_receptionist receptionist s).booking_applications ≡ s.booking_applications
  unfolding Review.notify_receptionist
  notify_receptionist-applications none s = refl
  notify_receptionist-applications (some id) s = ground arith

  pub send-applications :
      (to : Option String) (kind : MailKind) (about : ℕ) (s : Db)
      → (send to kind about s).booking_applications ≡ s.booking_applications
  send-applications none kind about s = refl
  send-applications (some _) kind about s = refl

  pub after_accept-applications :
      (later : Call) (receptionist : Option ℕ) (u : User) (booking : Booking)
      (app : BookingApplication) (s : Db)
      → (final (Review.after_accept later receptionist u booking app s)).booking_applications
        ≡ s.booking_applications
  unfolding Review.after_accept
  after_accept-applications later receptionist u booking app s =
      let to = Review.applicant_email (some u.id) app s in
      let s₁ = send to application_accepted booking.id s in
      let s₂ = Review.notify_receptionist receptionist s₁ in
      ground (
        arith,
        generate_invoice-applications later booking.id s₂,
        notify_receptionist-applications receptionist s₁,
        send-applications to application_accepted booking.id s,
      )

  -- What `accept` stores for an applicant with an account.
  pub store_accepted-known :
      (call account : Call) (user : AuthUser) (receptionist : Option ℕ) (space : Space)
      (app : BookingApplication) (addons : List BookingApplicationAddOn) (s : Db) (i : ℕ) (u : User)
      → app.user_id ≡ some i
      → find_user i s ≡ some u
      → let stored = Review.store_accepted call account user receptionist space app addons s in
        (stored.0 ≡ ok (u, Review.accepted_booking call u receptionist space app addons))
        × ((final stored).booking_applications
            ≡ update
                (λ a. a.id == app.id)
                (Review.accepted_application call user.id (call.uuid 0) u.id)
                s.booking_applications)
  unfolding Review.store_accepted Review.resolve_applicant_for_accept Review.accepted_booking
  store_accepted-known call account user receptionist space app addons s i u named known =
      let kept = store_phone-applications app u s in
      (
        rw (named, known) refl,
        rw (named, known)
            (rw (named, known)
              (ap
                (λ t.
                  update (λ a. a.id == app.id)
                    (Review.accepted_application call user.id (call.uuid 0) u.id) t)
                kept)),
      )
