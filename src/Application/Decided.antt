-- ===== src/Application/Decided.antt =====
-- backend/src/booking-application/booking-application.service.ts: `accept` and `refuse` decide an
-- application, once.
use pfe.Base.{
  ℕ, ◌≡◌, refl, sym, ap, ◌∙◌, true, false, Bool-cases, Option, some, String, List, arith, ◌⊎◌, inl,
  inr, Option-cases, ==_iff, ==_refl, find-some, ◌==◌, subst,
}
use pfe.Prisma.{Prisma}
use pfe.Service.{
  Result, Result-cases, ok, throw, Call, final, bind-ok, reads_or, HttpError, forbidden, not_found,
  bad_request,
}
use pfe.Roles.{AuthUser, client_admin}
use pfe.Tables.{find_first-update}
use pfe.Schema.{
  Db, application_refused, User, Space, Booking, BookingApplication, BookingApplicationAddOn,
  ApplicationStatus, is_application, find_application, find_space, find_user, space_owner,
}
use pfe.Application.Accounts.{update_application}
use pfe.Application.Review
use pfe.Application.Writes.{
  resolve_applicant-finds, store_accepted-known, send-applications, after_accept-applications,
}

-- What a manager decides.
pub data Decision : Type 0 where
  accepting : Call → Call → Call → Decision
  refusing : Call → Option String → Decision

module _ ⦃P : Prisma⦄ where
  open P use {Table, update, rows, find_first, find_many}

  unfoldable pub decide : AuthUser → String → ℕ → Decision → Db → Result (Unit {0}) × Db
  decide user email id (accepting call account later) =
      Review.accept call account later user email id
  decide user email id (refusing call reason) = Review.refuse call user email id reason

  -- `accept` and `refuse` go on only with a pending application that the user, a manager, may open.
  find_pending_cases :
      (user : AuthUser) (email : String) (id : ℕ) (s : Db)
      → ((e : HttpError) × (Review.find_pending user email id s ≡ (throw e, s)))
        ⊎ ((app : BookingApplication) × (Review.find_pending user email id s ≡ (ok app, s))
            × (find_application id s ≡ some app)
            × (Review.is_manager user.role ≡ true)
            × (Review.may_open user email (space_owner app.space_id s) app ≡ true)
            × (is_application app.status ApplicationStatus.pending ≡ true))
  unfolding Review.find_pending Review.find_one_for_user
  find_pending_cases user email id s = elim (Bool-cases (Review.is_manager user.role)) [
    | inr other ↦ inl (forbidden, ground arith)
    | inl managing ↦ elim (Option-cases (find_application id s)) [
      | inl missing ↦ inl (not_found, ground arith)
      | inr (app, found) ↦
          elim (Bool-cases (Review.may_open user email (space_owner app.space_id s) app)) [
            | inr closed ↦ inl (forbidden, ground arith)
            | inl opens ↦ elim (Bool-cases (is_application app.status ApplicationStatus.pending)) [
              | inr decided ↦ inl (bad_request, ground arith)
              | inl waiting ↦ inr (app, ground arith, found, managing, opens, waiting)
            ]
          ]
    ]
  ]

  decide-thrown :
      (user : AuthUser) (email : String) (id : ℕ) (d : Decision) (s : Db) (e : HttpError)
      → Review.find_pending user email id s ≡ (throw e, s)
      → decide user email id d s ≡ (throw e, s)
  unfolding decide Review.accept Review.refuse
  decide-thrown user email id (accepting call account later) s e thrown = ground (arith, thrown)
  decide-thrown user email id (refusing call reason) s e thrown = ground (arith, thrown)

  -- Who is no manager, or may not open a stored application, or meets one that is decided, changes
  -- nothing by accepting or refusing it.
  pub decide_refused :
      (user : AuthUser) (email : String) (id : ℕ) (d : Decision) (s : Db) (app : BookingApplication)
      → find_application id s ≡ some app
      → (Review.is_manager user.role ≡ false)
        ⊎ ((Review.may_open user email (space_owner app.space_id s) app ≡ false)
            ⊎ (is_application app.status ApplicationStatus.pending ≡ false))
      → final (decide user email id d s) ≡ s
  decide_refused user email id d s app found barred = elim (find_pending_cases user email id s) [
    | inl (e, thrown) ↦ ap final (decide-thrown user email id d s e thrown)
    | inr (a, _, stored, managing, opens, waiting) ↦
        let same : a ≡ app = ground arith in
        let opens' =
          subst (λ b. Review.may_open user email (space_owner b.space_id s) b ≡ true) same opens in
        ground (arith, opens')
  ]

  pub IsDecided : ℕ → Db → Type 0
  IsDecided id s =
      (a : BookingApplication) × (find_application id s ≡ some a)
      × (is_application a.status ApplicationStatus.pending ≡ false)

  store_accepted-IsDecided :
      (call account : Call) (user : AuthUser) (receptionist : Option ℕ) (space : Space)
      (app : BookingApplication) (addons : List BookingApplicationAddOn) (s : Db)
      (r : User × Booking)
      → find_application app.id s ≡ some app
      → (Review.store_accepted call account user receptionist space app addons s).0 ≡ ok r
      → IsDecided app.id
          (final (Review.store_accepted call account user receptionist space app addons s))
  unfolding Review.store_accepted Review.accepted_application IsDecided Review.accepted_booking
  store_accepted-IsDecided call account user receptionist space app addons s r found stored =
      elim (Result-cases (Review.resolve_applicant_for_accept account app s).0) [
        | inr (e, thrown) ↦ ground (arith, thrown)
        | inl (u, resolved) ↦
            let s₁ = final (Review.resolve_applicant_for_accept account app s) in
            let f = Review.accepted_application call user.id (call.uuid 0) u.id in
            let (b, before) = resolve_applicant-finds account app s found in
            let after =
              find_first-update (λ a. a.id) app.id f s₁.booking_applications b (λ r. refl) before in
            (f b, rw (final, Review.store_accepted, resolved) after, refl)
      ]

  transaction-ok :
      {A : Type 0} (m : Db → Result A × Db) (s s' : Db) (a : A)
      → m s ≡ (ok a, s')
      → Review.transaction m s ≡ (ok a, s')
  transaction-ok {A} m s s' a e =
      ap
        (λ (p : Result A × Db). elim p.0 as (λ _. Result A × Db) [
          | ok b ↦ (ok b, p.1)
          | throw err ↦ (throw err, s)
        ])
        e

  pub accept_pending-stored :
      (call account later : Call) (user : AuthUser) (id : ℕ) (app : BookingApplication) (s : Db)
      (space : Space) (r : User × Booking)
      → find_space app.space_id s ≡ some space
      → let addons =
          find_many
            (λ (a : BookingApplicationAddOn). a.application_id == id)
            s.application_addons in
        let receptionist = Review.receptionist_for app.space_id s in
        let stored = Review.store_accepted call account user receptionist space app addons s in
        stored.0 ≡ ok r
        → Review.accept_pending call account later user id app s
          ≡ Review.after_accept later receptionist r.0 r.1 app (final stored)
  unfolding Review.accept_pending Review.accept_for
  accept_pending-stored call account later user id app s space r stands stored =
      let addons =
        find_many (λ (a : BookingApplicationAddOn). a.application_id == id) s.application_addons in
      let receptionist = Review.receptionist_for app.space_id s in
      let storing = Review.store_accepted call account user receptionist space app addons in
      bind-ok (reads_or not_found (find_space app.space_id))
        (Review.accept_for call account later user id app) s s space (rw stands refl)
      ∙ bind-ok (Review.transaction storing)
          (λ p. Review.after_accept later receptionist p.0 p.1 app) s (final (storing s)) r
          (transaction-ok storing s (final (storing s)) r (ap (λ x. (x, final (storing s))) stored))

  accept_pending-IsDecided :
      (call account later : Call) (user : AuthUser) (app : BookingApplication) (s : Db)
      → find_application app.id s ≡ some app
      → (Review.accept_pending call account later user app.id app s).0 ≡ ok tt
      → IsDecided app.id (final (Review.accept_pending call account later user app.id app s))
  unfolding Review.accept_pending Review.accept_for IsDecided
  accept_pending-IsDecided call account later user app s found done =
      elim (Option-cases (find_space app.space_id s)) [
        | inl missing ↦ ground arith
        | inr (space, stands) ↦
            let addons =
              P.find_many (λ (a : BookingApplicationAddOn). a.application_id == app.id)
                s.application_addons in
            let receptionist = Review.receptionist_for app.space_id s in
            elim (Result-cases
              (Review.store_accepted call account user receptionist space app addons s).0) [
                | inr (e, thrown) ↦ ground (arith, thrown)
                | inl (r, stored) ↦
                    let s₁ =
                      final
                        (Review.store_accepted call account user receptionist space app addons s) in
                    let (a, now, over) =
                      store_accepted-IsDecided call account user receptionist space app addons s r
                        found stored in
                    let same = after_accept-applications later receptionist r.0 r.1 app s₁ in
                    (
                      a,
                      rw
                          (accept_pending-stored call account later user app.id app s space r stands
                            stored)
                          (rw same now),
                      over,
                    )
              ]
      ]

  find_application-id :
      (id : ℕ) (s : Db) (app : BookingApplication) → find_application id s ≡ some app → app.id ≡ id
  find_application-id id s app found = (==_iff _ _).0 (
      find-some (λ a. a.id == id) (rows s.booking_applications) app
        (sym (P.find_first-rows _ _) ∙ found))

  decide-IsDecided :
      (user : AuthUser) (email : String) (id : ℕ) (d : Decision) (s : Db)
      → (decide user email id d s).0 ≡ ok tt
      → IsDecided id (final (decide user email id d s))
  unfolding decide Review.accept Review.refuse Review.refuse_pending Review.refused_application
      IsDecided
  decide-IsDecided user email id (accepting call account later) s done =
      elim (find_pending_cases user email id s) [
        | inl (e, thrown) ↦ ground (arith, thrown)
        | inr (app, passed, found, _, _, _) ↦
            let same = find_application-id id s app found in
            let accepts =
              bind-ok (Review.find_pending user email id)
                (Review.accept_pending call account later user id) s s app passed in
            rw accepts (
              subst
                (λ i.
                  find_application i s ≡ some app
                  → (Review.accept_pending call account later user i app s).0 ≡ ok tt
                  → IsDecided i (final (Review.accept_pending call account later user i app s)))
                same (accept_pending-IsDecided call account later user app s) found
                (rw accepts at done))
      ]
  decide-IsDecided user email id (refusing call reason) s done =
      elim (find_pending_cases user email id s) [
        | inl (e, thrown) ↦ ground (arith, thrown)
        | inr (app, passed, found, _, _, _) ↦
            let f = Review.refused_application call user.id reason in
            let s₁ = update_application id f s in
            let to = Review.applicant_email app.user_id app s₁ in
            let refuses =
              bind-ok (Review.find_pending user email id)
                (Review.refuse_pending call user id reason) s s app passed in
            let kept = send-applications to application_refused id s₁ in
            let stored =
              find_first-update (λ a. a.id) id f s.booking_applications app (λ r. refl) found in
            (f app, rw refuses (ap (λ t. find_first (λ a. a.id == id) t) kept ∙ stored), refl)
      ]

  -- An application is decided once: after a manager accepted or refused it, every attempt to decide it,
  -- by whomever, changes nothing.
  pub decide_once :
      (user other : AuthUser) (email other_email : String) (id : ℕ) (d d' : Decision) (s : Db)
      → (decide user email id d s).0 ≡ ok tt
      → let after = final (decide user email id d s) in
        final (decide other other_email id d' after) ≡ after
  unfolding IsDecided
  decide_once user other email other_email id d d' s done =
      let (app, found, over) = decide-IsDecided user email id d s done in
      decide_refused other other_email id d' (final (decide user email id d s)) app found
        (inr (inr over))

  own_application-passes :
      (user : AuthUser) (email : String) (id : ℕ) (s : Db) (app : BookingApplication)
      → user.role ≡ client_admin
      → find_application id s ≡ some app
      → app.user_id ≡ some user.id
      → app.status ≡ ApplicationStatus.pending
      → Review.find_pending user email id s ≡ (ok app, s)
  unfolding Review.find_pending Review.find_one_for_user Review.may_open Review.is_manager
      Review.is_applicant
  own_application-passes user email id s app admin found own waiting =
      ground (arith, admin, found, own, waiting, ==_refl user.id)

  -- A client's administrator who applied for a space has the application accepted by accepting it,
  -- whosever the space is.
  pub accept-own :
      (call account later : Call) (user : AuthUser) (email : String) (id : ℕ) (s : Db)
      (app : BookingApplication) (space : Space) (u : User)
      → user.role ≡ client_admin
      → find_application id s ≡ some app
      → app.user_id ≡ some user.id
      → app.status ≡ ApplicationStatus.pending
      → find_space app.space_id s ≡ some space
      → find_user user.id s ≡ some u
      → find_application id (final (Review.accept call account later user email id s))
        ≡ some (Review.accepted_application call user.id (call.uuid 0) u.id app)
  unfolding Review.accept Review.accepted_application
  accept-own call account later user email id s app space u admin found own waiting stands known =
      let passed = own_application-passes user email id s app admin found own waiting in
      let same = find_application-id id s app found in
      let addons =
        find_many (λ (a : BookingApplicationAddOn). a.application_id == id) s.application_addons in
      let receptionist = Review.receptionist_for app.space_id s in
      let booking = Review.accepted_booking call u receptionist space app addons in
      let (stored, written) =
        store_accepted-known call account user receptionist space app addons s user.id u own
          known in
      let s₁ = final (Review.store_accepted call account user receptionist space app addons s) in
      let f = Review.accepted_application call user.id (call.uuid 0) u.id in
      let accepts =
        bind-ok (Review.find_pending user email id)
          (Review.accept_pending call account later user id) s s app passed
        ∙ accept_pending-stored call account later user id app s space (u, booking) stands stored in
      let kept = after_accept-applications later receptionist u booking app s₁ in
      rw accepts (
        ap (λ t. find_first (λ a. a.id == id) t)
          (kept ∙ written ∙ ap (λ i. update (λ a. a.id == i) f s.booking_applications) same)
        ∙ find_first-update (λ a. a.id) id f s.booking_applications app (λ r. refl) found)
