-- ===== src/Maintenance/Scope.antt =====
-- backend/src/maintenance/maintenance.service.ts: who sees a ticket, who may change it, and what the
-- counts count.
use pfe.Base.{
  ℕ, ◌≡◌, ◌⊎◌, inl, inr, refl, ◌∙◌, Bool, true, false, Option, none, some, arith, Bool-cases,
  length, All, All-map, eq_refl, ap,
}
use pfe.Prisma.{Prisma}
use pfe.Service.{Call, Result, throw, forbidden, final}
use pfe.Roles.{Role, AuthUser, is_role, super_admin}
use pfe.Schema.{
  Db, MaintenanceTicket, TicketStatus, ticket_open, assigned, same_ticket, find_ticket,
}
use pfe.Tables.{find_many-All, find_many_ext, count-find_many, find_first-update}
use pfe.Maintenance.Tickets.{
  is_portal_customer, ticket_owner, update_ticket, send_maintenance_notifications,
}
use pfe.Maintenance.Actions
use pfe.Maintenance.Lists
use pfe.Maintenance.Life.{send_maintenance_notifications-tickets, fire_brevo_status-tickets}

-- Who may read a ticket: the platform owner, the organisation that the ticket names, and the one
-- whose building it is in.
abbrev pub MayReadTicket : AuthUser → MaintenanceTicket → Option ℕ → Type 0
MayReadTicket user t owner =
    (user.role ≡ super_admin) ⊎ (t.tenant_id ≡ user.tenant_id) ⊎ (owner ≡ some user.tenant_id)

readable_ticket_sound :
    (user : AuthUser) (t : MaintenanceTicket) (owner : Option ℕ)
    → Actions.readable_ticket user t owner ≡ true
    → MayReadTicket user t owner
unfolding Actions.readable_ticket
readable_ticket_sound user t owner h = ground arith

readable_ticket_complete :
    (user : AuthUser) (t : MaintenanceTicket) (owner : Option ℕ)
    → MayReadTicket user t owner
    → Actions.readable_ticket user t owner ≡ true
unfolding Actions.readable_ticket
readable_ticket_complete user t owner h = ground arith

same_ticket_refl : (a : TicketStatus) → same_ticket a a ≡ true
same_ticket_refl (TicketStatus.unlisted a) = eq_refl a
same_ticket_refl _ = refl

-- The operations that read the ticket on behalf of the user before they write.
pub data ScopedChange : Type 0 where
  update : Actions.UpdateMaintenanceTicketDto → ScopedChange
  remove : ScopedChange
  update_status : Call → TicketStatus → ScopedChange
  assign : ℕ → ScopedChange
  resolve : Call → Option ℕ → ScopedChange

-- No filter, and every ticket in view.
abbrev pub unfiltered : Lists.TicketFilters
unfiltered = record {
  space_id = none;
  status = none;
  priority = none;
  category = none;
  assigned_to = none;
  view = some Lists.every;
}

module _ ⦃P : Prisma⦄ where
  open P use {rows, find_many, count}

  unfoldable pub change : AuthUser → ℕ → ScopedChange → Db → Result (Unit {0}) × Db
  change user id (update dto) s = Actions.update_for_user user id dto s
  change user id remove s = Actions.remove_for_user user id s
  change user id (update_status call status) s =
      Actions.update_status_for_user call user id status s
  change user id (assign technician) s = Actions.assign_for_user user id technician s
  change user id (resolve call cost) s = Actions.resolve_for_user call user id cost s

  pub find_one_for_user-refused :
      (user : AuthUser) (id : ℕ) (s : Db) (t : MaintenanceTicket)
      → find_ticket id s ≡ some t
      → ¬ (MayReadTicket user t (ticket_owner t s))
      → Actions.find_one_for_user user id s ≡ (throw forbidden, s)
  unfolding Actions.find_one_for_user
  find_one_for_user-refused user id s t found hidden =
      elim (Bool-cases (Actions.readable_ticket user t (ticket_owner t s))) [
        | inl shown ↦ absurd (hidden (readable_ticket_sound user t (ticket_owner t s) shown))
        | inr refused ↦ ground arith
      ]

  -- Whoever is neither the platform owner, nor of the organisation that a stored ticket names, nor of
  -- the one whose building it is in, updates, removes, restates, assigns and resolves nothing: the
  -- call throws "forbidden", and the database is as it was.
  pub change_refused :
      (user : AuthUser) (id : ℕ) (c : ScopedChange) (s : Db) (t : MaintenanceTicket)
      → find_ticket id s ≡ some t
      → ¬ (MayReadTicket user t (ticket_owner t s))
      → change user id c s ≡ (throw forbidden, s)
  unfolding change Actions.update_for_user Actions.remove_for_user Actions.update_status_for_user
      Actions.assign_for_user Actions.resolve_for_user
  change_refused user id c s t found hidden =
      ground (arith, find_one_for_user-refused user id s t found hidden)

  shown_readable :
      (user : AuthUser) (f : Lists.TicketFilters) (s : Db) (t : MaintenanceTicket)
      → is_portal_customer user.role ≡ false
      → Lists.ticket_where user f s t ≡ true
      → MayReadTicket user t (ticket_owner t s)
  unfolding Lists.ticket_where Lists.landlord_scope
  shown_readable user f s t staff shown = ground arith

  -- Every ticket that a list shows to staff, whatever its filters, is one that they may read.
  pub find_all_for_user-MayReadTicket :
      (user : AuthUser) (f : Lists.TicketFilters) (s : Db)
      → is_portal_customer user.role ≡ false
      → All (λ t. MayReadTicket user t (ticket_owner t s)) (Lists.find_all_for_user user f s)
  unfolding Lists.find_all_for_user
  find_all_for_user-MayReadTicket user f s staff =
      All-map (λ t shown. shown_readable user f s t staff shown) _
        (find_many-All (Lists.ticket_where user f s) s.maintenance_tickets)

  -- A technician of any organisation who accepts an open ticket that is nobody's has it, assigned.
  pub accept-any_technician :
      (user : AuthUser) (id : ℕ) (s : Db) (t : MaintenanceTicket)
      → user.role ≡ Role.maintenance
      → find_ticket id s ≡ some t
      → t.status ≡ ticket_open
      → t.assigned_to ≡ none
      → find_ticket id (final (Actions.accept id user s))
        ≡ some (record t { assigned_to = some user.id; status = assigned })
  unfolding Actions.accept Actions.claim Actions.assign Actions.is_ended Actions.assigned_ticket
  accept-any_technician user id s t technician found waiting free =
      let f = Actions.assigned_ticket user.id in
      let s₁ = update_ticket id f s in
      let s₂ = send_maintenance_notifications (f t) s₁ in
      ground (
        arith,
        send_maintenance_notifications-tickets (f t) s₁,
        fire_brevo_status-tickets id t.status assigned s₂,
        find_first-update (λ r. r.id) id f s.maintenance_tickets t (λ r. refl) found,
      )

  pub unfiltered-base : (t : MaintenanceTicket) → Lists.ticket_base unfiltered t ≡ true
  unfolding Lists.ticket_base
  unfiltered-base t =
      ground (arith, eq_refl t.priority, eq_refl t.category, same_ticket_refl t.status)

  -- Where a test agrees with the unfiltered list's, as many tickets pass it.
  passing-listed :
      (user : AuthUser) (s : Db) (p : MaintenanceTicket → Bool)
      → ((t : MaintenanceTicket)
          → Lists.ticket_base unfiltered t ≡ true
          → p t ≡ Lists.ticket_where user unfiltered s t)
      → length (find_many p s.maintenance_tickets)
        ≡ length (Lists.find_all_for_user user unfiltered s)
  unfolding Lists.find_all_for_user
  passing-listed user s p same = ap length (
      find_many_ext p (Lists.ticket_where user unfiltered s) (λ t. same t (unfiltered-base t))
        s.maintenance_tickets)

  -- The total that a user is given without a space is the number of tickets in that user's list under
  -- the view of all tickets and no other filter, for every role.
  pub get_stats_for_user-total :
      (user : AuthUser) (s : Db)
      → (Lists.get_stats_for_user user none s).total
        ≡ length (Lists.find_all_for_user user unfiltered s)
  unfolding Lists.get_stats_for_user Lists.ticket_where Lists.get_stats Lists.grouped_stats
      Lists.plain_stats
  get_stats_for_user-total user s = elim (Bool-cases (is_portal_customer user.role)) [
    | inl portal ↦ rw portal (passing-listed user s _ (λ t b. ground arith))
    | inr staff ↦ elim (Bool-cases (is_role user.role Role.maintenance)) [
      | inl technician ↦ rw (staff, technician) (passing-listed user s _ (λ t b. ground arith))
      | inr other ↦ elim (Bool-cases (is_role user.role super_admin)) [
        | inl owner ↦
            rw (staff, other, owner)
              (count-find_many _ _ ∙ passing-listed user s _ (λ t b. ground arith))
        | inr landlord ↦ rw (staff, other, landlord) (passing-listed user s _ (λ t b. ground arith))
      ]
    ]
  ]
