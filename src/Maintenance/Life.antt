-- ===== src/Maintenance/Life.antt =====
-- backend/src/maintenance/maintenance.service.ts: the life of a ticket under the operations that
-- look at its status.
use pfe.Base.{
  ℕ, ◌≡◌, ◌≢◌, sym, ◌∙◌, ◌⊎◌, inl, inr, Bool, true, false, not, Option, none, some, arith,
  Option-cases, ◌==◌, is_some, Pairwise, Pointwise, Pointwise-refl, modify-Pointwise,
}
use pfe.Prisma.{Prisma}
use pfe.Service.{Call, ok, throw, forbidden, final}
use pfe.Roles.{AuthUser}
use pfe.Schema.{
  Db, MaintenanceTicket, TicketStatus, ticket_open, assigned, in_progress, resolved, closed,
  find_ticket,
}
use pfe.Maintenance.Tickets.{
  send_maintenance_notifications, fire_brevo_status, status_mail, update_ticket,
}
use pfe.Maintenance.Actions

pub data Operation : Type 0 where
  accept start_progress close cancel : Operation
  assign : ℕ → Operation
  resolve : Call → Option ℕ → Operation

-- Where an operation leads from a status, if anywhere. An accepted ticket that is at work already
-- keeps its status.
abbrev pub next_status : Operation → TicketStatus → Option TicketStatus
next_status accept ticket_open = some assigned
next_status (assign _) closed = none
next_status (assign _) TicketStatus.cancelled = none
next_status (assign _) _ = some assigned
next_status start_progress assigned = some in_progress
next_status (resolve _ _) ticket_open = some resolved
next_status (resolve _ _) assigned = some resolved
next_status (resolve _ _) in_progress = some resolved
next_status close resolved = some closed
next_status cancel closed = none
next_status cancel TicketStatus.cancelled = none
next_status cancel _ = some TicketStatus.cancelled
next_status _ _ = none

-- An open ticket is nobody's, one assigned or in progress is somebody's, and one resolved or closed
-- has the time of its resolution.
unfoldable pub is_fit : MaintenanceTicket → Bool
is_fit t = elim t.status [
  | ticket_open ↦ not (is_some t.assigned_to)
  | assigned ↦ is_some t.assigned_to
  | in_progress ↦ is_some t.assigned_to
  | resolved ↦ is_some t.resolved_at
  | closed ↦ is_some t.resolved_at
  | _ ↦ true
]

-- What an operation keeps of every ticket, and where it may take it.
pub record Advances (op : Operation) (a b : MaintenanceTicket) : Type 0 where
  pub id : a.id ≡ b.id
  pub tenant_id : a.tenant_id ≡ b.tenant_id
  pub space_id : a.space_id ≡ b.space_id
  pub created_by_user_id : a.created_by_user_id ≡ b.created_by_user_id
  pub assigned_to : (a.assigned_to ≡ none) ⊎ (a.assigned_to ≡ b.assigned_to)
  pub status : (a.status ≡ b.status) ⊎ (next_status op a.status ≡ some b.status)
  pub fit : (is_fit a ≡ false) ⊎ (is_fit b ≡ true)

Advances-refl : (op : Operation) (a : MaintenanceTicket) → Advances op a a
unfolding is_fit
Advances-refl op a = ground arith

-- The change that an operation of a user writes; accepting a ticket that is not open only claims it.
abbrev pub written : AuthUser → Operation → MaintenanceTicket → MaintenanceTicket
written user accept r = Actions.assigned_ticket user.id r
written user (assign technician) r = Actions.assigned_ticket technician r
written user start_progress r = Actions.moved_ticket in_progress r
written user (resolve call cost) r = Actions.resolved_ticket call.now cost r
written user close r = Actions.moved_ticket closed r
written user cancel r = Actions.moved_ticket TicketStatus.cancelled r

module _ ⦃P : Prisma⦄ where
  open P use {Table, rows, update, find_first-rows, rows-update}

  -- The database after an operation of a user on the ticket with an id.
  unfoldable pub perform : AuthUser → ℕ → Operation → Db → Db
  perform user id accept s = final (Actions.accept id user s)
  perform user id (assign technician) s = final (Actions.assign_for_user user id technician s)
  perform user id start_progress s = final (Actions.start_progress id (some user) s)
  perform user id (resolve call cost) s = final (Actions.resolve_for_user call user id cost s)
  perform user id close s = final (Actions.close id (some user) s)
  perform user id cancel s = final (Actions.cancel id (some user) s)

  pub send_maintenance_notifications-tickets :
      (t : MaintenanceTicket) (s : Db)
      → (send_maintenance_notifications t s).maintenance_tickets ≡ s.maintenance_tickets
  unfolding send_maintenance_notifications
  send_maintenance_notifications-tickets t s = ground arith

  pub fire_brevo_status-tickets :
      (id : ℕ) (a b : TicketStatus) (s : Db)
      → (fire_brevo_status id a b s).maintenance_tickets ≡ s.maintenance_tickets
  unfolding fire_brevo_status status_mail
  fire_brevo_status-tickets id a b s = ground arith

  pub ruleset mails = (send_maintenance_notifications-tickets, fire_brevo_status-tickets)

  -- The row is rewritten, and the operation may take it there.
  abbrev Rewrites :
      ℕ
      → Operation
      → (MaintenanceTicket → MaintenanceTicket)
      → MaintenanceTicket
      → Table MaintenanceTicket
      → Table MaintenanceTicket
      → Type 0
  Rewrites id op f t old new = Advances op t (f t) × (new ≡ update (λ r. r.id == id) f old)

  abbrev Writes : AuthUser → ℕ → Operation → MaintenanceTicket → Db → Db → Type 0
  Writes user id op t s s' =
      (s'.maintenance_tickets ≡ s.maintenance_tickets)
      ⊎ Rewrites id op (written user op) t s.maintenance_tickets s'.maintenance_tickets
      ⊎ Rewrites id op (Actions.claimed_ticket user.id) t s.maintenance_tickets
          s'.maintenance_tickets

  find_one_for_user-cases :
      (user : AuthUser) (id : ℕ) (s : Db) (t : MaintenanceTicket)
      → find_ticket id s ≡ some t
      → (Actions.find_one_for_user user id s ≡ (ok t, s))
        ⊎ (Actions.find_one_for_user user id s ≡ (throw forbidden, s))
  unfolding Actions.find_one_for_user
  find_one_for_user-cases user id s t found = ground arith

  perform-Writes :
      (user : AuthUser) (id : ℕ) (op : Operation) (s : Db) (t : MaintenanceTicket)
      → find_ticket id s ≡ some t
      → Writes user id op t s (perform user id op s)
  unfolding perform Actions.start_progress Actions.is_actor Actions.moved_ticket is_fit
      Actions.close Actions.cancel Actions.resolve_for_user Actions.resolve Actions.assign_for_user
      Actions.assign Actions.accept Actions.claim Actions.is_ended Actions.is_resolvable
      Actions.assigned_ticket Actions.claimed_ticket Actions.resolved_ticket
  perform-Writes user id op s t found =
      let s₁ = update_ticket id (written user op) s in
      let ticket = written user op t in
      let s₂ = send_maintenance_notifications ticket s₁ in
      ground (
        arith,
        find_one_for_user-cases user id s t found,
        send_maintenance_notifications-tickets ticket s₁,
        fire_brevo_status-tickets id t.status assigned s₂,
        fire_brevo_status-tickets id t.status ticket.status s₁,
      )

  perform-missing :
      (user : AuthUser) (id : ℕ) (op : Operation) (s : Db)
      → find_ticket id s ≡ none
      → (perform user id op s).maintenance_tickets ≡ s.maintenance_tickets
  unfolding perform Actions.start_progress Actions.close Actions.cancel Actions.resolve_for_user
      Actions.assign_for_user Actions.accept Actions.find_one_for_user
  perform-missing user id op s missing = ground arith

  -- The ids of the stored tickets are distinct, as the primary key has it.
  abbrev pub HasDistinctIds : Db → Type 0
  HasDistinctIds s =
      Pairwise (λ (a c : MaintenanceTicket). a.id ≢ c.id) (rows s.maintenance_tickets)

  Rewrites-Advances :
      (id : ℕ) (op : Operation) (f : MaintenanceTicket → MaintenanceTicket) (s s' : Db)
      (t : MaintenanceTicket)
      → HasDistinctIds s
      → find_ticket id s ≡ some t
      → Rewrites id op f t s.maintenance_tickets s'.maintenance_tickets
      → Pointwise (Advances op) (rows s.maintenance_tickets) (rows s'.maintenance_tickets)
  Rewrites-Advances id op f s s' t distinct found (m, e) =
      rw (e, rows-update)
        (modify-Pointwise (λ r. r.id) (Advances op) (Advances-refl op) id f
          (rows s.maintenance_tickets) t distinct (sym (find_first-rows _ _) ∙ found) m)

  unchanged-Advances :
      (op : Operation) (s s' : Db)
      → s'.maintenance_tickets ≡ s.maintenance_tickets
      → Pointwise (Advances op) (rows s.maintenance_tickets) (rows s'.maintenance_tickets)
  unchanged-Advances op s s' e =
      rw e (Pointwise-refl (Advances-refl op) (rows s.maintenance_tickets))

  -- Accepting, assigning, starting, resolving, closing or cancelling a ticket takes every stored ticket
  -- along the machine: each keeps its id, organisation, space and creator, and its technician once it
  -- has one, and its status stays or moves as `next_status` says. The ids must be distinct.
  pub perform-Advances :
      (user : AuthUser) (id : ℕ) (op : Operation) (s : Db)
      → HasDistinctIds s
      → Pointwise
          (Advances op)
          (rows s.maintenance_tickets)
          (rows (perform user id op s).maintenance_tickets)
  perform-Advances user id op s distinct = elim (Option-cases (find_ticket id s)) [
    | inl missing ↦
        unchanged-Advances op s (perform user id op s) (perform-missing user id op s missing)
    | inr (t, found) ↦ elim (perform-Writes user id op s t found) [
      | inl same ↦ unchanged-Advances op s (perform user id op s) same
      | inr (inl w) ↦
          Rewrites-Advances id op (written user op) s (perform user id op s) t distinct found w
      | inr (inr w) ↦
          Rewrites-Advances id op (Actions.claimed_ticket user.id) s (perform user id op s) t
            distinct found w
    ]
  ]
