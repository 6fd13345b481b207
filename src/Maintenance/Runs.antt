-- ===== src/Maintenance/Runs.antt =====
-- backend/src/maintenance/maintenance.service.ts: any number of operations on tickets, one after the
-- other.
use pfe.Base.{
  ℕ, ◌≡◌, ◌≢◌, ◌⊎◌, true, false, none, List, [], ◌∷◌, arith, Pointwise, Pointwise-refl,
  Pointwise-trans, Pointwise-Pairwise,
}
use pfe.Prisma.{Prisma}
use pfe.Roles.{AuthUser}
use pfe.Schema.{Db, MaintenanceTicket}
use pfe.Maintenance.Actions
use pfe.Maintenance.Life.{Operation, Advances, is_fit, perform, HasDistinctIds, perform-Advances}

-- What any number of operations keep.
pub record Follows (a b : MaintenanceTicket) : Type 0 where
  pub id : a.id ≡ b.id
  pub tenant_id : a.tenant_id ≡ b.tenant_id
  pub space_id : a.space_id ≡ b.space_id
  pub created_by_user_id : a.created_by_user_id ≡ b.created_by_user_id
  pub assigned_to : (a.assigned_to ≡ none) ⊎ (a.assigned_to ≡ b.assigned_to)
  pub ended : (Actions.is_ended a.status ≡ false) ⊎ (a.status ≡ b.status)
  pub fit : (is_fit a ≡ false) ⊎ (is_fit b ≡ true)

Follows-Advances :
    (op : Operation) (a b c : MaintenanceTicket) → Advances op a b → Follows b c → Follows a c
unfolding Actions.is_ended
Follows-Advances op a b c m f = ground arith

Follows-refl : (a : MaintenanceTicket) → Follows a a
Follows-refl a = ground arith

-- Operations of users on tickets, one after the other.
pub record Request : Type 0 where
  pub user : AuthUser
  pub id : ℕ
  pub operation : Operation

module _ ⦃P : Prisma⦄ where
  open P use {rows}

  unfoldable pub run : List Request → Db → Db
  run [] s = s
  run (r ∷ rs) s = run rs (perform r.user r.id r.operation s)

  perform-HasDistinctIds :
      (r : Request) (s : Db) → HasDistinctIds s → HasDistinctIds (perform r.user r.id r.operation s)
  perform-HasDistinctIds r s distinct =
      Pointwise-Pairwise (Advances r.operation) (λ a c. a.id ≢ c.id)
        (λ a b c d m n ne. rw (m.id, n.id) at ne)
        (perform-Advances r.user r.id r.operation s distinct) distinct

  -- However users accept, assign, start, resolve, close and cancel tickets, a ticket once assigned
  -- stays with its technician, a closed or cancelled one keeps its status, and one whose status,
  -- technician and time of resolution fit together does so still. The ids must be distinct.
  pub run-Follows :
      (rs : List Request) (s : Db)
      → HasDistinctIds s
      → Pointwise Follows (rows s.maintenance_tickets) (rows (run rs s).maintenance_tickets)
  unfolding run
  run-Follows [] s distinct = Pointwise-refl Follows-refl (rows s.maintenance_tickets)
  run-Follows (r ∷ rs) s distinct =
      Pointwise-trans (Follows-Advances r.operation)
        (perform-Advances r.user r.id r.operation s distinct)
        (run-Follows rs (perform r.user r.id r.operation s) (perform-HasDistinctIds r s distinct))
