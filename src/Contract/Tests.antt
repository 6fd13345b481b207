-- ===== src/Contract/Tests.antt =====
-- backend/src/lease-contract/lease-contract.service.ts: examples.
use pfe.Base.{ℕ, ◌≡◌, ◌≢◌, ◌↔◌, ◌⊎◌, refl, true, false, none, some, [], ◌∷◌, arith, String}
use pfe.Memory.{memory}
use pfe.Service.{ok, final}
use pfe.Roles.{AuthUser, client_admin}
use pfe.Schema.{Db, LeaseContract, space_owner, floor_owner, building_owner}
use pfe.Sample.{landlord, renter, sample, invoice_as}
use pfe.Schema.{sent}
use pfe.Billing.{in_portfolio}
use pfe.Contract
use pfe.Contract.Owners.{MayReadContract, contract_where-readable, contract_refused}
use pfe.Contract.Life.{Move, signing, IsEdge, move, move-IsEdge, renew_contract-ends}

abbrev lease_as : String → LeaseContract
lease_as status = record {
  id = 1000;
  tenant_id = 2;
  user_id = some 10;
  start_date = 0;
  end_date = 100;
  monthly_rent = 900;
  status = status;
}

-- The renter's lease, whose invoice belongs to a booking in the landlord's building.
abbrev leased : String → Db
leased status = record sample {
  lease_contracts = lease_as status ∷ [];
  invoices = record (invoice_as 900 sent) { contract_id = some 1000 } ∷ [];
}

contract_where-readable_example :
    (Contract.contract_where landlord none none (leased "DRAFT") (lease_as "DRAFT") ≡ true)
    ↔ (Contract.assert_contract_readable landlord 1000 (leased "DRAFT") ≡ (ok tt, leased "DRAFT"))
contract_where-readable_example =
    contract_where-readable landlord (leased "DRAFT") (lease_as "DRAFT") refl

abbrev stranger : AuthUser
stranger = record { id = 30; tenant_id = 3; role = client_admin }

abbrev no_change : Contract.UpdateLeaseContractDto
no_change = record { start_date = none; end_date = none; monthly_rent = some 1; status = none }

not_hosted : Contract.is_hosted_by 3 (leased "DRAFT") 1000 ≡ false
unfolding Contract.is_hosted_by in_portfolio space_owner floor_owner building_owner
not_hosted = refl

hidden : ¬ (MayReadContract stranger (lease_as "DRAFT") (leased "DRAFT"))
hidden may = let shut = not_hosted in ground arith

contract_refused_example :
    (final (Contract.update_contract stranger 1000 no_change (leased "DRAFT")) ≡ leased "DRAFT")
    × (final (Contract.remove_contract stranger 1000 (leased "DRAFT")) ≡ leased "DRAFT")
    × (final (Contract.sign_contract stranger 1000 (leased "DRAFT")) ≡ leased "DRAFT")
    × (final (Contract.terminate_contract stranger 1000 (leased "DRAFT")) ≡ leased "DRAFT")
    × (final (Contract.renew_contract stranger 1000 200 (leased "DRAFT")) ≡ leased "DRAFT")
contract_refused_example =
    contract_refused stranger 200 no_change (leased "DRAFT") (lease_as "DRAFT") refl hidden

move-IsEdge_example :
    (move renter 1000 signing (leased "DRAFT") ≡ leased "DRAFT")
    ⊎ ((after : LeaseContract) × (Contract.find_contract 1000
            (move renter 1000 signing (leased "DRAFT"))
          ≡ some after)
        × IsEdge signing "DRAFT" after.status
        × (after.tenant_id ≡ 2)
        × (after.monthly_rent ≡ 900)
        × ((j : ℕ)
            → ◌≢◌ {A = ℕ} 1000 j
            → Contract.find_contract j (move renter 1000 signing (leased "DRAFT"))
              ≡ Contract.find_contract j (leased "DRAFT")))
move-IsEdge_example = move-IsEdge renter 1000 signing (leased "DRAFT") (lease_as "DRAFT") refl

signs : (Contract.sign_contract renter 1000 (leased "DRAFT")).0 ≡ ok true
unfolding Contract.sign_contract Contract.find_one_contract_for_user
    Contract.assert_contract_readable Contract.find_one_contract Contract.has_status
    Contract.is_hosted_by in_portfolio space_owner floor_owner building_owner
signs = refl

renews : (Contract.renew_contract renter 1000 200 (leased "ACTIVE")).0 ≡ ok tt
unfolding Contract.renew_contract Contract.find_one_contract_for_user
    Contract.assert_contract_readable Contract.find_one_contract Contract.has_status
    Contract.is_hosted_by in_portfolio space_owner floor_owner building_owner
renews = refl

renew_contract-ends_example :
    let s' = final (Contract.renew_contract renter 1000 200 (leased "ACTIVE")) in
    (after : LeaseContract) × (Contract.find_contract 1000 s' ≡ some after)
    × ((now days : ℕ)
        → (Contract.is_expiring now days after ≡ false) × (Contract.ends_in now days after ≡ false))
    × ((other : AuthUser) (m : Move) → move other 1000 m s' ≡ s')
renew_contract-ends_example =
    renew_contract-ends renter 1000 200 (leased "ACTIVE") (lease_as "ACTIVE") refl renews
