-- ===== src/Roles.antt =====
-- backend/src/constants/enums.ts (roles), constants/role-groups.ts and auth/types/auth-user.ts.
-- An id is a number, since ids are only compared; the empty text, which JavaScript takes for a
-- missing id, is `none`.
use pfe.Base.{ℕ, ◌≡◌, Bool, true, ◌||◌, ◌==◌, arith, ◌↔◌}

pub data Role : Type 0 where
  super_admin client_admin manager finance maintenance receptionist : Role
  tenant_admin tenant_employee guest : Role

abbrev role_code : Role → ℕ
role_code super_admin = 0
role_code client_admin = 1
role_code manager = 2
role_code finance = 3
role_code maintenance = 4
role_code receptionist = 5
role_code tenant_admin = 6
role_code tenant_employee = 7
role_code guest = 8

-- `role === USER_ROLE.X`
abbrev pub is_role : Role → Role → Bool
is_role a b = role_code a == role_code b

pub is_role_iff : (a b : Role) → (is_role a b ≡ true) ↔ (a ≡ b)
is_role_iff a b = ground arith

-- The fields of `AuthUser` that a decision reads.
pub record AuthUser : Type 0 where
  pub id : ℕ
  pub tenant_id : ℕ
  pub role : Role

-- `CLIENT_BILLING`
abbrev pub client_billing : Role → Bool
client_billing role = is_role role client_admin || is_role role manager || is_role role finance

-- `CLIENT_WORKSPACE`
abbrev pub client_workspace : Role → Bool
client_workspace role =
    is_role role client_admin
    || is_role role manager
    || is_role role finance
    || is_role role maintenance
    || is_role role receptionist
