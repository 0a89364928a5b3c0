-- ===== src/Guards/Tests.antt =====
-- The chain of guards at concrete requests.
use reg_pay.Prelude.{◌≡◌, refl, ◌⊎◌, ◌||◌, true, false, any, [], ◌∷◌, none, some, String}
use reg_pay.Keys.{includes, add, delete, add_all}
use reg_pay.Constants.{lookup}
use reg_pay.Permissions.{
  CurrentUser, build_raw_permission_keys, implied_by, compute_effective_permissions,
}
use reg_pay.Users.{UserStatus, UserRow, find_user}
use reg_pay.Guards.{
  admit, refuse, no_permission, validate, jwt_auth_guard, permissions_guard, roles_guard, Route,
  Request, authorize,
}
use reg_pay.Guards.Laws.{may, IsLive, authorize-IsLive}

abbrev clerk_row : UserStatus → UserRow
clerk_row status = record {
  id = 5;
  status = status;
  is_deleted = false;
  working_location_id = some 10;
  department_id = none;
  user_roles =
      record {
        roles = some (record { name = "FINANCE"; permission_keys = some ("payroll.create" ∷ []) });
      }
      ∷ [];
  user_permissions = [];
  user_permission_overrides = record { permission_key = "payroll.manage"; is_allowed = false } ∷ [];
}

abbrev clerk : CurrentUser
clerk = record {
  user_id = 5;
  roles = "FINANCE" ∷ [];
  permissions = "payroll.create" ∷ [];
  working_location_id = some 10;
  department_id = none;
  permission_overrides = record { permission_key = "payroll.manage"; is_allowed = false } ∷ [];
}

abbrev needs : String → Route
needs key = record { is_public = false; roles = []; permissions = key ∷ [] }

abbrev bearer : Request
bearer = record { has_bearer_token = true; payload = some (some 5) }

guards : Unit {0}
unfolding authorize validate jwt_auth_guard roles_guard permissions_guard find_user
    build_raw_permission_keys compute_effective_permissions implied_by lookup add add_all delete
guards = tt

admissions :
    (authorize (clerk_row UserStatus.active ∷ []) (needs "payroll.read") bearer
      ≡ admit (some clerk))
    × (authorize (clerk_row UserStatus.active ∷ []) (needs "payroll.manage") bearer
        ≡ refuse no_permission)
unfolding guards
admissions = (refl, refl)

authorize-IsLive_example :
    (u : CurrentUser) × (some clerk ≡ some u)
    × (bearer.payload ≡ some (some u.user_id))
    × IsLive (clerk_row UserStatus.active ∷ []) u
    × (((needs "payroll.read").roles ≡ [])
        ⊎ ((includes u.roles "SUPER_ADMIN"
              || (any (includes u.permissions) ("payroll.read" ∷ []) || any (includes u.roles) []))
            ≡ true))
    × (((needs "payroll.read").permissions ≡ [])
        ⊎ ((includes u.roles "SUPER_ADMIN" || any (may u) ("payroll.read" ∷ [])) ≡ true))
authorize-IsLive_example =
    authorize-IsLive (clerk_row UserStatus.active ∷ []) (needs "payroll.read") bearer (some clerk)
      refl admissions.0
