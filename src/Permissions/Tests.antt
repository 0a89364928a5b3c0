-- ===== src/Permissions/Tests.antt =====
-- Permission sets at concrete users.
use reg_pay.Prelude.{◌≡◌, refl, Bool, true, false, [], ◌∷◌, none, some, String}
use reg_pay.Keys.{includes, add, delete, add_all}
use reg_pay.Constants.{lookup}
use reg_pay.Permissions.{
  UserPermissionRelations, build_raw_permission_keys, PermissionOverride, CurrentUser, implied_by,
  expand, compute_effective_permissions, has_effective_permission,
}
use reg_pay.Permissions.Effective.{has_effective_permission_lem, includes-build_raw_permission_keys}
use reg_pay.Permissions.Closure.{expand_twice}

abbrev override : String → Bool → PermissionOverride
override key allowed = record { permission_key = key; is_allowed = allowed }

abbrev clerk : CurrentUser
clerk = record {
  user_id = 5;
  roles = "ACCOUNTANT" ∷ [];
  permissions = "payroll.create" ∷ "deductions.manage" ∷ "payroll.create" ∷ [];
  working_location_id = some 10;
  department_id = none;
  permission_overrides = override "payroll.read" false ∷ override "ikimina.read" true ∷ [];
}

clerk_set :
    compute_effective_permissions clerk
    ≡ "payroll.create" ∷ "deductions.manage" ∷ "payroll.manage" ∷ "payment-structures.read"
      ∷ "ikimina.read" ∷ []
unfolding compute_effective_permissions add add_all delete implied_by lookup
clerk_set = refl

abbrev relations : UserPermissionRelations
relations = record {
  user_roles =
      record {
        roles = some (record { name = "HR"; permission_keys = some ("payroll.reports" ∷ []) });
      }
      ∷ record { roles = none }
      ∷ [];
  user_permissions = "payroll.read" ∷ [];
}

-- The denial of an implied permission takes it away.
has_effective_permission_lem_example : has_effective_permission clerk "payroll.read" ≡ false
has_effective_permission_lem_example = has_effective_permission_lem clerk "payroll.read"

expand_twice_example :
    includes
      (expand
        (expand ("payroll.approve" ∷ []) ("payroll.approve" ∷ []))
        (expand ("payroll.approve" ∷ []) ("payroll.approve" ∷ [])))
      "payroll.read"
    ≡ includes (expand ("payroll.approve" ∷ []) ("payroll.approve" ∷ [])) "payroll.read"
expand_twice_example = expand_twice ("payroll.approve" ∷ []) "payroll.read"

includes-build_raw_permission_keys_example :
    includes (build_raw_permission_keys relations) "payroll.reports" ≡ true
includes-build_raw_permission_keys_example =
    includes-build_raw_permission_keys relations "payroll.reports"
