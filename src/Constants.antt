-- ===== src/Constants.antt =====
-- The permission tables of backend/src/common/constants/permissions.constants.ts.
-- A definition of a permission is kept as its key: names and descriptions are texts for the
-- user interface. A `Record<string, …>` is an association list.
use reg_pay.Prelude.{List, [], ◌∷◌, ◌++◌, Option, none, some, String, str_eq, if◌then◌else◌}

-- `table[key]`
unfoldable pub lookup {ℓ} : {V : Type ℓ} → String → List (String × V) → Option V
lookup key [] = none
lookup key ((k, v) ∷ rest) = if str_eq k key then some v else lookup key rest

pub record PermissionModule : Type 0 where
  pub module_name : String
  pub permissions : List String

abbrev in_module : String → List String → PermissionModule
in_module name keys = record { module_name = name; permissions = keys }

abbrev pub permission_modules : List PermissionModule
permission_modules =
    in_module "USER_MANAGEMENT" (
      "users.read" ∷ "users.read_all" ∷ "users.create" ∷ "users.approve" ∷ "users.update"
      ∷ "users.suspend" ∷ "users.transfer" ∷ [])
    ∷ in_module "RBAC" (
        "roles.manage" ∷ "roles.manage_own_location" ∷ "permissions.read" ∷ "permissions.assign"
        ∷ [])
    ∷ in_module "ORGANIZATION" (
        "branches.manage" ∷ "branches.read_all" ∷ "departments.manage" ∷ "branch-manager.manage"
        ∷ [])
    ∷ in_module "EMPLOYEES" (
        "employees.create" ∷ "employees.read" ∷ "employees.read_all" ∷ "employees.update"
        ∷ "employees.approve" ∷ "employees.transfer" ∷ "employees.transfer_approve"
        ∷ "employees.suspend" ∷ [])
    ∷ in_module "ATTENDANCE" (
        "attendance.create" ∷ "attendance.read" ∷ "attendance.read_all" ∷ "attendance.update"
        ∷ "attendance.approve" ∷ [])
    ∷ in_module "PAYMENT_STRUCTURES" (
        "payment-structures.create" ∷ "payment-structures.read" ∷ "payment-structures.read_all"
        ∷ "payment-structures.update" ∷ "payment-structures.delete" ∷ "allowances.manage"
        ∷ "deductions.manage" ∷ [])
    ∷ in_module "PAYROLL" (
        "payroll.create" ∷ "payroll.read" ∷ "payroll.read_all" ∷ "payroll.manage"
        ∷ "payroll.approve" ∷ "payroll.approve_initial" ∷ "payroll.approve_final"
        ∷ "payroll.reports" ∷ [])
    ∷ in_module "NOTIFICATIONS" ("notifications.read" ∷ "notifications.manage" ∷ [])
    ∷ in_module "AUDIT" ("audit.view" ∷ "audit.read_all" ∷ [])
    ∷ in_module "IKIMINA" ("ikimina.manage" ∷ "ikimina.read" ∷ "ikimina.read_all" ∷ [])
    ∷ in_module "SYSTEM_CONFIG" ("system-config.manage" ∷ [])
    ∷ in_module "POSITIONS" ("positions.read" ∷ "positions.manage" ∷ [])
    ∷ []

flat_keys : List PermissionModule → List String
flat_keys [] = []
flat_keys (m ∷ ms) = m.permissions ++ flat_keys ms

-- `ALL_PERMISSION_KEYS`
unfoldable pub all_permission_keys : List String
unfolding flat_keys
all_permission_keys = flat_keys permission_modules

abbrev pub implied_permissions : List (String × List String)
implied_permissions =
    ("employees.read_all", "employees.read" ∷ [])
    ∷ ("attendance.read_all", "attendance.read" ∷ [])
    ∷ ("attendance.create", "attendance.read" ∷ [])
    ∷ ("payroll.create", "payroll.read" ∷ "payroll.manage" ∷ [])
    ∷ ("payroll.manage", "payroll.read" ∷ [])
    ∷ ("payroll.read_all", "payroll.read" ∷ [])
    ∷ ("payroll.approve", "payroll.approve_initial" ∷ "payroll.approve_final" ∷ "payroll.read" ∷ [])
    ∷ ("payroll.approve_initial", "payroll.read" ∷ [])
    ∷ ("payroll.approve_final", "payroll.read" ∷ [])
    ∷ ("payment-structures.read_all", "payment-structures.read" ∷ [])
    ∷ ("deductions.manage", "payment-structures.read" ∷ [])
    ∷ ("users.read_all", "users.read" ∷ [])
    ∷ ("users.create", "users.read" ∷ [])
    ∷ ("ikimina.manage", "ikimina.read" ∷ [])
    ∷ ("ikimina.read_all", "ikimina.read" ∷ [])
    ∷ ("audit.read_all", "audit.view" ∷ [])
    ∷ ("branches.manage", "departments.manage" ∷ "branch-manager.manage" ∷ [])
    ∷ ("positions.manage", "positions.read" ∷ [])
    ∷ []

-- The permission keys of the roles that the seed creates.
abbrev pub baseline_role_permissions : List (String × List String)
baseline_role_permissions =
    (
      "BRANCH_MANAGER",
      "users.read" ∷ "users.create" ∷ "users.update" ∷ "users.approve" ∷ "users.suspend"
          ∷ "users.transfer" ∷ "roles.manage_own_location" ∷ "permissions.read"
          ∷ "permissions.assign" ∷ "employees.create" ∷ "employees.read" ∷ "employees.update"
          ∷ "employees.approve" ∷ "employees.transfer" ∷ "employees.transfer_approve"
          ∷ "employees.suspend" ∷ "attendance.create" ∷ "attendance.read" ∷ "attendance.update"
          ∷ "attendance.approve" ∷ "payment-structures.create" ∷ "payment-structures.read"
          ∷ "payment-structures.update" ∷ "payment-structures.delete" ∷ "allowances.manage"
          ∷ "deductions.manage" ∷ "payroll.create" ∷ "payroll.read" ∷ "payroll.manage"
          ∷ "payroll.approve_initial" ∷ "payroll.reports" ∷ "ikimina.manage" ∷ "ikimina.read"
          ∷ "notifications.read" ∷ "notifications.manage" ∷ "audit.view" ∷ "positions.read"
          ∷ "positions.manage" ∷ [],
    )
    ∷ (
      "ACCOUNTANT",
      "employees.read" ∷ "attendance.read" ∷ "payment-structures.create" ∷ "payment-structures.read"
          ∷ "payment-structures.update" ∷ "allowances.manage" ∷ "deductions.manage"
          ∷ "payroll.create" ∷ "payroll.read" ∷ "payroll.manage" ∷ "payroll.reports"
          ∷ "notifications.read" ∷ "positions.read" ∷ [],
    )
    ∷ (
      "HR",
      "employees.create" ∷ "employees.read" ∷ "employees.update" ∷ "employees.suspend"
          ∷ "payment-structures.create" ∷ "payment-structures.read" ∷ "payment-structures.update"
          ∷ "deductions.manage" ∷ "notifications.read" ∷ "payroll.approve_final" ∷ "payroll.reports"
          ∷ "positions.read" ∷ "positions.manage" ∷ [],
    )
    ∷ (
      "ATTENDANT",
      "employees.read" ∷ "attendance.create" ∷ "attendance.read" ∷ "attendance.update"
          ∷ "notifications.read" ∷ [],
    )
    ∷ (
      "FINANCE",
      "employees.read" ∷ "attendance.read" ∷ "payment-structures.create" ∷ "payment-structures.read"
          ∷ "payment-structures.update" ∷ "deductions.manage" ∷ "payroll.create" ∷ "payroll.read"
          ∷ "payroll.manage" ∷ "payroll.reports" ∷ "positions.read" ∷ [],
    )
    ∷ []

pub record ModuleScopeConfig : Type 0 where
  pub read_all_permission : String
  pub location_field : Option String
  pub department_field : Option String

abbrev pub module_scope_config : List (String × ModuleScopeConfig)
module_scope_config =
    (
      "Employees",
      record {
        read_all_permission = "employees.read_all";
        location_field = some "working_location_id";
        department_field = some "department_id";
      },
    )
    ∷ (
      "Users",
      record {
        read_all_permission = "users.read_all";
        location_field = some "working_location_id";
        department_field = some "department_id";
      },
    )
    ∷ (
      "Departments",
      record {
        read_all_permission = "branches.read_all";
        location_field = some "working_location_id";
        department_field = none;
      },
    )
    ∷ (
      "Branch_managers",
      record {
        read_all_permission = "branches.read_all";
        location_field = some "working_location_id";
        department_field = none;
      },
    )
    ∷ (
      "Payment_batches",
      record {
        read_all_permission = "payroll.read_all";
        location_field = some "working_location_id";
        department_field = none;
      },
    )
    ∷ (
      "Time_records",
      record {
        read_all_permission = "attendance.read_all";
        location_field = some "working_location_id";
        department_field = some "department_id";
      },
    )
    ∷ (
      "Transactions",
      record {
        read_all_permission = "payroll.read_all";
        location_field = some "working_location_id";
        department_field = some "department_id";
      },
    )
    ∷ (
      "Ikimina_memberships",
      record {
        read_all_permission = "ikimina.read_all";
        location_field = some "working_location_id";
        department_field = some "department_id";
      },
    )
    ∷ []
