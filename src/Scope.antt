-- ===== src/Scope.antt =====
-- The scoping of reads by working location: the request scope of
-- backend/src/common/interceptors/working-location-scope.interceptor.ts and the query extension
-- of backend/src/prisma/prisma.service.ts.
pub mod Laws
mod Tests
use reg_pay.Prelude.{
  ℕ, Bool, true, false, not, ◌||◌, List, [], ◌∷◌, Option, none, some, String, str_eq, if◌then◌else◌,
}
use reg_pay.Keys.{includes}
use reg_pay.Constants.{lookup, ModuleScopeConfig, module_scope_config}
use reg_pay.Permissions.{CurrentUser, compute_effective_permissions}

pub record UserScope : Type 0 where
  pub roles : List String
  pub permissions : List String
  pub working_location_id : Option ℕ
  pub department_id : Option ℕ

-- `WorkingLocationScopeInterceptor.intercept`: the scope that the handler runs in, if any.
unfoldable pub scope_of : Option CurrentUser → Option UserScope
scope_of none = none
scope_of (some u) = some (record {
  roles = u.roles;
  permissions = compute_effective_permissions u;
  working_location_id = u.working_location_id;
  department_id = u.department_id;
})

abbrev pub scoped_read_operations : List String
scoped_read_operations =
    "findMany" ∷ "findFirst" ∷ "findUnique" ∷ "count" ∷ "aggregate" ∷ "groupBy" ∷ []

-- The `where` of a query, as the values that it asks of fields.
abbrev pub Where : Type 0
Where = List (String × ℕ)

-- `where[field] = value`
unfoldable pub set_field : String → ℕ → Where → Where
set_field field value [] = (field, value) ∷ []
set_field field value ((f, v) ∷ w) =
    if str_eq f field then (field, value) ∷ w else (f, v) ∷ set_field field value w

-- The filter, where the model has a location column and the caller a working location.
abbrev locate : String → Option String → Option ℕ → Where → Where
locate model none wl w = w
locate model (some field) none w = w
locate model (some field) (some wl) w =
    if str_eq model "Working_locations" then set_field "id" wl w else set_field field wl w

-- The part of the extension that is reached for a scope and a registered model.
abbrev restrict : UserScope → String → ModuleScopeConfig → Where → Where
restrict scope model config w =
    if includes scope.permissions config.read_all_permission
    then w
    else locate model config.location_field scope.working_location_id w

-- `$allOperations` of the extension: the `where` that the query is run with.
unfoldable pub scoped_where : Option UserScope → (model operation : String) → Where → Where
scoped_where none model operation w = w
scoped_where (some scope) model operation w =
    if includes scope.roles "SUPER_ADMIN" then w else elim (lookup model module_scope_config) [
      | none ↦ w
      | some config ↦
          if not (includes scoped_read_operations operation)
          then w
          else restrict scope model config w
    ]

-- The models of backend/prisma/schema.prisma, by which Prisma names the model of an operation.
abbrev pub schema_models : List String
schema_models =
    "allowances" ∷ "allowance_types" ∷ "approval_request_actions" ∷ "approval_requests"
    ∷ "approval_workflow_steps" ∷ "approval_workflows" ∷ "audit_logs" ∷ "branch_managers"
    ∷ "deduction_types" ∷ "departments" ∷ "department_deactivation_requests" ∷ "employee_deductions"
    ∷ "employee_documents" ∷ "employee_history" ∷ "employees" ∷ "positions"
    ∷ "position_employment_categories" ∷ "employment_categories" ∷ "position_deduction_types"
    ∷ "position_allowance_templates" ∷ "ikimina_contributions" ∷ "ikimina_memberships"
    ∷ "monthly_taxes" ∷ "notifications" ∷ "notification_dismissals" ∷ "payment_batch_items"
    ∷ "payment_batches" ∷ "payment_structures" ∷ "payroll_batch_approval_actions" ∷ "permissions"
    ∷ "role_permissions" ∷ "roles" ∷ "system_config" ∷ "time_records" ∷ "transactions"
    ∷ "transfer_requests" ∷ "user_departments" ∷ "user_permission_overrides" ∷ "user_permissions"
    ∷ "user_roles" ∷ "user_sessions" ∷ "users" ∷ "working_locations" ∷ []
