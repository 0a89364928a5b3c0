-- ===== src/Scope/Tests.antt =====
-- Scoped queries at concrete models.
use reg_pay.Prelude.{◌≡◌, refl, [], ◌∷◌, none, some}
use reg_pay.Permissions.{CurrentUser}
use reg_pay.Scope.{scope_of, scoped_where}
use reg_pay.Scope.Laws.{schema_models_unscoped}

abbrev clerk : CurrentUser
clerk = record {
  user_id = 5;
  roles = "FINANCE" ∷ [];
  permissions = "payroll.read" ∷ [];
  working_location_id = some 10;
  department_id = none;
  permission_overrides = [];
}

schema_models_unscoped_example :
    scoped_where (scope_of (some clerk)) "payment_batches" "findMany" [] ≡ []
schema_models_unscoped_example =
    schema_models_unscoped (scope_of (some clerk)) "payment_batches" "findMany" [] refl
