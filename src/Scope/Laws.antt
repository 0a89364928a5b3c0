-- ===== src/Scope/Laws.antt =====
-- What the query extension filters, and for which models.
use reg_pay.Prelude.{◌≡◌, refl, Bool, true, false, Option, none, some, String, arith, all}
use reg_pay.Keys.{includes, all-includes}
use reg_pay.Constants.{lookup, module_scope_config}
use reg_pay.Scope.{UserScope, Where, scoped_where, schema_models}

abbrev is_unregistered : String → Bool
is_unregistered model = elim (lookup model module_scope_config) [ none ↦ true | some _ ↦ false ]

schema_models_unregistered : all is_unregistered schema_models ≡ true
unfolding lookup
schema_models_unregistered = refl

-- No model of the schema is filtered: whatever the caller's scope, the operation and the query,
-- the extension runs the query as it was written. (The table's keys begin with a capital, the
-- models of the schema do not.)
pub schema_models_unscoped :
    (scope : Option UserScope) (model operation : String) (w : Where)
    → includes schema_models model ≡ true
    → scoped_where scope model operation w ≡ w
unfolding scoped_where
schema_models_unscoped none model operation w h = refl
schema_models_unscoped (some scope) model operation w h =
    let missing = all-includes is_unregistered schema_models model schema_models_unregistered h in
    ground arith
