-- ===== src/Permissions.antt =====
-- backend/src/common/utils/effective-permissions.util.ts and the guards of
-- backend/src/auth/guards: who may call a route.
pub mod Effective
pub mod Closure
mod Tests
use reg_pay.Prelude.{ℕ, Bool, true, false, List, [], ◌∷◌, Option, none, some, String, if◌then◌else◌}
use reg_pay.Keys.{includes, add, delete, add_all}
use reg_pay.Constants.{lookup, implied_permissions}

-- A row of `roles`; its keys are a JSON column.
pub record Role : Type 0 where
  pub name : String
  pub permission_keys : Option (List String)

-- An entry of `user.user_roles`, with the role that was joined to it, if any.
pub record UserRole : Type 0 where
  pub roles : Option Role

pub record UserPermissionRelations : Type 0 where
  pub user_roles : List UserRole
  pub user_permissions : List String

-- `x ?? []`
abbrev pub or_empty {ℓ} : {A : Type ℓ} → Option (List A) → List A
or_empty none = []
or_empty (some xs) = xs

-- `userRole.roles?.permission_keys ?? []`
abbrev pub keys_of_role : UserRole → List String
keys_of_role r = elim r.roles [ none ↦ [] | some role ↦ or_empty role.permission_keys ]

role_keys : List UserRole → List String → List String
role_keys [] keys = keys
role_keys (r ∷ rs) keys = role_keys rs (add_all (keys_of_role r) keys)

unfoldable pub build_raw_permission_keys : UserPermissionRelations → List String
unfolding role_keys
build_raw_permission_keys user = add_all user.user_permissions (role_keys user.user_roles [])

pub record PermissionOverride : Type 0 where
  pub permission_key : String
  pub is_allowed : Bool

-- The fields of `CurrentUserType` that decide what its holder may do. Ids are compared by their
-- decimal texts in the source, and as numbers here.
pub record CurrentUser : Type 0 where
  pub user_id : ℕ
  pub roles : List String
  pub permissions : List String
  pub working_location_id : Option ℕ
  pub department_id : Option ℕ
  pub permission_overrides : List PermissionOverride

-- `IMPLIED_PERMISSIONS[key] ?? []`
unfoldable pub implied_by : String → List String
unfolding lookup
implied_by key = or_empty (lookup key implied_permissions)

-- The loop over `Array.from(effective)`, a copy made before the loop.
unfoldable pub expand : List String → List String → List String
expand [] effective = effective
expand (key ∷ keys) effective = expand keys (add_all (implied_by key) effective)

apply_override : PermissionOverride → List String → List String
apply_override o effective =
    if o.is_allowed then add o.permission_key effective else delete o.permission_key effective

unfoldable pub apply_overrides : List PermissionOverride → List String → List String
unfolding apply_override
apply_overrides [] effective = effective
apply_overrides (o ∷ os) effective = apply_overrides os (apply_override o effective)

unfoldable pub compute_effective_permissions : CurrentUser → List String
unfolding expand apply_overrides
compute_effective_permissions user =
    let effective = add_all user.permissions [] in
    apply_overrides user.permission_overrides (expand effective effective)

unfoldable pub has_effective_permission : CurrentUser → String → Bool
has_effective_permission user permission = includes (compute_effective_permissions user) permission
