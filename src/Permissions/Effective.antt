-- ===== src/Permissions/Effective.antt =====
-- What the effective permission set of a user holds, key by key.
use reg_pay.Prelude.{
  ◌≡◌, refl, Bool, ◌||◌, List, [], ◌∷◌, Option, none, some, String, arith, str_eq, any,
  if◌then◌else◌,
}
use reg_pay.Keys.{includes, add_all, includes-add, includes-add_all, includes-delete, any-add_all}
use reg_pay.Permissions.{
  UserRole, UserPermissionRelations, keys_of_role, role_keys, build_raw_permission_keys,
  PermissionOverride, CurrentUser, implied_by, expand, apply_override, apply_overrides,
  compute_effective_permissions, has_effective_permission,
}

-- The verdict of the last override that names a key.
abbrev pub last_override : List PermissionOverride → String → Option Bool
last_override [] key = none
last_override (o ∷ os) key = elim (last_override os key) [
  | some allowed ↦ some allowed
  | none ↦ if str_eq o.permission_key key then some o.is_allowed else none
]

-- A key is granted if it is held, or implied by one that is held.
abbrev pub granted : List String → String → Bool
granted raw key = includes raw key || any (λ held. includes (implied_by held) key) raw

abbrev pub decide_by : Option Bool → Bool → Bool
decide_by (some allowed) default = allowed
decide_by none default = default

pub includes-expand :
    (keys effective : List String) (key : String)
    → includes (expand keys effective) key
      ≡ (includes effective key || any (λ held. includes (implied_by held) key) keys)
unfolding expand
includes-expand [] effective key = ground arith
includes-expand (k ∷ keys) effective key = ground (
  arith,
  includes-expand keys (add_all (implied_by k) effective) key,
  includes-add_all (implied_by k) effective key,
)

includes-apply_override :
    (o : PermissionOverride) (effective : List String) (key : String)
    → includes (apply_override o effective) key
      ≡ (if str_eq o.permission_key key then o.is_allowed else includes effective key)
unfolding apply_override
includes-apply_override o effective key = ground (
  arith,
  includes-add o.permission_key effective key,
  includes-delete o.permission_key effective key,
)

pub includes-apply_overrides :
    (os : List PermissionOverride) (effective : List String) (key : String)
    → includes (apply_overrides os effective) key
      ≡ decide_by (last_override os key) (includes effective key)
unfolding apply_overrides
includes-apply_overrides [] effective key = refl
includes-apply_overrides (o ∷ os) effective key = ground (
  arith,
  includes-apply_overrides os (apply_override o effective) key,
  includes-apply_override o effective key,
)

-- A user holds a permission exactly when the last override that names it allows it, or when no
-- override names it and it is among the raw permissions or implied by one of them.
pub has_effective_permission_lem :
    (user : CurrentUser) (key : String)
    → has_effective_permission user key
      ≡ decide_by (last_override user.permission_overrides key) (granted user.permissions key)
unfolding has_effective_permission compute_effective_permissions
has_effective_permission_lem user key =
    let start = add_all user.permissions [] in
    ground (
      arith,
      includes-apply_overrides user.permission_overrides (expand start start) key,
      includes-expand start start key,
      includes-add_all user.permissions [] key,
      any-add_all (λ held. includes (implied_by held) key) user.permissions [],
    )

-- Some joined role lists the key.
abbrev pub in_roles : List UserRole → String → Bool
in_roles roles key = any (λ r. includes (keys_of_role r) key) roles

includes-role_keys :
    (rs : List UserRole) (keys : List String) (key : String)
    → includes (role_keys rs keys) key ≡ (includes keys key || in_roles rs key)
unfolding role_keys
includes-role_keys [] keys key = ground arith
includes-role_keys (r ∷ rs) keys key = ground (
  arith,
  includes-role_keys rs (add_all (keys_of_role r) keys) key,
  includes-add_all (keys_of_role r) keys key,
)

-- The raw permissions of a user are the keys of the roles and the keys granted directly.
pub includes-build_raw_permission_keys :
    (user : UserPermissionRelations) (key : String)
    → includes (build_raw_permission_keys user) key
      ≡ (in_roles user.user_roles key || includes user.user_permissions key)
unfolding build_raw_permission_keys
includes-build_raw_permission_keys user key = ground (
  arith,
  includes-add_all user.user_permissions (role_keys user.user_roles []) key,
  includes-role_keys user.user_roles [] key,
)
