-- ===== src/Guards.antt =====
-- The chain in front of a handler: backend/src/auth/strategies/jwt.strategy.ts and
-- backend/src/auth/guards. What Passport, the JWT library and the reflection of decorators
-- deliver (a verified payload or a refusal, the metadata of the route) is an argument.
pub mod Laws
mod Tests
use reg_pay.Prelude.{
  ℕ, Bool, true, false, ◌&&◌, ◌||◌, List, [], ◌∷◌, Option, none, some, String, str_eq, any,
  if◌then◌else◌,
}
use reg_pay.Keys.{includes}
use reg_pay.Permissions.{
  UserRole, PermissionOverride, CurrentUser, build_raw_permission_keys,
  compute_effective_permissions,
}
use reg_pay.Users.{UserStatus, UserRow, relations, find_user}

pub data AuthError : Type 0 where
  invalid_token session_gone account_suspended registration_rejected : AuthError
  no_permission no_role : AuthError
  passport_refusal : AuthError

pub data Admission {ℓ} (A : Type ℓ) : Type ℓ where
  admit : A → Admission A
  refuse : AuthError → Admission A

-- `user.user_roles.map((ur) => ur.roles?.name).filter(Boolean)`
role_names : List UserRole → List String
role_names [] = []
role_names (r ∷ rs) = elim r.roles [
  | none ↦ role_names rs
  | some role ↦ if str_eq role.name "" then role_names rs else role.name ∷ role_names rs
]

unfoldable pub current_user : UserRow → CurrentUser
unfolding role_names
current_user u = record {
  user_id = u.id;
  roles = role_names u.user_roles;
  permissions = build_raw_permission_keys (relations u);
  working_location_id = u.working_location_id;
  department_id = u.department_id;
  permission_overrides = u.user_permission_overrides;
}

-- The status checks of `JwtStrategy.validate`, after the check that the row exists.
abbrev by_status : UserStatus → UserRow → Admission CurrentUser
by_status UserStatus.suspended u = refuse account_suspended
by_status UserStatus.rejected u = refuse registration_rejected
by_status _ u = admit (current_user u)

-- `JwtStrategy.validate`; `sub` is `none` where `BigInt(payload.sub)` throws.
unfoldable pub validate : List UserRow → Option ℕ → Admission CurrentUser
unfolding current_user
validate users none = refuse invalid_token
validate users (some sub) = elim (find_user sub users) [
  | none ↦ refuse session_gone
  | some u ↦ if u.is_deleted then refuse session_gone else by_status u.status u
]

-- `JwtAuthGuard.canActivate`: the verdict of Passport's guard is an argument. A public route
-- answers `true` with the user that Passport attached, if any.
unfoldable pub jwt_auth_guard :
    (is_public has_bearer_token : Bool) → Admission CurrentUser → Admission (Option CurrentUser)
jwt_auth_guard false has_bearer (admit user) = admit (some user)
jwt_auth_guard false has_bearer (refuse e) = refuse e
jwt_auth_guard true false verdict = admit none
jwt_auth_guard true true (admit user) = admit (some user)
jwt_auth_guard true true (refuse e) = admit none

-- `user?.roles?.includes(role)` and `user?.permissions?.includes(key)`
abbrev pub has_role : Option CurrentUser → String → Bool
has_role none role = false
has_role (some u) role = includes u.roles role

abbrev has_raw : Option CurrentUser → String → Bool
has_raw none key = false
has_raw (some u) key = includes u.permissions key

-- `computeEffectivePermissions(user)`; of no user it is the empty set.
abbrev pub effective_of : Option CurrentUser → List String
effective_of none = []
effective_of (some u) = compute_effective_permissions u

-- `PermissionsGuard.canActivate`, on the metadata of the route (`[]` where there is none).
unfoldable pub permissions_guard : List String → Option CurrentUser → Admission (Unit {0})
permissions_guard [] user = admit tt
permissions_guard (r ∷ rs) user =
    if has_role user "SUPER_ADMIN" || any (λ p. includes (effective_of user) p) (r ∷ rs)
    then admit tt
    else refuse no_permission

-- `RolesGuard.canActivate`
unfoldable pub roles_guard :
    (roles permissions : List String) → Option CurrentUser → Admission (Unit {0})
roles_guard [] permissions user = admit tt
roles_guard (r ∷ rs) permissions user =
    if has_role user "SUPER_ADMIN"
      || (any (has_raw user) permissions || any (has_role user) (r ∷ rs))
    then admit tt
    else refuse no_role

-- What the decorators of a route say.
pub record Route : Type 0 where
  pub is_public : Bool
  pub roles : List String
  pub permissions : List String

infixl 5 ◌>>=◌ ◌>>◌
abbrev pub ◌>>=◌ {ℓ κ} : {A : Type ℓ} {B : Type κ} → Admission A → (A → Admission B) → Admission B
admit a >>= k = k a
refuse e >>= k = refuse e

abbrev pub ◌>>◌ {ℓ} : {B : Type ℓ} → Admission (Unit {0}) → Admission B → Admission B
m >> k = m >>= λ _. k

-- A request: whether it has a `Bearer` header, and what Passport extracted from the header or
-- the `token` parameter, with `none` where it found no token or one that does not verify.
pub record Request : Type 0 where
  pub has_bearer_token : Bool
  pub payload : Option (Option ℕ)

-- Passport's guard runs the strategy on a verified payload.
abbrev pub passport : List UserRow → Option (Option ℕ) → Admission CurrentUser
passport users none = refuse passport_refusal
passport users (some sub) = validate users sub

-- `@UseGuards(JwtAuthGuard, RolesGuard, PermissionsGuard)`, as the controllers list them.
unfoldable pub authorize : List UserRow → Route → Request → Admission (Option CurrentUser)
authorize users route request = do
  user ← jwt_auth_guard route.is_public request.has_bearer_token (passport users request.payload)
  roles_guard route.roles route.permissions user
  permissions_guard route.permissions user
  admit user
