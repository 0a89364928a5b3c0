-- ===== src/Users.antt =====
-- The rows of `users` with the relations that authorisation reads, and the lookups over them.
use reg_pay.Prelude.{
  ℕ, Bool, true, false, List, [], ◌∷◌, Option, none, some, String, ◌==◌, if◌then◌else◌,
}
use reg_pay.Permissions.{UserRole, UserPermissionRelations, PermissionOverride}

-- `users_status` of the schema.
pub data UserStatus : Type 0 where
  active inactive suspended pending rejected paused : UserStatus

pub record UserRow : Type 0 where
  pub id : ℕ
  pub status : UserStatus
  pub is_deleted : Bool
  pub working_location_id : Option ℕ
  pub department_id : Option ℕ
  pub user_roles : List UserRole
  pub user_permissions : List String
  pub user_permission_overrides : List PermissionOverride

abbrev pub relations : UserRow → UserPermissionRelations
relations u = record { user_roles = u.user_roles; user_permissions = u.user_permissions }

abbrev pub is_active_status : UserStatus → Bool
is_active_status UserStatus.active = true
is_active_status _ = false

-- `users.findUnique({ where: { id } })`
unfoldable pub find_user : ℕ → List UserRow → Option UserRow
find_user id [] = none
find_user id (u ∷ us) = if u.id == id then some u else find_user id us

-- An optional id is a given id.
abbrev pub is_id : Option ℕ → ℕ → Bool
is_id none id = false
is_id (some i) id = i == id
