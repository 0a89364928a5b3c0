-- ===== src/Sessions/Grants.antt =====
-- The permissions of a token and of a request: `buildEffectivePermissions` of
-- backend/src/auth/auth.service.ts beside `computeEffectivePermissions`.
use reg_pay.Prelude.{◌≡◌, refl, [], String}
use reg_pay.Keys.{add_all, any-add_all, includes, includes-add_all}
use reg_pay.Permissions.{
  build_raw_permission_keys, compute_effective_permissions, expand, has_effective_permission,
  implied_by,
}
use reg_pay.Permissions.Effective.{includes-apply_overrides, includes-expand}
use reg_pay.Users.{UserRow, relations}
use reg_pay.Guards.{current_user}
use reg_pay.Sessions.Accounts.{build_effective_permissions}

-- The permissions that a login puts into the token of a user are those that a request of the user is
-- checked with, key by key.
pub build_effective_permissions_lem :
    (u : UserRow) (key : String)
    → includes (build_effective_permissions (relations u) u.user_permission_overrides) key
      ≡ has_effective_permission (current_user u) key
unfolding build_effective_permissions has_effective_permission compute_effective_permissions
    current_user
build_effective_permissions_lem u key =
    let raw = build_raw_permission_keys (relations u) in
    rw
      (
        includes-apply_overrides u.user_permission_overrides (expand raw raw) key,
        includes-apply_overrides u.user_permission_overrides
            (expand (add_all raw []) (add_all raw [])) key,
        includes-expand raw raw key,
        includes-expand (add_all raw []) (add_all raw []) key,
        includes-add_all raw [] key,
        any-add_all (λ held. includes (implied_by held) key) raw [],
      )
      refl
