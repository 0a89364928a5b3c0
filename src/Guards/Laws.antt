-- ===== src/Guards/Laws.antt =====
-- Whom the chain of guards lets through.
use reg_pay.Prelude.{
  ℕ, ◌≡◌, refl, sym, ap, ◌∙◌, not, ◌&&◌, str_eq, eq_iff, ◌≢◌, ◌⊎◌, inl, inr, Bool, true, false,
  ◌||◌, List, [], ◌∷◌, Option, none, some, String, arith, any, if◌then◌else◌, Option-cases,
}
use reg_pay.Keys.{includes}
use reg_pay.Permissions.{
  CurrentUser, UserRole, compute_effective_permissions, has_effective_permission,
  build_raw_permission_keys,
}
use reg_pay.Permissions.Effective.{last_override, granted, decide_by, has_effective_permission_lem}
use reg_pay.Users.{UserStatus, UserRow, relations, find_user}
use reg_pay.Guards.{
  Admission, admit, refuse, session_gone, current_user, role_names, ◌>>=◌, ◌>>◌, no_permission,
  by_status, validate, jwt_auth_guard, permissions_guard, roles_guard, Route, Request, passport,
  authorize,
}

-- A permission as its holder's overrides, raw permissions and the implication table decide it.
abbrev pub may : CurrentUser → String → Bool
may u p = decide_by (last_override u.permission_overrides p) (granted u.permissions p)

any-effective :
    (u : CurrentUser) (ps : List String)
    → any (λ p. includes (compute_effective_permissions u) p) ps ≡ any (may u) ps
unfolding has_effective_permission
any-effective u [] = refl
any-effective u (p ∷ ps) = ground (arith, any-effective u ps, has_effective_permission_lem u p)

permissions_guard_lem :
    (p : String) (ps : List String) (u : CurrentUser)
    → permissions_guard (p ∷ ps) (some u) ≡ (
        if includes u.roles "SUPER_ADMIN" || any (may u) (p ∷ ps)
        then admit tt
        else refuse no_permission)
unfolding permissions_guard
permissions_guard_lem p ps u = rw (any-effective u (p ∷ ps))

-- A row of `user_roles` links to a role of the name.
abbrev pub is_named : String → UserRole → Bool
is_named name r = elim r.roles [ none ↦ false | some role ↦ str_eq role.name name ]

-- The names of the roles, but for the empty one.
includes-role_names :
    (rs : List UserRole) (name : String)
    → includes (role_names rs) name ≡ (not (str_eq name "") && any (is_named name) rs)
unfolding role_names
includes-role_names [] name = ground arith
includes-role_names (r ∷ rs) name = elim (Option-cases r.roles) [
  | inl unlinked ↦ rw unlinked (includes-role_names rs name)
  | inr (role, linked) ↦ rw linked (
      ground (
        arith,
        includes-role_names rs name,
        eq_iff role.name "",
        eq_iff name "",
        eq_iff role.name name,
      ))
]

-- What a session that is let in rests on: the row of its user as it stands now.
pub record IsLive (users : List UserRow) (u : CurrentUser) : Type 0 where
  pub row : UserRow
  pub found : find_user u.user_id users ≡ some row
  pub kept : row.is_deleted ≡ false
  pub not_suspended : row.status ≢ UserStatus.suspended
  pub not_rejected : row.status ≢ UserStatus.rejected
  pub roles :
      (name : String)
      → includes u.roles name ≡ (not (str_eq name "") && any (is_named name) row.user_roles)
  pub location : u.working_location_id ≡ row.working_location_id
  pub department : u.department_id ≡ row.department_id
  pub permissions : u.permissions ≡ build_raw_permission_keys (relations row)
  pub overrides : u.permission_overrides ≡ row.user_permission_overrides

find_user_id :
    (id : ℕ) (users : List UserRow) (row : UserRow) → find_user id users ≡ some row → row.id ≡ id
unfolding find_user
find_user_id id [] row h = cc
find_user_id id (x ∷ users) row h = ground (arith, find_user_id id users row)

-- What the checks on the row establish, and what they copy from it.
admitted_row :
    (row : UserRow) (u : CurrentUser)
    → (if row.is_deleted then refuse session_gone else by_status row.status row) ≡ admit u
    → (row.is_deleted ≡ false)
      × (row.status ≢ UserStatus.suspended)
      × (row.status ≢ UserStatus.rejected)
      × (u.user_id ≡ row.id)
      × (u.roles ≡ role_names row.user_roles)
      × (u.working_location_id ≡ row.working_location_id)
      × (u.department_id ≡ row.department_id)
      × (u.permissions ≡ build_raw_permission_keys (relations row))
      × (u.permission_overrides ≡ row.user_permission_overrides)
unfolding current_user
admitted_row row u h = ground arith

validate-IsLive :
    (users : List UserRow) (sub : Option ℕ) (u : CurrentUser)
    → validate users sub ≡ admit u
    → IsLive users u × (sub ≡ some u.user_id)
unfolding validate
validate-IsLive users none u h = cc
validate-IsLive users (some id) u h = elim (Option-cases (find_user id users)) [
  | inl gone ↦ absurd (ground arith)
  | inr (row, found) ↦
      let (kept, active, accepted, same, names, location, department, perms, overs) =
        admitted_row row u (rw (found, validate) at h) in
      let own : u.user_id ≡ id = same ∙ find_user_id id users row found in
      (
        record {
          row = row;
          found = ap (λ i. find_user i users) own ∙ found;
          kept = kept;
          not_suspended = active;
          not_rejected = accepted;
          roles =
              λ name. ap (λ rs. includes rs name) names ∙ includes-role_names row.user_roles name;
          location = location;
          department = department;
          permissions = perms;
          overrides = overs;
        },
        ap (λ i. some i) (sym own),
      )
]

passport-IsLive :
    (users : List UserRow) (payload : Option (Option ℕ)) (u : CurrentUser)
    → passport users payload ≡ admit u
    → IsLive users u × (payload ≡ some (some u.user_id))
passport-IsLive users none u h = cc
passport-IsLive users (some sub) u h =
    let (live, own) = validate-IsLive users sub u h in (live, ap (λ i. some i) own)

-- What the three guards of a protected route have answered when the request is let in.
guards_answers :
    (route : Route) (bearer : Bool) (verdict : Admission CurrentUser) (user : Option CurrentUser)
    → (do
      found ← jwt_auth_guard false bearer verdict
      roles_guard route.roles route.permissions found
      permissions_guard route.permissions found
      admit found)
      ≡ admit user
    → (u : CurrentUser) × (verdict ≡ admit u)
      × (user ≡ some u)
      × (roles_guard route.roles route.permissions (some u) ≡ admit tt)
      × (permissions_guard route.permissions (some u) ≡ admit tt)
unfolding jwt_auth_guard
guards_answers route bearer (refuse e) user h = cc
guards_answers route bearer (admit u) user h = (u, refl, ground arith, ground arith, ground arith)

allowed-of_guard :
    (ps : List String) (u : CurrentUser)
    → permissions_guard ps (some u) ≡ admit tt
    → (ps ≡ []) ⊎ ((includes u.roles "SUPER_ADMIN" || any (may u) ps) ≡ true)
allowed-of_guard [] u h = inl refl
allowed-of_guard (p ∷ ps) u h = inr (ground (arith, permissions_guard_lem p ps u))

allowed-of_roles :
    (roles permissions : List String) (u : CurrentUser)
    → roles_guard roles permissions (some u) ≡ admit tt
    → (roles ≡ [])
      ⊎ ((includes u.roles "SUPER_ADMIN"
            || (any (includes u.permissions) permissions || any (includes u.roles) roles))
          ≡ true)
unfolding roles_guard
allowed-of_roles [] permissions u h = inl refl
allowed-of_roles (r ∷ rs) permissions u h = inr (ground arith)

-- On a route that is not public, a request that passes the guards carries a live session of the
-- user whom its token names: the user's row exists, is not deleted, suspended or rejected, and gives
-- the roles (by the names that are not empty), the location, the department, the permissions and the
-- overrides. Where the route requires roles, the user is a super admin, has one of them, or has one
-- of the route's permissions among the raw ones; and where it requires permissions, the user is a
-- super admin or may do one of them.
pub authorize-IsLive :
    (users : List UserRow) (route : Route) (request : Request) (user : Option CurrentUser)
    → route.is_public ≡ false
    → authorize users route request ≡ admit user
    → (u : CurrentUser) × (user ≡ some u)
      × (request.payload ≡ some (some u.user_id))
      × IsLive users u
      × ((route.roles ≡ [])
          ⊎ ((includes u.roles "SUPER_ADMIN"
                || (any (includes u.permissions) route.permissions
                    || any (includes u.roles) route.roles))
              ≡ true))
      × ((route.permissions ≡ [])
          ⊎ ((includes u.roles "SUPER_ADMIN" || any (may u) route.permissions) ≡ true))
unfolding authorize
authorize-IsLive users route request user protected h =
    let (u, verdict, same, in_role, allowed) =
      guards_answers route request.has_bearer_token (passport users request.payload) user
        (rw protected at h) in
    let (live, own) = passport-IsLive users request.payload u verdict in
    (
      u,
      same,
      own,
      live,
      allowed-of_roles route.roles route.permissions u in_role,
      allowed-of_guard route.permissions u allowed,
    )
