-- ===== src/Sessions/Accounts.antt =====
-- The rows that backend/src/auth/auth.service.ts reads and writes, and what it takes from outside.
use reg_pay.Prelude.{
  ℕ, Bool, not, ◌&&◌, ◌||◌, List, [], ◌∷◌, Option, String, str_eq, ◌==◌, leb, any, all, keep,
  length,
}
use reg_pay.Permissions.{
  UserPermissionRelations, PermissionOverride, apply_overrides, build_raw_permission_keys, expand,
}
use reg_pay.Users.{UserRow}
use reg_pay.Payroll.Schema.{WorkingLocation, find_where}
use reg_pay.Payroll.Export.{Text}

-- A row of `users`; `row` has what authorisation reads of it.
pub record Account : Type 0 where
  pub row : UserRow
  pub email : String
  pub phone_number : String
  pub password_hash : String
  pub is_verified : Bool
  pub reset_password_token : Option String
  pub reset_password_expires : Option ℕ
  pub verification_code_hash : Option String
  pub verification_code_expires : Option ℕ
  pub last_login_at : Option ℕ

-- A row of `user_sessions`
pub record Session : Type 0 where
  pub id : ℕ
  pub user_id : ℕ
  pub refresh_token_hash : String
  pub is_revoked : Bool
  pub expires_at : ℕ

-- A call of the mail service: a link to reset a password, or a code.
pub data Mail : Type 0 where
  reset_link verification_code : (email secret : String) → Mail

pub record LoginAudit : Type 0 where
  pub user_id : ℕ
  pub success : Bool

-- A row of `departments`
pub record DepartmentRow : Type 0 where
  pub id : ℕ
  pub working_location_id : ℕ
  pub is_active : Bool

-- A call of the notifications service about a user: to the branch manager of a location, or to the
-- administrators.
pub record Notice : Type 0 where
  pub branch : Option ℕ
  pub user_uuid : ℕ

pub record State : Type 0 where
  pub accounts : List Account
  pub working_locations : List WorkingLocation
  pub departments : List DepartmentRow
  pub notices : List Notice
  pub next_user_id : ℕ
  pub sessions : List Session
  pub next_session_id : ℕ
  pub login_audits : List LoginAudit
  pub mails : List Mail

-- `hashToken`, and the comparison and the hash of passwords
pub record Crypto : Type 0 where
  pub hash_token : String → String
  pub compare_password : Text → String → Bool
  pub hash_password : Text → String

-- What a call takes from its moment: the clock, in milliseconds, the refresh token that is signed,
-- the uuids and the code that are drawn.
pub record Moment : Type 0 where
  pub now : ℕ
  pub refresh_token : String
  pub reset_token : String
  pub uuid : ℕ
  pub code : String

pub data AuthRefusal : Type 0 where
  unknown_identifier incorrect_password suspended rejected not_verified : AuthRefusal
  invalid_refresh_token refresh_token_expired user_not_found : AuthRefusal
  invalid_reset_token passwords_differ weak_password invalid_code : AuthRefusal
  already_registered location_missing department_missing : AuthRefusal

pub data Reply : Type 0 where
  refused : AuthRefusal → Reply
  tokens : (user_id : ℕ) → (refresh_token : String) → Reply
  acknowledged : Reply

-- `REFRESH_TOKEN_EXPIRES_IN_DAYS`, in milliseconds
abbrev pub refresh_lifetime : ℕ
refresh_lifetime = 604800000

-- `buildEffectivePermissions`
unfoldable pub build_effective_permissions :
    UserPermissionRelations → List PermissionOverride → List String
unfolding build_raw_permission_keys expand apply_overrides
build_effective_permissions user overrides =
    let permission_set = build_raw_permission_keys user in
    apply_overrides overrides (expand permission_set permission_set)

abbrev has_identifier : String → Account → Bool
has_identifier identifier a =
    (str_eq a.email identifier || str_eq a.phone_number identifier) && not a.row.is_deleted

-- `users.findFirst` by an address or a phone number
abbrev pub find_account : String → State → Option Account
find_account identifier s = find_where (has_identifier identifier) s.accounts

abbrev pub find_account_id : ℕ → State → Option Account
find_account_id id s = find_where (λ a. a.row.id == id) s.accounts

abbrev is_between : (low high : ℕ) → ℕ → Bool
is_between low high c = leb low c && leb c high

-- The characters that a dot does not match
abbrev is_line_end : ℕ → Bool
is_line_end c = any (λ d. d == c) (10 ∷ 13 ∷ 8232 ∷ 8233 ∷ [])

-- @$!%*?&
abbrev is_special : ℕ → Bool
is_special c = any (λ d. d == c) (64 ∷ 36 ∷ 33 ∷ 37 ∷ 42 ∷ 63 ∷ 38 ∷ [])

-- `passwordRegex.test`
unfoldable pub is_strong_password : Text → Bool
is_strong_password password =
    all (λ c. not (is_line_end c)) password
    && (leb 5 (length password)
        && (any (is_between 97 122) password
            && (any (is_between 65 90) password
                && (leb 2 (length (keep (is_between 48 57) password)) && any is_special password))))
