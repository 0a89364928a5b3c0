-- ===== src/Sessions/Register.antt =====
-- Registration and the profile, in backend/src/auth/auth.service.ts.
use reg_pay.Prelude.{
  ℕ, suc, Bool, true, false, not, ◌&&◌, ◌||◌, [], ◌∷◌, ◌++◌, Option, none, some, String, str_eq,
  ◌==◌, any, if◌then◌else◌,
}
use reg_pay.Users.{UserStatus}
use reg_pay.Payroll.Schema.{WorkingLocation, update_where}
use reg_pay.Payroll.Export.{Text}
use reg_pay.Savings.Rows.{or_default}
use reg_pay.Attendance.Rows.{matches}
use reg_pay.Sessions.Accounts.{
  Account, AuthRefusal, Crypto, DepartmentRow, Moment, Reply, State, acknowledged, refused,
}

-- The fields of `RegisterDto` that the checks read; a location and a department are named by an id.
pub record RegisterDto : Type 0 where
  pub email : String
  pub phone_number : String
  pub password : Text
  pub working_location_id : Option ℕ
  pub department_id : Option ℕ

-- The row that `register` creates.
abbrev new_account : Crypto → Moment → RegisterDto → ℕ → Account
new_account crypto moment dto id = record {
  row = record {
    id = id;
    status = UserStatus.pending;
    is_deleted = false;
    working_location_id = dto.working_location_id;
    department_id = dto.department_id;
    user_roles = [];
    user_permissions = [];
    user_permission_overrides = [];
  };
  email = dto.email;
  phone_number = dto.phone_number;
  password_hash = crypto.hash_password dto.password;
  is_verified = true;
  reset_password_token = none;
  reset_password_expires = none;
  verification_code_hash = none;
  verification_code_expires = none;
  last_login_at = none;
}

-- `resolveWorkingLocationId` and `resolveDepartmentId`, where an id is given
abbrev has_location : Option ℕ → State → Bool
has_location none s = true
has_location (some id) s =
    any (λ (l : WorkingLocation). (l.id == id) && not l.is_deleted) s.working_locations

abbrev has_department : Option ℕ → (location : Option ℕ) → State → Bool
has_department none location s = true
has_department (some id) location s =
    any
      (λ (d : DepartmentRow).
        (d.id == id) && (matches location (some d.working_location_id) && d.is_active))
      s.departments

-- `register`
unfoldable pub register : Crypto → Moment → RegisterDto → State → State × Reply
register crypto moment dto s =
    if any (λ (a : Account). str_eq a.email dto.email || str_eq a.phone_number dto.phone_number)
      s.accounts
    then (s, refused AuthRefusal.already_registered)
    else if not (has_location dto.working_location_id s)
    then (s, refused AuthRefusal.location_missing)
    else if not (has_department dto.department_id dto.working_location_id s)
    then (s, refused AuthRefusal.department_missing)
    else (
      record s {
        accounts = s.accounts ++ new_account crypto moment dto s.next_user_id ∷ [];
        next_user_id = suc s.next_user_id;
        notices =
            s.notices ++ record { branch = dto.working_location_id; user_uuid = moment.uuid } ∷ [];
      },
      acknowledged,
    )

abbrev changed_hash : Crypto → Option Text → String → String
changed_hash crypto none hash = hash
changed_hash crypto (some []) hash = hash
changed_hash crypto (some (c ∷ t)) hash = crypto.hash_password (c ∷ t)

-- `updateProfile`, but for the names; the user is the caller, whose row the guards have found.
unfoldable pub update_profile :
    Crypto → (user : ℕ) → (email : Option String) → (password : Option Text) → State → State × Reply
update_profile crypto user email password s = (
  record s {
    accounts =
        update_where (λ (a : Account). a.row.id == user)
          (λ a. record a {
            email = or_default email a.email;
            password_hash = changed_hash crypto password a.password_hash;
          })
          s.accounts;
  },
  acknowledged,
)
