-- ===== src/Sessions/Tests.antt =====
-- A sample of accounts and sessions, and the theorems about them at calls.
use reg_pay.Prelude.{ℕ, ◌≡◌, refl, true, false, [], ◌∷◌, ◌++◌, none, some, String, arith}
use reg_pay.Keys.{includes}
use reg_pay.Permissions.{has_effective_permission}
use reg_pay.Users.{UserRow, UserStatus, relations}
use reg_pay.Guards.{current_user}
use reg_pay.Payroll.Export.{same_text}
use reg_pay.Sessions.Accounts.{
  Account, AuthRefusal, Crypto, Moment, Session, State, build_effective_permissions, find_account,
  is_strong_password, refused, tokens,
}
use reg_pay.Sessions.Handlers.{
  claim, new_session, issue_session, login, refresh, refresh_for, reset_password, verify_account,
}
use reg_pay.Sessions.Grants.{build_effective_permissions_lem}
use reg_pay.Sessions.Login.{IsAdmitted, login-eq-tokens}
use reg_pay.Sessions.Rotation.{refresh-once}

-- Hashes that keep their text, and one password for all.
abbrev crypto : Crypto
crypto = record {
  hash_token = λ t. t;
  compare_password = λ given hash. same_text given (49 ∷ []);
  hash_password = λ given. "hash";
}

abbrev moment : ℕ → String → Moment
moment now token = record {
  now = now;
  refresh_token = token;
  reset_token = "reset";
  uuid = 9;
  code = "123456";
}

abbrev row : ℕ → UserStatus → UserRow
row id status = record {
  id = id;
  status = status;
  is_deleted = false;
  working_location_id = none;
  department_id = none;
  user_roles =
      record {
        roles = some (record { name = "HR"; permission_keys = some ("payroll.approve" ∷ []) });
      }
      ∷ [];
  user_permissions = [];
  user_permission_overrides =
      record { permission_key = "payroll.approve"; is_allowed = false } ∷ [];
}

abbrev account : UserRow → String → Account
account r email = record {
  row = r;
  email = email;
  phone_number = "";
  password_hash = "hash";
  is_verified = true;
  reset_password_token = some "reset";
  reset_password_expires = some 500;
  verification_code_hash = none;
  verification_code_expires = none;
  last_login_at = none;
}

abbrev session : ℕ → ℕ → String → Session
session id user token = record {
  id = id;
  user_id = user;
  refresh_token_hash = token;
  is_revoked = false;
  expires_at = 1000;
}

-- The second account is deleted, the third suspended and not verified yet, with a code.
abbrev sample : State
sample = record {
  accounts =
      account (row 1 UserStatus.active) "a"
      ∷ account (record (row 2 UserStatus.active) { is_deleted = true }) "b"
      ∷ record (account (row 3 UserStatus.suspended) "c") {
        is_verified = false;
        verification_code_hash = some "123456";
        verification_code_expires = some 500;
      }
      ∷ [];
  sessions = session 1 1 "one" ∷ session 2 2 "two" ∷ [];
  next_session_id = 3;
  working_locations = [];
  departments = [];
  notices = [];
  next_user_id = 4;
  login_audits = [];
  mails = [];
}

-- Opens the service for the evaluations below.
service : Unit {0}
unfolding login refresh refresh_for claim issue_session reset_password verify_account
    is_strong_password
service = tt

abbrev refreshed : State
refreshed = (refresh crypto (moment 100 "three") "one" sample).0

refreshes : refresh crypto (moment 100 "three") "one" sample ≡ (refreshed, tokens 1 "three")
unfolding service
refreshes = refl

refresh-once_example :
    (e : AuthRefusal) × ((refresh crypto (moment 200 "four") "one" refreshed).1 ≡ refused e)
refresh-once_example =
    refresh-once crypto (moment 100 "three") (moment 200 "four") "one" sample refreshed 1 "three"
      (ground arith) refreshes

abbrev logged_in : State
logged_in = (login crypto (moment 100 "three") "a" (49 ∷ []) sample).0

logs_in : login crypto (moment 100 "three") "a" (49 ∷ []) sample ≡ (logged_in, tokens 1 "three")
unfolding service
logs_in = refl

login-eq-tokens_example :
    (a : Account) × (find_account "a" sample ≡ some a)
    × (a.row.is_deleted ≡ false)
    × (crypto.compare_password (49 ∷ []) a.password_hash ≡ true)
    × IsAdmitted a.row.status a.is_verified
    × (1 ≡ a.row.id)
    × (logged_in.sessions ≡ sample.sessions ++ new_session crypto (moment 100 "three") 3 1 ∷ [])
login-eq-tokens_example =
    login-eq-tokens crypto (moment 100 "three") "a" (49 ∷ []) sample logged_in 1 "three" logs_in

-- A suspended account is refused a login, and has a session after the verification of its code; a
-- deleted account refreshes.
replies :
    ((login crypto (moment 100 "three") "c" (49 ∷ []) sample).1 ≡ refused AuthRefusal.suspended)
    × ((verify_account crypto (moment 100 "three") "c" "123456" sample).1 ≡ tokens 3 "three")
    × ((refresh crypto (moment 100 "three") "two" sample).1 ≡ tokens 2 "three")
unfolding service
replies = (refl, refl, refl)

-- A password that is reset leaves the sessions of its account.
abbrev reset : State
reset =
    let password = 65 ∷ 97 ∷ 49 ∷ 50 ∷ 33 ∷ [] in
    (reset_password crypto (moment 100 "three") "reset" password password sample).0

still_live : (refresh crypto (moment 100 "three") "one" reset).1 ≡ tokens 1 "three"
unfolding service
still_live = refl

build_effective_permissions_lem_example :
    includes
      (build_effective_permissions
        (relations (row 1 UserStatus.active))
        (row 1 UserStatus.active).user_permission_overrides)
      "payroll.approve"
    ≡ has_effective_permission (current_user (row 1 UserStatus.active)) "payroll.approve"
build_effective_permissions_lem_example =
    build_effective_permissions_lem (row 1 UserStatus.active) "payroll.approve"
