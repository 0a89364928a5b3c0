-- ===== src/Sessions/Handlers.antt =====
-- The operations of backend/src/auth/auth.service.ts on sessions and passwords.
use reg_pay.Prelude.{
  ℕ, suc, ◌+◌, Bool, true, false, not, ◌&&◌, List, [], ◌∷◌, ◌++◌, Option, none, some, String,
  str_eq, ◌==◌, ltb, leb, any, if◌then◌else◌,
}
use reg_pay.Users.{UserStatus, is_active_status}
use reg_pay.Payroll.Schema.{find_where, update_where}
use reg_pay.Payroll.Export.{Text, same_text}
use reg_pay.Sessions.Accounts.{
  Account, AuthRefusal, Crypto, Moment, Reply, Session, State, acknowledged, find_account,
  find_account_id, is_strong_password, refresh_lifetime, refused, reset_link, tokens,
  verification_code,
}

-- `writeLoginAudit`
abbrev audited : ℕ → Bool → State → State
audited user success s = record s {
  login_audits = s.login_audits ++ record { user_id = user; success = success } ∷ [];
}

abbrev update_account : ℕ → (Account → Account) → List Account → List Account
update_account id f = update_where (λ a. a.row.id == id) f

abbrev pub new_session : Crypto → Moment → (id user : ℕ) → Session
new_session crypto moment id user = record {
  id = id;
  user_id = user;
  refresh_token_hash = crypto.hash_token moment.refresh_token;
  is_revoked = false;
  expires_at = moment.now + refresh_lifetime;
}

-- `user_sessions.create`
abbrev pub with_session : Crypto → Moment → ℕ → State → State
with_session crypto moment user s = record s {
  sessions = s.sessions ++ new_session crypto moment s.next_session_id user ∷ [];
  next_session_id = suc s.next_session_id;
}

-- `issueSession`, for an account that was found; `buildPayload` reads it again.
unfoldable pub issue_session : Crypto → Moment → ℕ → State → State × Reply
issue_session crypto moment user s = elim (find_account_id user s) [
  | none ↦ (s, refused AuthRefusal.user_not_found)
  | some a ↦
      let opened = with_session crypto moment user s in
      (
        audited user true (record opened {
          accounts =
              update_account user (λ b. record b { last_login_at = some moment.now })
                opened.accounts;
        }),
        tokens user moment.refresh_token,
      )
]

-- The checks of `login` after that of the password
abbrev pub login_refusal : UserStatus → (is_verified : Bool) → Option AuthRefusal
login_refusal UserStatus.suspended is_verified = some AuthRefusal.suspended
login_refusal UserStatus.rejected is_verified = some AuthRefusal.rejected
login_refusal UserStatus.active false = some AuthRefusal.not_verified
login_refusal _ _ = none

-- `login`
unfoldable pub login :
    Crypto → Moment → (identifier : String) → (password : Text) → State → State × Reply
unfolding issue_session
login crypto moment identifier password s = elim (find_account identifier s) [
  | none ↦ (s, refused AuthRefusal.unknown_identifier)
  | some a ↦
      if crypto.compare_password password a.password_hash
      then elim (login_refusal a.row.status a.is_verified) [
        | some refusal ↦ (s, refused refusal)
        | none ↦ issue_session crypto moment a.row.id s
      ]
      else (audited a.row.id false s, refused AuthRefusal.incorrect_password)
]

abbrev pub is_live : ℕ → Session → Bool
is_live id x = (x.id == id) && not x.is_revoked

abbrev pub revoked : Session → Session
revoked x = record x { is_revoked = true }

-- `user_sessions.updateMany({ where: { id, is_revoked: false }, data: { is_revoked: true } })`
abbrev pub revoke : ℕ → State → State
revoke id s = record s { sessions = update_where (is_live id) revoked s.sessions }

-- `refresh` from the claim of the session on
unfoldable pub claim : Crypto → Moment → Session → State → State × Reply
claim crypto moment x s =
    if any (is_live x.id) s.sessions
    then elim (find_account_id x.user_id s) [
      | none ↦ (revoke x.id s, refused AuthRefusal.user_not_found)
      | some a ↦ (
        with_session crypto moment x.user_id (revoke x.id s),
        tokens x.user_id moment.refresh_token,
      )
    ]
    else (s, refused AuthRefusal.invalid_refresh_token)

-- `refresh` for a session that was found and has not expired, with the status of its user
unfoldable pub refresh_for : Crypto → Moment → Session → Option Account → State → State × Reply
unfolding claim
refresh_for crypto moment x none s = (s, refused AuthRefusal.user_not_found)
refresh_for crypto moment x (some a) s = elim a.row.status [
  | UserStatus.suspended ↦ (revoke x.id s, refused AuthRefusal.suspended)
  | UserStatus.rejected ↦ (revoke x.id s, refused AuthRefusal.rejected)
  | _ ↦ claim crypto moment x s
]

abbrev pub find_session : String → State → Option Session
find_session hash s = find_where (λ (x : Session). str_eq x.refresh_token_hash hash) s.sessions

-- `refresh`
unfoldable pub refresh : Crypto → Moment → (refresh_token : String) → State → State × Reply
unfolding refresh_for
refresh crypto moment token s = elim (find_session (crypto.hash_token token) s) [
  | none ↦ (s, refused AuthRefusal.invalid_refresh_token)
  | some x ↦
      if ltb x.expires_at moment.now
      then (s, refused AuthRefusal.refresh_token_expired)
      else refresh_for crypto moment x (find_account_id x.user_id s) s
]

-- `logout`
unfoldable pub logout : Crypto → (user : ℕ) → (refresh_token : String) → State → State × Reply
logout crypto user token s = (
  record s {
    sessions =
        update_where
          (λ x. (x.user_id == user) && str_eq x.refresh_token_hash (crypto.hash_token token))
          revoked s.sessions;
  },
  acknowledged,
)

-- `logoutAll`
unfoldable pub logout_all : (user : ℕ) → State → State × Reply
logout_all user s = (
  record s {
    sessions = update_where (λ x. (x.user_id == user) && not x.is_revoked) revoked s.sessions;
  },
  acknowledged,
)

-- `forgotPassword`: the same answer whether there is an account or not.
unfoldable pub forgot_password : Moment → (identifier : String) → State → State × Reply
forgot_password moment identifier s = elim (find_account identifier s) [
  | none ↦ (s, acknowledged)
  | some a ↦ (
    record s {
      accounts =
          update_account a.row.id
            (λ b. record b {
              reset_password_token = some moment.reset_token;
              reset_password_expires = some (moment.now + 3600000);
            })
            s.accounts;
      mails = s.mails ++ reset_link a.email moment.reset_token ∷ [];
    },
    acknowledged,
  )
]

abbrev is_text : Option String → String → Bool
is_text none t = false
is_text (some u) t = str_eq u t

abbrev lasts_until : Option ℕ → ℕ → Bool
lasts_until none now = false
lasts_until (some at) now = leb now at

-- `resetPassword`
unfoldable pub reset_password :
    Crypto → Moment → (token : String) → (password confirm_password : Text) → State → State × Reply
unfolding is_strong_password
reset_password crypto moment token password confirm_password s =
    elim (find_where
      (λ (a : Account).
        is_text a.reset_password_token token
        && (lasts_until a.reset_password_expires moment.now && not a.row.is_deleted))
      s.accounts) [
        | none ↦ (s, refused AuthRefusal.invalid_reset_token)
        | some a ↦
            if not (same_text password confirm_password)
            then (s, refused AuthRefusal.passwords_differ)
            else if not (is_strong_password password)
            then (s, refused AuthRefusal.weak_password)
            else (
              record s {
                accounts =
                    update_account a.row.id
                      (λ b. record b {
                        password_hash = crypto.hash_password password;
                        reset_password_token = none;
                        reset_password_expires = none;
                      })
                      s.accounts;
              },
              acknowledged,
            )
      ]

-- The checks of `verifyAccount`
abbrev is_verifiable : Crypto → ℕ → String → Account → Bool
is_verifiable crypto now code a =
    not a.is_verified
    && (lasts_until a.verification_code_expires now
        && is_text a.verification_code_hash (crypto.hash_token code))

-- `verifyAccount`
unfoldable pub verify_account : Crypto → Moment → (identifier code : String) → State → State × Reply
unfolding issue_session
verify_account crypto moment identifier code s = elim (find_account identifier s) [
  | none ↦ (s, refused AuthRefusal.invalid_code)
  | some a ↦
      if is_verifiable crypto moment.now code a
      then issue_session crypto moment a.row.id (record s {
        accounts =
            update_account a.row.id
              (λ b. record b {
                is_verified = true;
                verification_code_hash = none;
                verification_code_expires = none;
              })
              s.accounts;
      })
      else (s, refused AuthRefusal.invalid_code)
]

-- `issueVerificationCode`
abbrev with_code : Crypto → Moment → Account → State → State
with_code crypto moment a s = record s {
  accounts =
      update_account a.row.id
        (λ b. record b {
          verification_code_hash = some (crypto.hash_token moment.code);
          verification_code_expires = some (moment.now + 1800000);
        })
        s.accounts;
  mails = s.mails ++ verification_code a.email moment.code ∷ [];
}

-- `resendVerificationCode`
unfoldable pub resend_verification_code :
    Crypto → Moment → (identifier : String) → State → State × Reply
resend_verification_code crypto moment identifier s = elim (find_account identifier s) [
  | none ↦ (s, acknowledged)
  | some a ↦
      if is_active_status a.row.status && not a.is_verified
      then (with_code crypto moment a s, acknowledged)
      else (s, acknowledged)
]
