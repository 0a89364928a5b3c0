-- ===== src/Sessions/Login.antt =====
-- Who is given tokens by a login of backend/src/auth/auth.service.ts.
use reg_pay.Prelude.{
  ℕ, ◌≡◌, ◌≢◌, refl, sym, ap, arith, Bool, true, false, none, some, String, [], ◌∷◌, ◌++◌,
  Option-cases, Bool-cases, inl, inr,
}
use reg_pay.Users.{UserStatus}
use reg_pay.Payroll.Export.{Text}
use reg_pay.Payroll.Review.Tables.{find-passes}
use reg_pay.Sessions.Accounts.{
  Account, Crypto, Moment, Reply, State, find_account, find_account_id, tokens,
}
use reg_pay.Sessions.Handlers.{issue_session, login, login_refusal, new_session}
use reg_pay.Sessions.Rotation.{not_refused}

-- A status, with the verification, that a login admits.
abbrev pub IsAdmitted : UserStatus → Bool → Type 0
IsAdmitted status is_verified =
    (status ≢ UserStatus.suspended)
    × (status ≢ UserStatus.rejected)
    × (status ≡ UserStatus.active → is_verified ≡ true)

login_refusal-eq-none :
    (status : UserStatus) (is_verified : Bool)
    → login_refusal status is_verified ≡ none
    → IsAdmitted status is_verified
login_refusal-eq-none UserStatus.active true h = (λ e. cc, λ e. cc, λ e. refl)
login_refusal-eq-none UserStatus.active false h = cc
login_refusal-eq-none UserStatus.inactive b h = (λ e. cc, λ e. cc, λ e. cc)
login_refusal-eq-none UserStatus.pending b h = (λ e. cc, λ e. cc, λ e. cc)
login_refusal-eq-none UserStatus.paused b h = (λ e. cc, λ e. cc, λ e. cc)
login_refusal-eq-none UserStatus.suspended b h = cc
login_refusal-eq-none UserStatus.rejected b h = cc

issue_session-eq-tokens :
    (crypto : Crypto) (moment : Moment) (id : ℕ) (s s' : State) (user : ℕ) (new : String)
    → issue_session crypto moment id s ≡ (s', tokens user new)
    → (user ≡ id)
      × (s'.sessions ≡ s.sessions ++ new_session crypto moment s.next_session_id id ∷ [])
unfolding issue_session
issue_session-eq-tokens crypto moment id s s' user new h =
    elim (Option-cases (find_account_id id s)) [
      | inl nobody ↦ absurd (not_refused (rw (issue_session, nobody) at h))
      | inr (a, known) ↦
          let h' = rw (issue_session, known) at h in
          (
            let reply = ap (λ (r : State × Reply). r.1) h' in cc,
            sym (ap (λ (r : State × Reply). r.0.sessions) h'),
          )
    ]

-- A login that gives tokens is that of an account with the address or the phone number, which is
-- not deleted, has the password, is neither suspended nor rejected, and is verified if it is active.
-- It opens one session, of this account, and leaves the other sessions as they were.
pub login-eq-tokens :
    (crypto : Crypto) (moment : Moment) (identifier : String) (password : Text) (s s' : State)
    (user : ℕ) (new : String)
    → login crypto moment identifier password s ≡ (s', tokens user new)
    → (a : Account) × (find_account identifier s ≡ some a)
      × (a.row.is_deleted ≡ false)
      × (crypto.compare_password password a.password_hash ≡ true)
      × IsAdmitted a.row.status a.is_verified
      × (user ≡ a.row.id)
      × (s'.sessions ≡ s.sessions ++ new_session crypto moment s.next_session_id user ∷ [])
unfolding login
login-eq-tokens crypto moment identifier password s s' user new h =
    elim (Option-cases (find_account identifier s)) [
      | inl unknown ↦ absurd (not_refused (rw (login, unknown) at h))
      | inr (a, found) ↦ elim (Bool-cases (crypto.compare_password password a.password_hash)) [
        | inr wrong ↦ absurd (not_refused (rw (login, found, wrong) at h))
        | inl right ↦ elim (Option-cases (login_refusal a.row.status a.is_verified)) [
          | inr (e, given) ↦ absurd (not_refused (rw (login, found, right, given) at h))
          | inl admitted ↦
              let (same, opened) =
                issue_session-eq-tokens crypto moment a.row.id s s' user new
                  (rw (login, found, right, admitted) at h) in
              let passes = find-passes _ s.accounts found in
              (
                a,
                found,
                ground (arith),
                right,
                login_refusal-eq-none a.row.status a.is_verified admitted,
                same,
                rw same opened,
              )
        ]
      ]
    ]
