-- ===== src/Sessions/Rotation.antt =====
-- A refresh token is good for one refresh.
use mathlib.Core.Path.{subst}
use mathlib.Core.Option.{some-injective}
use reg_pay.Prelude.{
  ℕ, ◌<◌, ◌≡◌, ◌≢◌, ◌⊎◌, refl, sym, ap, ◌∙◌, arith, false, List, [], ◌∷◌, some, String, str_eq, any,
  ltb, All, any-append, Bool-cases, Option-cases, inl, inr,
}
use reg_pay.Users.{UserStatus}
use reg_pay.Payroll.Schema.{find_where, update_where}
use reg_pay.Payroll.Review.Tables.{All-find, find-concat}
use reg_pay.Sessions.Accounts.{
  Account, AuthRefusal, Crypto, Moment, Reply, Session, State, find_account_id, refused, tokens,
}
use reg_pay.Sessions.Handlers.{
  claim, find_session, is_live, refresh, refresh_for, revoke, revoked, with_session,
}

-- The ids of the sessions are below the counter.
abbrev pub IsNumbered : State → Type 0
IsNumbered s = All (λ (x : Session). x.id < s.next_session_id) s.sessions

-- After a revocation no session with the id is live.
revoke-dead :
    (id : ℕ) (xs : List Session) → any (is_live id) (update_where (is_live id) revoked xs) ≡ false
revoke-dead id [] = refl
revoke-dead id (x ∷ xs) = elim (Bool-cases (is_live id x)) [
  | inl live ↦ rw live (ground (arith, revoke-dead id xs))
  | inr dead ↦ rw dead (ground (arith, revoke-dead id xs))
]

-- The choice of `refresh` by the status of the user
abbrev choose_by_status {ℓ} : {A : Type ℓ} → UserStatus → A → A → A → A
choose_by_status t p q r = elim t [ UserStatus.suspended ↦ p | UserStatus.rejected ↦ q | _ ↦ r ]

pub not_refused :
    {s s' : State} {e : AuthRefusal} {user : ℕ} {new : String}
    → ◌≢◌ {A = State × Reply} (s, refused e) (s', tokens user new)
not_refused h = let n = ap (λ (r : State × Reply). r.1) h in cc

-- A revocation keeps which session a token finds.
find-revoke :
    (hash : String) (id : ℕ) (xs : List Session) {x : Session}
    → find_where (λ (y : Session). str_eq y.refresh_token_hash hash) xs ≡ some x
    → (y : Session) × (find_where
          (λ (z : Session). str_eq z.refresh_token_hash hash)
          (update_where (is_live id) revoked xs)
        ≡ some y)
      × (y.id ≡ x.id)
find-revoke hash id [] e = cc
find-revoke hash id (z ∷ zs) e = elim (Bool-cases (str_eq z.refresh_token_hash hash)) [
  | inl hit ↦
      let same : z ≡ _ = some-injective _ _ (rw hit at e) in
      elim (Bool-cases (is_live id z)) [
        | inl live ↦ rw (live, hit) (revoked z, refl, ap (λ (y : Session). y.id) same)
        | inr dead ↦ rw (dead, hit) (z, refl, ap (λ (y : Session). y.id) same)
      ]
  | inr miss ↦
      let later = find-revoke hash id zs (rw miss at e) in
      elim (Bool-cases (is_live id z)) [
        | inl live ↦ rw (live, miss) later
        | inr dead ↦ rw (dead, miss) later
      ]
]

-- The claim of a session that is not live is refused.
claim-dead :
    (crypto : Crypto) (moment : Moment) (x : Session) (s : State)
    → any (is_live x.id) s.sessions ≡ false
    → claim crypto moment x s ≡ (s, refused AuthRefusal.invalid_refresh_token)
unfolding claim
claim-dead crypto moment x s dead = rw (claim, dead) refl

choose_by_status-cases {ℓ} :
    {A : Type ℓ} (t : UserStatus) (p q r : A)
    → (choose_by_status t p q r ≡ p)
      ⊎ (choose_by_status t p q r ≡ q)
      ⊎ (choose_by_status t p q r ≡ r)
choose_by_status-cases UserStatus.suspended p q r = inl refl
choose_by_status-cases UserStatus.rejected p q r = inr (inl refl)
choose_by_status-cases UserStatus.active p q r = inr (inr refl)
choose_by_status-cases UserStatus.inactive p q r = inr (inr refl)
choose_by_status-cases UserStatus.pending p q r = inr (inr refl)
choose_by_status-cases UserStatus.paused p q r = inr (inr refl)

refresh_for-cases :
    (crypto : Crypto) (moment : Moment) (x : Session) (a : Account) (s : State)
    → (refresh_for crypto moment x (some a) s ≡ (revoke x.id s, refused AuthRefusal.suspended))
      ⊎ (refresh_for crypto moment x (some a) s ≡ (revoke x.id s, refused AuthRefusal.rejected))
      ⊎ (refresh_for crypto moment x (some a) s ≡ claim crypto moment x s)
unfolding refresh_for
refresh_for-cases crypto moment x a s =
    choose_by_status-cases {A = State × Reply} a.row.status
      (revoke x.id s, refused AuthRefusal.suspended) (revoke x.id s, refused AuthRefusal.rejected)
      (claim crypto moment x s)

-- The refresh of a session that is not live is refused, for this reason or an earlier one.
refresh-dead :
    (crypto : Crypto) (moment : Moment) (token : String) (s : State) (x : Session)
    → find_session (crypto.hash_token token) s ≡ some x
    → any (is_live x.id) s.sessions ≡ false
    → (e : AuthRefusal) × ((refresh crypto moment token s).1 ≡ refused e)
unfolding refresh claim
refresh-dead crypto moment token s x found dead = elim (Bool-cases (ltb x.expires_at moment.now)) [
  | inl late ↦ rw (refresh, found, late) (_, refl)
  | inr timely ↦ elim (Option-cases (find_account_id x.user_id s)) [
    | inl nobody ↦ rw (refresh, found, timely, nobody) (_, refl)
    | inr (a, known) ↦
        rw (refresh, found, timely, known)
          (elim (refresh_for-cases crypto moment x a s) [
            | inl suspended ↦ (AuthRefusal.suspended, ap (λ (r : State × Reply). r.1) suspended)
            | inr (inl rejected) ↦ (AuthRefusal.rejected, ap (λ (r : State × Reply). r.1) rejected)
            | inr (inr claimed) ↦ (
              AuthRefusal.invalid_refresh_token,
              ap (λ (r : State × Reply). r.1) (claimed ∙ claim-dead crypto moment x s dead),
            )
          ])
  ]
]

-- What a refresh that goes through has done.
refresh-eq-tokens :
    (crypto : Crypto) (moment : Moment) (token : String) (s s' : State) (user : ℕ) (new : String)
    → refresh crypto moment token s ≡ (s', tokens user new)
    → (x : Session) × (find_session (crypto.hash_token token) s ≡ some x)
      × (with_session crypto moment x.user_id (revoke x.id s) ≡ s')
unfolding refresh claim
refresh-eq-tokens crypto moment token s s' user new h =
    elim (Option-cases (find_session (crypto.hash_token token) s)) [
      | inl unknown ↦ absurd (not_refused (rw (refresh, unknown) at h))
      | inr (x, found) ↦ elim (Bool-cases (ltb x.expires_at moment.now)) [
        | inl late ↦ absurd (not_refused (rw (refresh, found, late) at h))
        | inr timely ↦ elim (Option-cases (find_account_id x.user_id s)) [
          | inl nobody ↦ absurd (not_refused (rw (refresh, found, timely, nobody) at h))
          | inr (a, known) ↦
              let h' = rw (refresh, found, timely, known) at h in
              elim (refresh_for-cases crypto moment x a s) [
                | inl suspended ↦ absurd (not_refused (sym suspended ∙ h'))
                | inr (inl rejected) ↦ absurd (not_refused (sym rejected ∙ h'))
                | inr (inr claimed) ↦
                    let k = sym claimed ∙ h' in
                    elim (Bool-cases (any (is_live x.id) s.sessions)) [
                      | inr dead ↦
                          absurd (not_refused (sym (claim-dead crypto moment x s dead) ∙ k))
                      | inl live ↦
                          (x, found, ap (λ (r : State × Reply). r.0) (rw (claim, live, known) at k))
                    ]
              ]
        ]
      ]
    ]

-- If the ids of the sessions are below the counter, a refresh that goes through uses its token up:
-- a later refresh with the same token is refused, at any moment.
pub refresh-once :
    (crypto : Crypto) (moment later : Moment) (token : String) (s s' : State) (user : ℕ)
    (new : String)
    → IsNumbered s
    → refresh crypto moment token s ≡ (s', tokens user new)
    → (e : AuthRefusal) × ((refresh crypto later token s').1 ≡ refused e)
refresh-once crypto moment later token s s' user new numbered h =
    let (x, found, ended) = refresh-eq-tokens crypto moment token s s' user new h in
    let (y, kept, same) = find-revoke (crypto.hash_token token) x.id s.sessions found in
    let below : x.id < s.next_session_id =
      All-find (λ (z : Session). z.id < s.next_session_id) _ s.sessions numbered found in
    let opened = with_session crypto moment x.user_id (revoke x.id s) in
    let found' : find_session (crypto.hash_token token) opened ≡ some y =
      find-concat _ (update_where (is_live x.id) revoked s.sessions) _ kept in
    let dead : any (is_live y.id) opened.sessions ≡ false = rw same (
      any-append (is_live x.id) (update_where (is_live x.id) revoked s.sessions) _
      ∙ rw (revoke-dead x.id s.sessions) (ground arith)) in
    subst (λ t. (e : AuthRefusal) × ((refresh crypto later token t).1 ≡ refused e)) ended
      (refresh-dead crypto later token opened y found' dead)
