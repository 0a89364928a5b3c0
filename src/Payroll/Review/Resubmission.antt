-- ===== src/Payroll/Review/Resubmission.antt =====
-- A batch that was turned down, in backend/src/payroll/payroll.service.ts: `rejectBatch`, then
-- `submitBatch`.
use reg_pay.Prelude.{
  ℕ, ◌≡◌, refl, sym, ap, ◌∙◌, Bool, true, false, List, [], ◌∷◌, none, some, String, arith, ◌==◌,
  if◌then◌else◌, Bool-cases, inl, inr,
}
use mathlib.Core.Option.{some-injective}
use reg_pay.Permissions.{CurrentUser}
use reg_pay.Payroll.Schema.{
  is_approved, BatchStatus, Batch, Db, Env, update_where, find_where, find_batch, update_batch,
}
use reg_pay.Payroll.Access.{ok, >>=-eq-ok, is_super_admin}
use reg_pay.Payroll.Drafts.{is_submittable, put_forward, submit_batch}
use reg_pay.Payroll.Batches.{batch_for_review, turn_down, reject_batch}
use reg_pay.Payroll.Review.Checks.{batch_for_review-IsChecked, ok-injective}
use reg_pay.Payroll.Review.Effects.{rejected_row, draft_row, turn_down-rejects, turn_down-returns}

kept_if {ℓ} :
    {A : Type ℓ} (p : A → Bool) (f : A → A) (b : Bool) (y : A)
    → p (f y) ≡ p y
    → p (if b then f y else y) ≡ p y
kept_if p f true y e = e
kept_if p f false y e = refl

-- An update that keeps what a query asks for.
find-update_kept {ℓ} :
    {A : Type ℓ} (p q : A → Bool) (f : A → A) (xs : List A) {x : A}
    → ((y : A) → p (f y) ≡ p y)
    → find_where p xs ≡ some x
    → find_where p (update_where q f xs) ≡ some (if q x then f x else x)
find-update_kept p q f [] kept e = cc
find-update_kept p q f (y ∷ xs) kept e = elim (Bool-cases (p y)) [
  | inl here ↦
      let same = some-injective _ _ (rw here at e) in
      let still : p (if q y then f y else y) ≡ true = kept_if p f (q y) y (kept y) ∙ here in
      rw still (ap some (ap (λ z. if q z then f z else z) same))
  | inr there ↦
      let still : p (if q y then f y else y) ≡ false = kept_if p f (q y) y (kept y) ∙ there in
      rw still (find-update_kept p q f xs kept (rw there at e))
]

-- The row of a batch that is updated by its id.
find-update_own :
    (uuid : ℕ) (f : Batch → Batch) (batches : List Batch) (batch : Batch)
    → ((b : Batch) → (f b).uuid ≡ b.uuid)
    → find_where (λ (b : Batch). b.uuid == uuid) batches ≡ some batch
    → find_where (λ (b : Batch). b.uuid == uuid) (update_batch batch.id f batches) ≡ some (f batch)
find-update_own uuid f batches batch kept found =
    let own : (batch.id == batch.id) ≡ true = ground arith in
    find-update_kept (λ (b : Batch). b.uuid == uuid) (λ b. b.id == batch.id) f batches
      (λ b. ap (λ u. u == uuid) (kept b)) found
    ∙ ap (λ c. some (if c then f batch else batch)) own

submittable-is_approved :
    (status : BatchStatus) → is_submittable status ≡ true → is_approved status ≡ false
unfolding is_submittable
submittable-is_approved BatchStatus.approved h = cc
submittable-is_approved _ h = refl

abbrev pending_row : Env → Batch → Batch
pending_row env b = record b {
  status = BatchStatus.pending;
  current_approval_step = 1;
  rejected_reason = none;
  submitted_at = some env.now;
}

-- A batch that may be submitted: anyone may submit it, and it then waits for its first approval.
submit_batch-pending :
    (env : Env) (submitter : CurrentUser) (uuid : ℕ) (db : Db) (batch : Batch)
    → find_batch uuid db ≡ some batch
    → is_submittable batch.status ≡ true
    → (db' : Db) × (submit_batch env submitter uuid db ≡ ok db')
      × ((row : Batch) × (find_batch uuid db' ≡ some row)
          × (row.status ≡ BatchStatus.pending)
          × (row.current_approval_step ≡ 1))
unfolding submit_batch put_forward
submit_batch-pending env submitter uuid db batch found open_batch = (
  put_forward env submitter batch db,
  rw (found, submittable-is_approved batch.status open_batch, open_batch) refl,
  (
    pending_row env batch,
    find-update_own uuid (pending_row env) db.batches batch (λ b. refl) found,
    refl,
    refl,
  ),
)

-- What a rejection leaves may be submitted.
turn_down-submittable :
    (env : Env) (actor : CurrentUser) (uuid : ℕ) (reason : String) (batch : Batch) (db : Db)
    → find_batch uuid db ≡ some batch
    → (row : Batch) × (find_batch uuid (turn_down env actor reason batch db) ≡ some row)
      × (is_submittable row.status ≡ true)
unfolding is_submittable
turn_down-submittable env actor uuid reason batch db found =
    elim (Bool-cases (is_super_admin actor)) [
      | inl super ↦
          let f = rejected_row env actor reason in
          (
            f batch,
            ap (find_where (λ (b : Batch). b.uuid == uuid))
                  (turn_down-rejects env actor reason batch db super).0
                ∙ find-update_own uuid f db.batches batch (λ b. refl) found,
            refl,
          )
      | inr plain ↦
          let f = draft_row reason in
          (
            f batch,
            ap (find_where (λ (b : Batch). b.uuid == uuid))
                  (turn_down-returns env actor reason batch db plain).0
                ∙ find-update_own uuid f db.batches batch (λ b. refl) found,
            refl,
          )
    ]

-- A rejection that goes through is never the end of a batch, whoever rejects it, a super admin too:
-- `submitBatch` then succeeds for it, whoever calls, and leaves it pending at step 1.
pub reject_batch-resubmits :
    (env : Env) (actor : CurrentUser) (uuid : ℕ) (reason : String) (db db' : Db) (later : Env)
    (submitter : CurrentUser)
    → reject_batch env actor uuid reason db ≡ ok db'
    → (db'' : Db) × (submit_batch later submitter uuid db' ≡ ok db'')
      × ((row : Batch) × (find_batch uuid db'' ≡ some row)
          × (row.status ≡ BatchStatus.pending)
          × (row.current_approval_step ≡ 1))
unfolding reject_batch
reject_batch-resubmits env actor uuid reason db db' later submitter h =
    let (batch, review, done) = >>=-eq-ok (batch_for_review actor uuid db) _ h in
    let (found, _) = batch_for_review-IsChecked actor uuid db batch review in
    let (row, there, open_row) = turn_down-submittable env actor uuid reason batch db found in
    submit_batch-pending later submitter uuid db' row
      (ap (find_batch uuid) (sym (ok-injective done)) ∙ there) open_row
