-- ===== src/Payroll/Review/Checks.antt =====
-- Inversion of the checks of backend/src/payroll/payroll.service.ts: what a check that let a
-- call through has established.
use mathlib.Core.Path.{subst}
use reg_pay.Prelude.{ℕ, ◌≡◌, refl, ap, ◌∙◌, Bool, true, false, Option, none, some}
use reg_pay.Permissions.{CurrentUser}
use reg_pay.Payroll.Schema.{Item, Batch, Db, find_batch, find_batch_id, find_item}
use reg_pay.Payroll.Access.{
  Error, Result, ok, err, ◌>>◌, >>=-eq-ok, throw_if, or_throw, ensure_actor_can_approve_batch,
  ensure_batch_can_still_be_reviewed,
}
use reg_pay.Payroll.Items.{item_for_review}
use reg_pay.Payroll.Batches.{batch_for_review}

-- What the checks of a review have established of the batch.
pub record IsChecked (actor : CurrentUser) (db : Db) (batch : Batch) : Type 0 where
  pub reviewable : ensure_batch_can_still_be_reviewed batch.status ≡ ok tt
  pub allowed :
      ensure_actor_can_approve_batch db actor batch.working_location_id batch.current_approval_step
      ≡ ok tt

pub or_throw-eq-ok {ℓ} :
    {A : Type ℓ} (o : Option A) (e : Error) {a : A} → or_throw o e ≡ ok a → o ≡ some a
or_throw-eq-ok none e h = cc
or_throw-eq-ok (some x) e h = cc

pub check-eq-ok {ℓ} :
    {A : Type ℓ} (m : Result (Unit {0})) (r : Result A) {a : A}
    → (m >> r) ≡ ok a
    → (m ≡ ok tt) × (r ≡ ok a)
check-eq-ok (ok x) r h = (refl, h)
check-eq-ok (err e) r h = cc

pub checks-eq-ok {ℓ} :
    {A : Type ℓ} (m n : Result (Unit {0})) (r : Result A) {a : A}
    → (m >> (n >> r)) ≡ ok a
    → (m ≡ ok tt) × (n ≡ ok tt) × (r ≡ ok a)
checks-eq-ok m n r h =
    let (first, rest) = check-eq-ok m (n >> r) h in
    let (second, last) = check-eq-ok n r rest in (first, second, last)

pub ok-injective {ℓ} : {A : Type ℓ} {x y : A} → ok x ≡ ok y → x ≡ y
ok-injective e = cc

pub batch_for_review-IsChecked :
    (actor : CurrentUser) (uuid : ℕ) (db : Db) (batch : Batch)
    → batch_for_review actor uuid db ≡ ok batch
    → (find_batch uuid db ≡ some batch) × IsChecked actor db batch
unfolding batch_for_review
batch_for_review-IsChecked actor uuid db batch h =
    let (found, e, h') = >>=-eq-ok (or_throw (find_batch uuid db) Error.batch_not_found) _ h in
    let (r, a, same) = checks-eq-ok _ _ (ok found) h' in
    let eq = ok-injective same in
    (
      or_throw-eq-ok _ _ e ∙ ap some eq,
      subst (IsChecked actor db) eq (record { reviewable = r; allowed = a }),
    )

-- The item and the batch of a review of an item.
pub item_for_review-IsChecked :
    (actor : CurrentUser) (uuid : ℕ) (db : Db) {checked : Item × Batch}
    → item_for_review actor uuid db ≡ ok checked
    → (find_item uuid db ≡ some checked.0)
      × (find_batch_id checked.0.payment_batch_id db ≡ some checked.1)
      × IsChecked actor db checked.1
unfolding item_for_review
item_for_review-IsChecked actor uuid db h =
    let (item, e, h') = >>=-eq-ok (or_throw (find_item uuid db) Error.item_not_found) _ h in
    let (batch, e', h'') =
      >>=-eq-ok (or_throw (find_batch_id item.payment_batch_id db) Error.null_dereference) _ h' in
    let (r, a, same) = checks-eq-ok _ _ (ok (item, batch)) h'' in
    subst
      (λ (c : Item × Batch).
        (find_item uuid db ≡ some c.0)
        × (find_batch_id c.0.payment_batch_id db ≡ some c.1)
        × IsChecked actor db c.1)
      (ok-injective same)
      (or_throw-eq-ok _ _ e, or_throw-eq-ok _ _ e', record { reviewable = r; allowed = a })

pub throw_if-eq-ok : (b : Bool) (e : Error) → throw_if b e ≡ ok tt → b ≡ false
throw_if-eq-ok true e h = cc
throw_if-eq-ok false e h = refl
