-- ===== src/Payroll/Review/Step.antt =====
-- A handler that goes through is one of seven steps: the writes of an operation, with what its
-- checks have established. Proofs about all handlers go by the cases of `Step`.
use mathlib.Core.Path.{subst}
use reg_pay.Prelude.{
  ℕ, ◌⊎◌, ◌≡◌, refl, ap, ◌∙◌, inl, inr, true, false, ◌||◌, List, [], ◌∷◌, Option, some, String,
  arith, ◌==◌, length, Bool-cases,
}
use reg_pay.Permissions.{CurrentUser}
use reg_pay.Payroll.Schema.{
  Item, Batch, Db, Env, find_batch, find_batch_id, find_item, is_approved, is_rejected,
}
use reg_pay.Payroll.Access.{Error, ok, >>=-eq-ok, throw_if, or_throw}
use reg_pay.Payroll.Drafts.{UploadedFile, attach, add_batch_attachments, put_forward, submit_batch}
use reg_pay.Payroll.Items.{item_for_review, accept, approve_item, deny, reject_item}
use reg_pay.Payroll.Split.{rejected_items, split_rejected, handle_partial_rejection_split}
use reg_pay.Payroll.Batches.{
  is_final, batch_for_review, conclude, approve_batch, turn_down, reject_batch,
}
use reg_pay.Payroll.Review.{
  Request, add_attachments, submit, accept_item, deny_item, accept_batch, deny_batch, handle,
}
use reg_pay.Payroll.Review.Checks.{
  IsChecked, or_throw-eq-ok, check-eq-ok, checks-eq-ok, ok-injective, throw_if-eq-ok,
  batch_for_review-IsChecked, item_for_review-IsChecked,
}

pub data Step (env : Env) (actor : CurrentUser) (db : Db) : Db → Type 0 where
  attaches :
      (uuid : ℕ) (batch : Batch) (files : List UploadedFile)
      → find_batch uuid db ≡ some batch
      → is_approved batch.status ≡ false
      → Step env actor db (attach env actor batch files db)
  submits :
      (uuid : ℕ) (batch : Batch)
      → find_batch uuid db ≡ some batch
      → is_approved batch.status ≡ false
      → Step env actor db (put_forward env actor batch db)
  accepts :
      (uuid : ℕ) (item : Item) (batch : Batch)
      → find_item uuid db ≡ some item
      → find_batch_id item.payment_batch_id db ≡ some batch
      → IsChecked actor db batch
      → Step env actor db (accept env actor item db)
  denies :
      (uuid : ℕ) (item : Item) (batch : Batch) (reason : String)
      → find_item uuid db ≡ some item
      → find_batch_id item.payment_batch_id db ≡ some batch
      → IsChecked actor db batch
      → Step env actor db (deny env actor item batch reason db)
  approves :
      (uuid : ℕ) (batch : Batch) (comment : Option String)
      → find_batch uuid db ≡ some batch
      → IsChecked actor db batch
      → rejected_items batch.id db.items ≡ []
      → Step env actor db (conclude env actor comment (is_final db batch) batch db)
  splits :
      (uuid : ℕ) (batch row : Batch) (comment : Option String)
      → find_batch uuid db ≡ some batch
      → IsChecked actor db batch
      → find_batch_id batch.id db ≡ some row
      → Step env actor db (
          conclude env actor comment
            (is_final db batch)
            batch
            (split_rejected env actor row (rejected_items batch.id db.items) db))
  turns_down :
      (uuid : ℕ) (batch : Batch) (reason : String)
      → find_batch uuid db ≡ some batch
      → IsChecked actor db batch
      → Step env actor db (turn_down env actor reason batch db)

attach-Step :
    (env : Env) (actor : CurrentUser) (uuid : ℕ) (files : List UploadedFile) (db db' : Db)
    → add_batch_attachments env actor uuid files db ≡ ok db'
    → Step env actor db db'
unfolding add_batch_attachments
attach-Step env actor uuid files db db' h =
    let (_, h1) = check-eq-ok (throw_if (length files == 0) Error.no_attachment) _ h in
    let (batch, e, h2) = >>=-eq-ok (or_throw (find_batch uuid db) Error.batch_not_found) _ h1 in
    let (_, open_batch, same) = checks-eq-ok _ _ (ok (attach env actor batch files db)) h2 in
    let closed =
      throw_if-eq-ok (is_approved batch.status || is_rejected batch.status) _ open_batch in
    subst (Step env actor db) (ok-injective same)
      (attaches uuid batch files (or_throw-eq-ok _ _ e) (ground arith))

submit-Step :
    (env : Env) (actor : CurrentUser) (uuid : ℕ) (db db' : Db)
    → submit_batch env actor uuid db ≡ ok db'
    → Step env actor db db'
unfolding submit_batch
submit-Step env actor uuid db db' h =
    let (batch, e, h1) = >>=-eq-ok (or_throw (find_batch uuid db) Error.batch_not_found) _ h in
    let (open_batch, _, same) = checks-eq-ok _ _ (ok (put_forward env actor batch db)) h1 in
    subst (Step env actor db) (ok-injective same)
      (submits uuid batch (or_throw-eq-ok _ _ e) (throw_if-eq-ok _ _ open_batch))

accept-Step :
    (env : Env) (actor : CurrentUser) (uuid : ℕ) (db db' : Db)
    → approve_item env actor uuid db ≡ ok db'
    → Step env actor db db'
unfolding approve_item
accept-Step env actor uuid db db' h =
    let (c, e, same) = >>=-eq-ok (item_for_review actor uuid db) _ h in
    let (item, batch, checked) = item_for_review-IsChecked actor uuid db e in
    subst (Step env actor db) (ok-injective same) (accepts uuid c.0 c.1 item batch checked)

deny-Step :
    (env : Env) (actor : CurrentUser) (uuid : ℕ) (reason : String) (db db' : Db)
    → reject_item env actor uuid reason db ≡ ok db'
    → Step env actor db db'
unfolding reject_item
deny-Step env actor uuid reason db db' h =
    let (c, e, same) = >>=-eq-ok (item_for_review actor uuid db) _ h in
    let (item, batch, checked) = item_for_review-IsChecked actor uuid db e in
    subst (Step env actor db) (ok-injective same) (denies uuid c.0 c.1 reason item batch checked)

eq-nil_of_length {ℓ} : {A : Type ℓ} (xs : List A) → (length xs == 0) ≡ true → xs ≡ []
eq-nil_of_length [] h = refl
eq-nil_of_length (x ∷ xs) h = absurd (ground arith)

-- The split does nothing where no item is rejected.
pub split-cases :
    (env : Env) (actor : CurrentUser) (id : ℕ) (db split : Db)
    → handle_partial_rejection_split env actor id db ≡ ok split
    → ((rejected_items id db.items ≡ []) × (db ≡ split))
      ⊎ ((row : Batch) × (find_batch_id id db ≡ some row)
          × (split_rejected env actor row (rejected_items id db.items) db ≡ split))
unfolding handle_partial_rejection_split
split-cases env actor id db split h = elim (Bool-cases (length (rejected_items id db.items) == 0)) [
  | inl none_rejected ↦ inl (eq-nil_of_length _ none_rejected, ok-injective (rw none_rejected at h))
  | inr some_rejected ↦
      let (row, e, same) =
        >>=-eq-ok (or_throw (find_batch_id id db) Error.null_dereference) _
          (rw some_rejected at h) in
      inr (row, or_throw-eq-ok _ _ e, ok-injective same)
]

approve-Step :
    (env : Env) (actor : CurrentUser) (uuid : ℕ) (comment : Option String) (db db' : Db)
    → approve_batch env actor uuid comment db ≡ ok db'
    → Step env actor db db'
unfolding approve_batch
approve-Step env actor uuid comment db db' h =
    let (batch, e, h1) = >>=-eq-ok (batch_for_review actor uuid db) _ h in
    let (found, checked) = batch_for_review-IsChecked actor uuid db batch e in
    let (split, e', same) = >>=-eq-ok (handle_partial_rejection_split env actor batch.id db) _ h1 in
    let finish = λ (s : Db). conclude env actor comment (is_final db batch) batch s in
    elim (split-cases env actor batch.id db split e') [
      | inl whole ↦
          subst (Step env actor db) (ap finish whole.1 ∙ ok-injective same)
            (approves uuid batch comment found checked whole.0)
      | inr (row, by_id, parted) ↦
          subst (Step env actor db) (ap finish parted ∙ ok-injective same)
            (splits uuid batch row comment found checked by_id)
    ]

turn_down-Step :
    (env : Env) (actor : CurrentUser) (uuid : ℕ) (reason : String) (db db' : Db)
    → reject_batch env actor uuid reason db ≡ ok db'
    → Step env actor db db'
unfolding reject_batch
turn_down-Step env actor uuid reason db db' h =
    let (batch, e, same) = >>=-eq-ok (batch_for_review actor uuid db) _ h in
    let (found, checked) = batch_for_review-IsChecked actor uuid db batch e in
    subst (Step env actor db) (ok-injective same) (turns_down uuid batch reason found checked)

-- Every call that goes through is a step.
pub handle-Step :
    (env : Env) (actor : CurrentUser) (request : Request) (db db' : Db)
    → handle env actor request db ≡ ok db'
    → Step env actor db db'
unfolding handle
handle-Step env actor (add_attachments uuid files) db db' h =
    attach-Step env actor uuid files db db' h
handle-Step env actor (submit uuid) db db' h = submit-Step env actor uuid db db' h
handle-Step env actor (accept_item uuid) db db' h = accept-Step env actor uuid db db' h
handle-Step env actor (deny_item uuid reason) db db' h = deny-Step env actor uuid reason db db' h
handle-Step env actor (accept_batch uuid comment) db db' h =
    approve-Step env actor uuid comment db db' h
handle-Step env actor (deny_batch uuid reason) db db' h =
    turn_down-Step env actor uuid reason db db' h
