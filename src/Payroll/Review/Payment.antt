-- ===== src/Payroll/Review/Payment.antt =====
-- What an approval of a batch pays, in backend/src/payroll/payroll.service.ts.
use mathlib.Core.Path.{subst}
use mathlib.Core.Option.{some-injective}
use reg_pay.Prelude.{
  ℕ, ◌≡◌, refl, sym, ap, ◌∙◌, Bool, true, false, ◌&&◌, List, [], ◌∷◌, Option, some, String, arith,
  ◌==◌, keep, any, All,
}
use reg_pay.Permissions.{CurrentUser}
use reg_pay.Payroll.Schema.{
  BatchStatus, Transaction, Item, Batch, Db, Env, update_where, find_where, find_batch,
  find_batch_id, in_batch,
}
use reg_pay.Payroll.Access.{ok, >>=-eq-ok}
use reg_pay.Payroll.Split.{handle_partial_rejection_split}
use reg_pay.Payroll.Batches.{
  is_payable, is_final, batch_for_review, advance, conclude, approve_batch,
}
use reg_pay.Payroll.Review.Checks.{batch_for_review-IsChecked, ok-injective}
use reg_pay.Payroll.Review.Effects.{paid, paid_item, conclude-batches, conclude-transactions}
use reg_pay.Payroll.Review.Money.{id-advance}
use reg_pay.Payroll.Review.Tables.{find_by_key, find-update_eq}
use reg_pay.Payroll.Review.Steps.{IsOnStep}
use reg_pay.Payroll.Review.Totals.{IsSoundDb}
use reg_pay.Payroll.Review.SplitRows.{is_rejected_in, split-clean, split-row}

-- An item of the batch names the transaction.
abbrev pub pays_for : ℕ → Transaction → Item → Bool
pays_for id t i = in_batch id i && (i.transaction_id == t.id)

module _ (env : Env) (actor : CurrentUser) (id : ℕ) where
  All-approved :
      (items : List Item)
      → All (λ i. is_rejected_in id i ≡ false) items
      → All
          (λ i. in_batch id i ≡ true → i.status ≡ BatchStatus.approved)
          (update_where (is_payable id) (paid_item env actor) items)
  All-approved [] h = tt
  All-approved (i ∷ items) h = (λ inside. ground arith, All-approved items h.1)

  paid_by_items :
      (t : Transaction) (items : List Item)
      → All (λ i. is_rejected_in id i ≡ false) items
      → any (λ i. i.transaction_id == t.id) (keep (is_payable id) items)
        ≡ any (pays_for id t) (update_where (is_payable id) (paid_item env actor) items)
  paid_by_items t [] h = refl
  paid_by_items t (i ∷ items) h = ground (arith, paid_by_items t items h.1)

-- What the final approval makes of the items and the transactions.
abbrev pub IsPaid : CurrentUser → ℕ → List Transaction → Db → Type 0
IsPaid actor id transactions db =
    All (λ i. in_batch id i ≡ true → i.status ≡ BatchStatus.approved) db.items
    × (db.transactions ≡ update_where (λ t. any (pays_for id t) db.items) (paid actor) transactions)

conclude-IsPaid :
    (env : Env) (actor : CurrentUser) (comment : Option String) (batch : Batch) (db split : Db)
    → All (λ i. is_rejected_in batch.id i ≡ false) split.items
    → split.transactions ≡ db.transactions
    → IsPaid actor batch.id db.transactions (conclude env actor comment true batch split)
unfolding conclude
conclude-IsPaid env actor comment batch db split clean same = (
  All-approved env actor batch.id split.items clean,
  λ k.
      update_where (λ t. paid_by_items env actor batch.id t split.items clean k) (paid actor)
        (same k),
)

-- After the final approval, from sound tables, every item that is left in the batch is approved, and
-- the transactions that changed are exactly those of these items: they are paid.
pub approve_batch-IsPaid :
    (env : Env) (actor : CurrentUser) (uuid : ℕ) (comment : Option String) (db db' : Db)
    (batch : Batch)
    → IsSoundDb db
    → find_batch uuid db ≡ some batch
    → is_final db batch ≡ true
    → approve_batch env actor uuid comment db ≡ ok db'
    → IsPaid actor batch.id db.transactions db'
unfolding approve_batch
approve_batch-IsPaid env actor uuid comment db db' batch h found final e =
    let (b, review, e') = >>=-eq-ok (batch_for_review actor uuid db) _ e in
    let (found', _) = batch_for_review-IsChecked actor uuid db b review in
    let same = some-injective b batch (sym found' ∙ found) in
    let (split, parted, e'') = >>=-eq-ok (handle_partial_rejection_split env actor b.id db) _ e' in
    let by_id = find_by_key (λ (x : Batch). x.id) _ db.batches h.unique_batches found' in
    let (clean, kept) = split-clean env actor b.id b db split h by_id parted in
    let paid_out = conclude-IsPaid env actor comment b db split clean kept in
    let last : is_final db b ≡ true = ap (is_final db) same ∙ final in
    subst (λ id. IsPaid actor id db.transactions db') (ap (λ (x : Batch). x.id) same)
      (subst (IsPaid actor b.id db.transactions)
        (ap (λ f. conclude env actor comment f b split) (sym last) ∙ ok-injective e'') paid_out)

advance-waits :
    (env : Env) (actor : CurrentUser) (db : Db) (batch row : Batch)
    → IsOnStep batch
    → is_final db batch ≡ false
    → (advance env actor false batch row).current_approval_step ≡ 2
unfolding advance
advance-waits env actor db batch row on later = ground arith

-- An approval that is not the final one, from sound tables and of a batch that keeps the rule of
-- status and step, pays nothing: the transactions are those of before, and the batch waits for the
-- final approval, approved by the manager and at step 2.
pub approve_batch-waits :
    (env : Env) (actor : CurrentUser) (uuid : ℕ) (comment : Option String) (db db' : Db)
    (batch : Batch)
    → IsSoundDb db
    → IsOnStep batch
    → find_batch uuid db ≡ some batch
    → is_final db batch ≡ false
    → approve_batch env actor uuid comment db ≡ ok db'
    → (db'.transactions ≡ db.transactions)
      × ((row : Batch) × (find_batch_id batch.id db' ≡ some row)
          × (row.status ≡ BatchStatus.manager_approved)
          × (row.current_approval_step ≡ 2))
unfolding approve_batch advance
approve_batch-waits env actor uuid comment db db' batch h on found later e =
    let (b, review, e') = >>=-eq-ok (batch_for_review actor uuid db) _ e in
    let (found', _) = batch_for_review-IsChecked actor uuid db b review in
    let same = some-injective b batch (sym found' ∙ found) in
    let (split, parted, e'') = >>=-eq-ok (handle_partial_rejection_split env actor b.id db) _ e' in
    let by_id = find_by_key (λ (x : Batch). x.id) _ db.batches h.unique_batches found' in
    let (_, kept) = split-clean env actor b.id b db split h by_id parted in
    let (row, there) = split-row env actor b.id b db split by_id parted in
    let not_last : is_final db b ≡ false = ap (is_final db) same ∙ later in
    let outcome =
      ap (λ f. conclude env actor comment f b split) (sym not_last) ∙ ok-injective e'' in
    (
      ap (λ (d : Db). d.transactions) (sym outcome)
          ∙ conclude-transactions env actor comment b split false
          ∙ kept,
      (
        advance env actor false b row,
        subst (λ id. find_batch_id id db' ≡ some (advance env actor false b row))
            (ap (λ (x : Batch). x.id) same)
            (ap (find_batch_id b.id) (sym outcome)
              ∙ ap (find_where (λ (x : Batch). x.id == b.id))
                  (conclude-batches env actor comment b split false)
              ∙ find-update_eq (λ (x : Batch). x.id) b.id _ split.batches
                  (id-advance env actor false b) there),
        refl,
        advance-waits env actor db b row (subst IsOnStep (sym same) on) not_last,
      ),
    )
