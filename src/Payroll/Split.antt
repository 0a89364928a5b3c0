-- ===== src/Payroll/Split.antt =====
-- The split of a batch from its rejected items, in backend/src/payroll/payroll.service.ts.
use reg_pay.Prelude.{
  ℕ, suc, ◌&&◌, List, [], ◌∷◌, ◌++◌, Option, none, some, String, str_eq, ◌==◌, keep, length,
  if◌then◌else◌,
}
use reg_pay.Prelude.Int.{ℤ, pos, ◌+ℤ◌, ◌-ℤ◌}
use reg_pay.Permissions.{CurrentUser}
use reg_pay.Payroll.Schema.{
  BatchStatus, Transaction, Item, BatchCode, Description, Batch, Recipient, WorkingLocation, Db,
  Env, is_rejected, update_batch, update_item, find_where, find_batch_id, in_batch,
}
use reg_pay.Payroll.Access.{Error, Result, ok, ◌>>=◌, or_throw}
use reg_pay.Payroll.Log.{notify}

-- `Number(item.transactions.net_amount)` and the like, summed by `reduce`. The transaction of an
-- item is there, by the foreign key.
abbrev pub amount_of : (Transaction → ℤ) → List Transaction → Item → ℤ
amount_of amount transactions i = elim (find_where (λ t. t.id == i.transaction_id) transactions) [
  | none ↦ pos 0
  | some t ↦ amount t
]

unfoldable pub reduce : (Item → ℤ) → ℤ → List Item → ℤ
reduce amount sum [] = sum
reduce amount sum (i ∷ items) = reduce amount (sum +ℤ amount i) items

abbrev branch_name : ℕ → List WorkingLocation → String
branch_name wl locations = elim (find_where (λ (w : WorkingLocation). w.id == wl) locations) [
  | none ↦ "Unknown"
  | some w ↦ if str_eq w.name "" then "Unknown" else w.name
]

-- `batch.description ? … : …`: an empty text counts as none.
abbrev describe : BatchCode → Option Description → Description
describe code none = Description.split_from code
describe code (some (Description.text s)) =
    if str_eq s ""
    then Description.split_from code
    else Description.split_from_described code (Description.text s)
describe code (some d) = Description.split_from_described code d

-- The batch that `handlePartialRejectionSplit` creates for the rejected items.
unfoldable pub rejected_batch : Env → Db → Batch → List Item → Batch
rejected_batch env db batch rejected =
    let sum =
      λ (amount : Transaction → ℤ). reduce (amount_of amount db.transactions) (pos 0) rejected in
    record {
      id = db.next_batch_id;
      uuid = env.uuid 0;
      batch_code =
          BatchCode.rejected_from (branch_name batch.working_location_id db.working_locations)
            batch.payroll_month batch.payroll_year env.now;
      working_location_id = batch.working_location_id;
      payroll_month = batch.payroll_month;
      payroll_year = batch.payroll_year;
      total_employees = pos (length rejected);
      total_amount = sum (λ t. t.net_amount);
      total_gross = sum (λ t. t.gross_amount);
      total_allowances = sum (λ t. t.allowance_amount);
      total_deductions = sum (λ t. t.total_deductions);
      total_tax = sum (λ t. t.tax_amount);
      status = BatchStatus.draft;
      current_approval_step = 1;
      rejected_reason = none;
      description = some (describe batch.batch_code batch.description);
      attachments = batch.attachments;
      submitted_by = batch.submitted_by;
      approved_by = none;
      submitted_at = some env.now;
      approved_at = none;
    }

-- The loop that moves the rejected items to the new batch.
unfoldable pub move_items : ℕ → List Item → List Item → List Item
move_items new_id [] items = items
move_items new_id (r ∷ rs) items = move_items new_id rs (
    update_item r.id (λ i. record i { payment_batch_id = new_id; status = BatchStatus.pending })
      items)

-- The decrement of the totals of the original batch.
unfoldable pub subtract_totals : List Transaction → List Item → Batch → Batch
subtract_totals transactions rejected b =
    let sum =
      λ (amount : Transaction → ℤ). reduce (amount_of amount transactions) (pos 0) rejected in
    record b {
      total_employees = b.total_employees -ℤ pos (length rejected);
      total_amount = b.total_amount -ℤ sum (λ t. t.net_amount);
      total_gross = b.total_gross -ℤ sum (λ t. t.gross_amount);
      total_allowances = b.total_allowances -ℤ sum (λ t. t.allowance_amount);
      total_deductions = b.total_deductions -ℤ sum (λ t. t.total_deductions);
      total_tax = b.total_tax -ℤ sum (λ t. t.tax_amount);
    }

-- The items of a batch that are rejected.
abbrev pub rejected_items : ℕ → List Item → List Item
rejected_items batch_id = keep (λ i. in_batch batch_id i && is_rejected i.status)

unfoldable pub split_rejected : Env → CurrentUser → Batch → List Item → Db → Db
unfolding notify rejected_batch move_items subtract_totals
split_rejected env actor batch rejected db =
    notify (Recipient.to_user batch.submitted_by) actor.user_id "PAYROLL_PARTIAL_REJECTION"
      (env.uuid 0)
      (record db {
        batches =
            update_batch batch.id (subtract_totals db.transactions rejected)
              (db.batches ++ rejected_batch env db batch rejected ∷ []);
        items = move_items db.next_batch_id rejected db.items;
        next_batch_id = suc db.next_batch_id;
      })

-- `handlePartialRejectionSplit`
unfoldable pub handle_partial_rejection_split : Env → CurrentUser → ℕ → Db → Result Db
unfolding split_rejected
handle_partial_rejection_split env actor batch_id db =
    let rejected = rejected_items batch_id db.items in
    if length rejected == 0 then ok db else do
      batch ← or_throw (find_batch_id batch_id db) Error.null_dereference
      ok (split_rejected env actor batch rejected db)
