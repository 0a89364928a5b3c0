-- ===== src/Payroll/Batches.antt =====
-- The review of a whole batch, in backend/src/payroll/payroll.service.ts.
use reg_pay.Prelude.{
  ℕ, ◌+◌, Bool, not, ◌&&◌, [], ◌∷◌, ◌++◌, Option, none, some, String, ◌==◌, leb, any, keep,
  if◌then◌else◌,
}
use reg_pay.Permissions.{CurrentUser}
use reg_pay.Payroll.Schema.{
  BatchStatus, TransactionStatus, Item, Batch, ApprovalVerb, AuditVerb, Recipient, Db, Env,
  is_rejected, update_where, update_batch, find_batch, in_batch,
}
use reg_pay.Payroll.Access.{
  Error, Result, ok, ◌>>=◌, ◌>>◌, or_throw, is_super_admin, has_initial_approver,
  ensure_actor_can_approve_batch, ensure_batch_can_still_be_reviewed,
}
use reg_pay.Payroll.Log.{audit, notify, clear_payroll_cache}
use reg_pay.Payroll.Split.{handle_partial_rejection_split}

-- An item that the final approval pays.
abbrev pub is_payable : ℕ → Item → Bool
is_payable batch_id i = in_batch batch_id i && not (is_rejected i.status)

-- The payment of the final approval: the items of the batch that are not rejected are approved,
-- and their transactions are paid.
unfoldable pub pay_items : Env → CurrentUser → ℕ → Db → Db
pay_items env actor batch_id db =
    let payable = keep (is_payable batch_id) db.items in
    record db {
      items =
          update_where (is_payable batch_id)
            (λ i. record i {
              status = BatchStatus.approved;
              approved_by = some actor.user_id;
              approved_at = some env.now;
            })
            db.items;
      transactions =
          update_where (λ t. any (λ i. i.transaction_id == t.id) payable)
            (λ t. record t {
              transaction_status = TransactionStatus.paid;
              approved_by = some actor.user_id;
            })
            db.transactions;
    }

unfoldable pub record_action : CurrentUser → Batch → ApprovalVerb → Option String → Db → Db
record_action actor batch verb comment db = record db {
  approval_actions =
      db.approval_actions
      ++ record {
        payment_batch_id = batch.id;
        step_order = batch.current_approval_step;
        action_by = actor.user_id;
        action = verb;
        comment = comment;
      }
        ∷ [];
}

-- `isFinal` of `approveBatch`: the last of two steps, or of one where no one can take the first.
abbrev pub is_final : Db → Batch → Bool
is_final db batch =
    leb (if has_initial_approver db batch.working_location_id then 2 else 1)
      batch.current_approval_step

-- The update of the batch in `approveBatch`.
unfoldable pub advance : Env → CurrentUser → Bool → Batch → Batch → Batch
advance env actor final batch b =
    if final
    then record b {
      status = BatchStatus.approved;
      current_approval_step = batch.current_approval_step;
      approved_by = some actor.user_id;
      approved_at = some env.now;
    }
    else record b {
      status = BatchStatus.manager_approved;
      current_approval_step = batch.current_approval_step + 1;
      approved_by = none;
      approved_at = none;
    }

-- The notifications after an approval.
unfoldable pub announce : CurrentUser → Bool → Batch → Db → Db
unfolding notify
announce actor final batch db =
    if final
    then notify (Recipient.to_user batch.submitted_by) actor.user_id "PAYROLL_APPROVED" batch.uuid
        (notify Recipient.admins actor.user_id "PAYROLL_COMPLETED_REVIEW" batch.uuid db)
    else notify Recipient.final_approvers actor.user_id "PAYROLL_APPROVAL_REQUEST" batch.uuid db

-- The checks of `approveBatch` and `rejectBatch`.
unfoldable pub batch_for_review : CurrentUser → ℕ → Db → Result Batch
batch_for_review actor uuid db = do
  batch ← or_throw (find_batch uuid db) Error.batch_not_found
  ensure_batch_can_still_be_reviewed batch.status
  ensure_actor_can_approve_batch db actor batch.working_location_id batch.current_approval_step
  ok batch

-- The writes of `approveBatch` after the split.
unfoldable pub conclude : Env → CurrentUser → Option String → Bool → Batch → Db → Db
unfolding audit pay_items record_action advance announce clear_payroll_cache
conclude env actor comment final batch split =
    let paid = if final then pay_items env actor batch.id split else split in
    let acted = record_action actor batch ApprovalVerb.approved comment paid in
    let saved = record acted {
      batches = update_batch batch.id (advance env actor final batch) acted.batches;
    } in
    clear_payroll_cache env (
      announce actor final batch
        (audit actor.user_id "payment_batches" batch.id AuditVerb.approved saved))

-- `approveBatch`
unfoldable pub approve_batch : Env → CurrentUser → ℕ → Option String → Db → Result Db
approve_batch env actor uuid comment db = do
  batch ← batch_for_review actor uuid db
  split ← handle_partial_rejection_split env actor batch.id db
  ok (conclude env actor comment (is_final db batch) batch split)

-- The two outcomes of `rejectBatch`: final for a super admin, else back to the draft.
unfoldable pub reject_finally : Env → CurrentUser → Batch → String → Db → Db
reject_finally env actor batch reason db = record db {
  batches =
      update_batch batch.id
        (λ b. record b {
          status = BatchStatus.rejected;
          rejected_reason = some reason;
          approved_by = some actor.user_id;
          approved_at = some env.now;
        })
        db.batches;
}

unfoldable pub return_to_draft : Batch → String → Db → Db
return_to_draft batch reason db = record db {
  items =
      update_where (in_batch batch.id)
        (λ i. record i { status = BatchStatus.pending; rejection_reason = none }) db.items;
  batches =
      update_batch batch.id
        (λ b. record b {
          status = BatchStatus.draft;
          rejected_reason = some reason;
          current_approval_step = 1;
          approved_by = none;
          approved_at = none;
        })
        db.batches;
}

-- The writes of `rejectBatch`.
unfoldable pub turn_down : Env → CurrentUser → String → Batch → Db → Db
unfolding audit notify record_action reject_finally return_to_draft clear_payroll_cache
turn_down env actor reason batch db =
    let acted = record_action actor batch ApprovalVerb.rejected (some reason) db in
    let saved =
      if is_super_admin actor
      then reject_finally env actor batch reason acted
      else return_to_draft batch reason acted in
    let kind = if is_super_admin actor then "PAYROLL_REJECTED_FINAL" else "PAYROLL_REJECTED" in
    clear_payroll_cache env (
      notify (Recipient.to_user batch.submitted_by) actor.user_id kind batch.uuid
        (audit actor.user_id "payment_batches" batch.id AuditVerb.denied saved))

-- `rejectBatch`
unfoldable pub reject_batch : Env → CurrentUser → ℕ → String → Db → Result Db
reject_batch env actor uuid reason db = do
  batch ← batch_for_review actor uuid db
  ok (turn_down env actor reason batch db)
