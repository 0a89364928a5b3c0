-- ===== src/Payroll/Items.antt =====
-- The review of a single item of a batch, in backend/src/payroll/payroll.service.ts.
use reg_pay.Prelude.{ℕ, ◌||◌, none, some, String, ◌==◌, any, keep, length, if◌then◌else◌}
use reg_pay.Permissions.{CurrentUser}
use reg_pay.Payroll.Schema.{
  Item, Batch, BatchStatus, TransactionStatus, AuditVerb, Recipient, Db, Env, is_pending,
  update_batch, update_item, update_transaction, find_batch_id, find_item, in_batch,
}
use reg_pay.Payroll.Access.{
  Error, Result, ok, ◌>>=◌, ◌>>◌, or_throw, ensure_actor_can_approve_batch,
  ensure_batch_can_still_be_reviewed,
}
use reg_pay.Payroll.Log.{audit, notify, clear_payroll_cache}

-- `recalculateBatchStatus`: nothing while an item is pending, or where there is no item.
unfoldable pub recalculate_batch_status : ℕ → Db → Db
recalculate_batch_status batch_id db =
    let items = keep (in_batch batch_id) db.items in
    if length items == 0 || any (λ i. is_pending i.status) items then db else record db {
      batches = update_batch batch_id (λ b. record b { status = BatchStatus.in_review }) db.batches;
    }

-- The checks of `approveItem` and `rejectItem`: the item, with its batch.
unfoldable pub item_for_review : CurrentUser → ℕ → Db → Result (Item × Batch)
item_for_review actor uuid db = do
  item ← or_throw (find_item uuid db) Error.item_not_found
  batch ← or_throw (find_batch_id item.payment_batch_id db) Error.null_dereference
  ensure_batch_can_still_be_reviewed batch.status
  ensure_actor_can_approve_batch db actor batch.working_location_id batch.current_approval_step
  ok (item, batch)

-- The writes of `approveItem`.
unfoldable pub accept : Env → CurrentUser → Item → Db → Db
unfolding audit recalculate_batch_status clear_payroll_cache
accept env actor item db = clear_payroll_cache env (
    recalculate_batch_status item.payment_batch_id (
      audit actor.user_id "payment_batch_items" item.id AuditVerb.approved (record db {
        items =
            update_item item.id
              (λ i. record i {
                status = BatchStatus.approved;
                approved_by = some actor.user_id;
                approved_at = some env.now;
                rejection_reason = none;
              })
              db.items;
      })))

-- `approveItem`
unfoldable pub approve_item : Env → CurrentUser → ℕ → Db → Result Db
approve_item env actor uuid db = do
  checked ← item_for_review actor uuid db
  ok (accept env actor checked.0 db)

-- The writes of `rejectItem`.
unfoldable pub deny : Env → CurrentUser → Item → Batch → String → Db → Db
unfolding audit notify recalculate_batch_status clear_payroll_cache
deny env actor item batch reason db = clear_payroll_cache env (
    notify (Recipient.to_user batch.submitted_by) actor.user_id "PAYROLL_ITEM_REJECTED" batch.uuid (
      recalculate_batch_status item.payment_batch_id (
        audit actor.user_id "payment_batch_items" item.id AuditVerb.denied (record db {
          items =
              update_item item.id
                (λ i. record i {
                  status = BatchStatus.rejected;
                  approved_by = some actor.user_id;
                  approved_at = some env.now;
                  rejection_reason = some reason;
                })
                db.items;
          transactions =
              update_transaction item.transaction_id
                (λ t. record t { transaction_status = TransactionStatus.rejected }) db.transactions;
        }))))

-- `rejectItem`
unfoldable pub reject_item : Env → CurrentUser → ℕ → String → Db → Result Db
reject_item env actor uuid reason db = do
  checked ← item_for_review actor uuid db
  ok (deny env actor checked.0 checked.1 reason db)
