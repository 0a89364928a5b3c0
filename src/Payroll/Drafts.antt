-- ===== src/Payroll/Drafts.antt =====
-- A batch before its review, in backend/src/payroll/payroll.service.ts: attachments and
-- submission. A handler checks before it writes, and its writes are one database transaction: it
-- returns the next tables, or an error and no change. What it returns to the caller is a view.
use reg_pay.Prelude.{
  ℕ, ◌+◌, Bool, true, false, not, ◌||◌, List, [], ◌∷◌, ◌++◌, none, some, String, ◌==◌, length,
  if◌then◌else◌,
}
use reg_pay.Permissions.{CurrentUser}
use reg_pay.Payroll.Schema.{
  Batch, BatchStatus, Attachment, AuditVerb, Recipient, Db, Env, is_approved, is_rejected,
  update_batch, find_batch,
}
use reg_pay.Payroll.Access.{
  Error, Result, ok, ◌>>=◌, ◌>>◌, throw_if, or_throw, has_initial_approver,
  ensure_actor_can_use_working_location,
}
use reg_pay.Payroll.Log.{audit, notify, clear_payroll_cache}

-- `addBatchAttachments`, on the files that were uploaded.
pub record UploadedFile : Type 0 where
  pub originalname : String
  pub filename : String
  pub mimetype : String
  pub size : ℕ

unfoldable pub added_attachments : Env → CurrentUser → ℕ → List UploadedFile → List Attachment
added_attachments env actor n [] = []
added_attachments env actor n (f ∷ fs) =
    record {
      id = env.uuid n;
      original_name = f.originalname;
      stored_name = f.filename;
      mime_type = f.mimetype;
      size = f.size;
      uploaded_by = actor.user_id;
      uploaded_at = env.now;
    }
    ∷ added_attachments env actor (n + 1) fs

-- The writes of `addBatchAttachments`.
unfoldable pub attach : Env → CurrentUser → Batch → List UploadedFile → Db → Db
unfolding audit added_attachments clear_payroll_cache
attach env actor batch files db = clear_payroll_cache env (
    audit actor.user_id "payment_batches" batch.id AuditVerb.updated (record db {
      batches =
          update_batch batch.id
            (λ b. record b {
              attachments = batch.attachments ++ added_attachments env actor 0 files;
            })
            db.batches;
    }))

unfoldable pub add_batch_attachments : Env → CurrentUser → ℕ → List UploadedFile → Db → Result Db
add_batch_attachments env actor uuid files db = do
  throw_if (length files == 0) Error.no_attachment
  batch ← or_throw (find_batch uuid db) Error.batch_not_found
  ensure_actor_can_use_working_location actor batch.working_location_id
  throw_if (is_approved batch.status || is_rejected batch.status) Error.read_only_batch
  ok (attach env actor batch files db)

unfoldable pub is_submittable : BatchStatus → Bool
is_submittable BatchStatus.draft = true
is_submittable BatchStatus.rejected = true
is_submittable _ = false

-- The writes of `submitBatch`.
unfoldable pub put_forward : Env → CurrentUser → Batch → Db → Db
unfolding notify clear_payroll_cache
put_forward env actor batch db =
    let recipient =
      if has_initial_approver db batch.working_location_id
      then Recipient.branch_manager batch.working_location_id
      else Recipient.admins in
    clear_payroll_cache env (
      notify recipient actor.user_id "PAYROLL_APPROVAL_REQUEST" batch.uuid (record db {
        batches =
            update_batch batch.id
              (λ b. record b {
                status = BatchStatus.pending;
                current_approval_step = 1;
                rejected_reason = none;
                submitted_at = some env.now;
              })
              db.batches;
      }))

-- `submitBatch`
unfoldable pub submit_batch : Env → CurrentUser → ℕ → Db → Result Db
unfolding is_submittable
submit_batch env actor uuid db = do
  batch ← or_throw (find_batch uuid db) Error.batch_not_found
  throw_if (is_approved batch.status) Error.already_approved
  throw_if (not (is_submittable batch.status)) Error.not_submittable
  ok (put_forward env actor batch db)
