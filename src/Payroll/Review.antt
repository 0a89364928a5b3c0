-- ===== src/Payroll/Review.antt =====
-- The six handlers of the payroll service that work on batches that exist, as one step of the system.
-- `createBatch`, which reads the employees and their attendance as well, is in Creation/Writes.
pub mod Checks
pub mod Step
pub mod Effects
pub mod Authority
pub mod Tables
pub mod Steps
pub mod Sums
pub mod Totals
pub mod SplitTotals
pub mod Money
pub mod Frozen
pub mod SplitRows
pub mod Payment
pub mod Resubmission
mod Sample
mod Tests
use reg_pay.Prelude.{ℕ, List, Option, String}
use reg_pay.Permissions.{CurrentUser}
use reg_pay.Payroll.Schema.{Db, Env}
use reg_pay.Payroll.Access.{Result}
use reg_pay.Payroll.Drafts.{UploadedFile, add_batch_attachments, submit_batch}
use reg_pay.Payroll.Items.{approve_item, reject_item}
use reg_pay.Payroll.Batches.{approve_batch, reject_batch}

-- A call of one of the six, with the uuid in its path and its body: attachments, submission, and the
-- approval or rejection of an item or of a batch.
pub data Request : Type 0 where
  add_attachments : ℕ → List UploadedFile → Request
  submit : ℕ → Request
  accept_item : ℕ → Request
  deny_item : ℕ → String → Request
  accept_batch : ℕ → Option String → Request
  deny_batch : ℕ → String → Request

unfoldable pub handle : Env → CurrentUser → Request → Db → Result Db
handle env actor (add_attachments uuid files) = add_batch_attachments env actor uuid files
handle env actor (submit uuid) = submit_batch env actor uuid
handle env actor (accept_item uuid) = approve_item env actor uuid
handle env actor (deny_item uuid reason) = reject_item env actor uuid reason
handle env actor (accept_batch uuid comment) = approve_batch env actor uuid comment
handle env actor (deny_batch uuid reason) = reject_batch env actor uuid reason
