-- ===== src/Payroll/Review/Sample.antt =====
-- A sample of tables: a batch of a branch with two items, one of them rejected, a second batch that
-- is approved, and a third one that waits for its first approval.
use reg_pay.Prelude.{◌+◌, ◌*◌, ℕ, true, false, List, [], ◌∷◌, Option, none, some, String}
use reg_pay.Prelude.Int.{pos}
use reg_pay.Permissions.{CurrentUser}
use reg_pay.Users.{UserStatus, UserRow}
use reg_pay.Payroll.Schema.{
  BatchStatus, TransactionStatus, Transaction, Item, BatchCode, Batch, Db, Env,
}

abbrev pub env : Env
env = record { now = 5000; uuid = λ n. 900 + n; has_store_keys = false }

abbrev pub user : ℕ → List String → List String → Option ℕ → CurrentUser
user id roles permissions location = record {
  user_id = id;
  roles = roles;
  permissions = permissions;
  working_location_id = location;
  department_id = none;
  permission_overrides = [];
}

abbrev pub admin : CurrentUser
admin = user 1 ("SUPER_ADMIN" ∷ []) [] none

abbrev pub hr : CurrentUser
hr = user 2 ("HR" ∷ []) ("payroll.approve_final" ∷ []) (some 20)

abbrev pub manager : CurrentUser
manager = user 3 ("BRANCH_MANAGER" ∷ []) [] (some 10)

abbrev pub hr_row : UserRow
hr_row = record {
  id = 2;
  status = UserStatus.active;
  is_deleted = false;
  working_location_id = some 20;
  department_id = none;
  user_roles = record { roles = some (record { name = "HR"; permission_keys = none }) } ∷ [];
  user_permissions = [];
  user_permission_overrides = [];
}

abbrev pub item : ℕ → ℕ → BatchStatus → Item
item id batch status = record {
  id = id;
  uuid = 300 + id;
  payment_batch_id = batch;
  employee_id = id;
  transaction_id = 100 + id;
  status = status;
  rejection_reason = none;
  approved_by = none;
  approved_at = none;
}

abbrev pub transaction : ℕ → ℕ → Transaction
transaction id net = record {
  id = 100 + id;
  employee_id = id;
  gross_amount = pos (net + 30);
  base_amount = pos net;
  allowance_amount = pos 0;
  tax_amount = pos 20;
  total_deductions = pos 30;
  net_amount = pos net;
  transaction_status = TransactionStatus.pending;
  approved_by = none;
}

abbrev pub batch : ℕ → ℕ → ℕ → BatchStatus → ℕ → Batch
batch id count net status step = record {
  id = id;
  uuid = 70 + id;
  batch_code = BatchCode.pay 2026 8 id;
  working_location_id = 10;
  payroll_month = 8;
  payroll_year = 2026;
  total_employees = pos count;
  total_amount = pos net;
  total_gross = pos (net + 30 * count);
  total_allowances = pos 0;
  total_deductions = pos (30 * count);
  total_tax = pos (20 * count);
  status = status;
  current_approval_step = step;
  rejected_reason = none;
  description = none;
  attachments = [];
  submitted_by = 4;
  approved_by = none;
  submitted_at = none;
  approved_at = none;
}

abbrev pub sample : Db
sample = record {
  batches =
      batch 1 2 300 BatchStatus.in_review 2
      ∷ batch 2 1 500 BatchStatus.approved 2
      ∷ batch 3 1 700 BatchStatus.pending 1
      ∷ [];
  items =
      item 1 1 BatchStatus.approved
      ∷ item 2 1 BatchStatus.rejected
      ∷ item 3 2 BatchStatus.approved
      ∷ item 4 3 BatchStatus.pending
      ∷ [];
  transactions = transaction 1 100 ∷ transaction 2 200 ∷ transaction 3 500 ∷ transaction 4 700 ∷ [];
  approval_actions = [];
  audit_logs = [];
  notifications = [];
  cache_keys = [];
  users = hr_row ∷ [];
  branch_managers = record { working_location_id = 10; is_active = true } ∷ [];
  working_locations =
      record { id = 20; name = "HQ"; is_hq = true; is_deleted = false }
      ∷ record { id = 10; name = "Kicukiro"; is_hq = false; is_deleted = false }
      ∷ [];
  next_batch_id = 4;
}
