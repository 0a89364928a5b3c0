-- ===== src/Creation/Batch.antt =====
-- `createBatch` of backend/src/payroll/payroll.service.ts, with the pause of expired contracts of
-- backend/src/employees/employees.service.ts that it starts with.
use reg_pay.Prelude.{
  ℕ, Bool, true, false, not, ◌&&◌, List, [], ◌∷◌, ◌++◌, Option, none, some, String, ◌==◌, ltb, any,
  keep, map,
}
use reg_pay.Users.{is_id}
use reg_pay.Payroll.Schema.{AuditVerb, Batch, BatchStatus, Db, Item, find_where, update_where}
use reg_pay.Payroll.Log.{audit}
use reg_pay.Savings.Rows.{EmployeeStatus, Frequency, Savings, is_active}
use reg_pay.Creation.Rows.{CreateBatchDto, Tables, Worker}

-- The tables that the creation reads and writes. `employee_history` holds the employees of its rows.
pub record State (W : Type 0) : Type 0 where
  pub db : Db
  pub workers : List Worker
  pub savings : Savings
  pub tables : Tables W
  pub employee_history : List ℕ
  pub broadcasts : List String
  pub next_item_id : ℕ
  pub next_transaction_id : ℕ

pub data CreationError : Type 0 where
  location_missing other_location no_active_employees all_processed : CreationError
  period_reversed no_structures finalized : CreationError

pub data Answer : Type 0 where
  refused : CreationError → Answer
  created : (batch : ℕ) → Answer

abbrev pub is_fixed_term : Option Frequency → Bool
is_fixed_term (some Frequency.daily) = true
is_fixed_term (some Frequency.custom) = true
is_fixed_term _ = false

abbrev has_ended : (today : ℕ) → Option ℕ → Bool
has_ended today none = false
has_ended today (some day) = ltb day today

-- `where` of `autoPauseExpiredContracts`
abbrev pub is_expired : (today location : ℕ) → Worker → Bool
is_expired today location e =
    is_active e.status
    && (has_ended today e.contract_end_date
        && (is_fixed_term e.category_frequency
            && (is_id e.working_location_id location && not e.is_deleted)))

abbrev pub paused : Worker → Worker
paused e = record e { status = EmployeeStatus.paused }

-- The audit logs of the pauses, by the system user 1.
unfoldable pub log_pauses : List Worker → Db → Db
unfolding audit
log_pauses [] db = db
log_pauses (e ∷ es) db = log_pauses es (audit 1 "employees" e.id AuditVerb.updated db)

-- `autoPauseExpiredContracts`; the cache of the employees service is not among the tables.
unfoldable pub auto_pause_expired_contracts :
    {W : Type 0} → (today location : ℕ) → State W → State W
unfolding log_pauses
auto_pause_expired_contracts today location s = elim (keep (is_expired today location) s.workers) [
  | [] ↦ s
  | e ∷ es ↦ record s {
    db = log_pauses (e ∷ es) s.db;
    workers = update_where (is_expired today location) paused s.workers;
    employee_history = s.employee_history ++ map (λ (w : Worker). w.id) (e ∷ es);
    broadcasts = s.broadcasts ++ "employees_updated" ∷ [];
  }
]

abbrev is_category : List Frequency → Option Frequency → Bool
is_category [] frequency = true
is_category (c ∷ cs) none = false
is_category (c ∷ cs) (some f) = any (is_frequency f) (c ∷ cs)
  where
    is_frequency : Frequency → Frequency → Bool
    is_frequency Frequency.daily Frequency.daily = true
    is_frequency Frequency.monthly Frequency.monthly = true
    is_frequency Frequency.custom Frequency.custom = true
    is_frequency _ _ = false

-- `employees.findMany` of the active employees of the location
abbrev pub active_employees : {W : Type 0} → CreateBatchDto W → List Worker → List Worker
active_employees dto = keep (λ e.
    is_id e.working_location_id dto.working_location_id
    && (is_active e.status
        && (not e.is_deleted && is_category dto.categories e.category_frequency)))

abbrev pub is_under_way : BatchStatus → Bool
is_under_way BatchStatus.pending = true
is_under_way BatchStatus.in_review = true
is_under_way BatchStatus.manager_approved = true
is_under_way BatchStatus.approved = true
is_under_way _ = false

-- A batch of the month that is submitted, in review or approved.
abbrev pub is_active_batch : {W : Type 0} → CreateBatchDto W → Batch → Bool
is_active_batch dto b =
    (b.payroll_month == dto.payroll_month)
    && ((b.payroll_year == dto.payroll_year) && is_under_way b.status)

-- `processedEmployeeIds.has`
abbrev pub is_processed : {W : Type 0} → CreateBatchDto W → Db → ℕ → Bool
is_processed dto db employee =
    any
      (λ (i : Item).
        (i.employee_id == employee)
        && any (λ (b : Batch). (b.id == i.payment_batch_id) && is_active_batch dto b) db.batches)
      db.items

abbrev pub eligible_employees : {W : Type 0} → CreateBatchDto W → Db → List Worker → List Worker
eligible_employees dto db es = keep (λ e. not (is_processed dto db e.id)) (active_employees dto es)

abbrev pub is_draft : BatchStatus → Bool
is_draft BatchStatus.draft = true
is_draft _ = false

abbrev pub find_draft : {W : Type 0} → CreateBatchDto W → Db → Option Batch
find_draft dto db =
    find_where
      (λ (b : Batch).
        (b.working_location_id == dto.working_location_id)
        && ((b.payroll_month == dto.payroll_month)
            && ((b.payroll_year == dto.payroll_year) && is_draft b.status)))
      db.batches
