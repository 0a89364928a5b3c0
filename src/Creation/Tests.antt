-- ===== src/Creation/Tests.antt =====
-- A sample of a payroll, and the theorems about the creation of batches at calls on it. The numbers
-- of the sample are integers of hundredths.
use reg_pay.Prelude.{
  ℕ, ◌+◌, ◌-◌, ◌*◌, ◌/◌, ◌≡◌, ◌||◌, refl, arith, Bool, true, false, [], ◌∷◌, none, some, map, ltb,
  leb, ◌==◌, All, length,
}
use reg_pay.Prelude.Int.{ℤ, pos, pos_part, neg_part, sub_ℕ, ◌+ℤ◌, ◌-ℤ◌, ◌≤ℤ◌}
use reg_pay.Permissions.{CurrentUser}
use reg_pay.Payroll.Schema.{Batch, BatchCode, BatchStatus, Env, Item, Transaction}
use reg_pay.Payroll.Access.{ensure_actor_can_use_working_location}
use reg_pay.Payroll.Log.{audit, clear_payroll_cache, notify}
use reg_pay.Savings.Rows.{EmployeeStatus, Frequency, Savings, invalidate_membership_caches}
use reg_pay.Savings.Handlers.{deduct, deduct_for_batch, find_last, invalidate_all}
use reg_pay.Attendance.Rows.{TimeRecord, present}
use reg_pay.Creation.Number.{
  Number, calculate_monthly_daily_rate, calculate_overtime_pay, get_contract_days,
}
use reg_pay.Creation.Taxes.{
  find_employee_assigned_taxes, find_monthly_taxes_at_date, get_overtime_bonus_per_day,
  is_pit_tax_name, normalize_deduction_name, taxes_at, trim,
}
use reg_pay.Creation.Rows.{Calendar, CreateBatchDto, Override, Structure, Tables, Worker}
use reg_pay.Creation.Inputs.{expected_work_days, find_structure, full_deduction, is_monthly}
use reg_pay.Creation.Calculation.{
  Basis, basis_of, calculate_employee_payroll, calculation_of, pay, pay_days, pay_few_days,
  pay_monthly,
}
use reg_pay.Creation.Batch.{
  Answer, State, auto_pause_expired_contracts, created, is_processed, log_pauses,
}
use reg_pay.Creation.Writes.{
  adjust, adjust_for_savings, calculate_all, create_batch, create_from, notify_unless_draft,
  open_batch, write_batch, write_calculations,
}
use reg_pay.Creation.Frame.{items_of, other_batches, other_items}
use reg_pay.Creation.Effects.{create_batch-eligible, create_batch-others}
use reg_pay.Creation.Headcount.{Counts, create_batch-Counts}
use reg_pay.Creation.Bounds.{IsNonnegative, create_batch-IsNonnegative, pay-override}

abbrev multiply : ℤ → ℤ → ℤ
multiply a b =
    sub_ℕ ((pos_part a * pos_part b + neg_part a * neg_part b) / 100)
      ((pos_part a * neg_part b + neg_part a * pos_part b) / 100)

abbrev divide : ℤ → ℤ → ℤ
divide a b = sub_ℕ (pos_part a * 100 / pos_part b) (neg_part a * 100 / pos_part b)

abbrev positive : ℤ → Bool
positive a = ltb 0 (pos_part a)

abbrev hundredths : Number ℤ
hundredths = record {
  of_nat = λ n. pos (100 * n);
  of_decimal = λ a. a;
  plus = λ a b. a +ℤ b;
  minus = λ a b. a -ℤ b;
  times = multiply;
  over = divide;
  max_zero = λ a. pos (pos_part a);
  is_positive = positive;
  is_nonnegative = λ a. neg_part a == 0;
  is_truthy = λ a. positive a || ltb 0 (neg_part a);
  is_finite = λ a. true;
  fixed2 = λ a. a;
  to_decimal = λ a. a;
}

cut : (a : ℤ) → pos 0 ≤ℤ pos (pos_part a)
cut a = ground arith

-- Months of thirty days, in which moments are days.
abbrev calendar : Calendar
calendar = record {
  period_start = λ given year month. 30 * month;
  period_end = λ given year month. 30 * month + 29;
  day_difference = λ start last. last - start;
  is_on_or_before = leb;
  is_on_or_after = λ day moment. leb moment day;
}

abbrev worker : ℕ → Frequency → Worker
worker id frequency = record {
  id = id;
  status = EmployeeStatus.active;
  is_deleted = false;
  working_location_id = some 10;
  department_id = none;
  contract_start_date = none;
  contract_end_date = none;
  category_frequency = some frequency;
  phone_number = none;
}

-- A worker by the day whose contract ended on day 40.
abbrev ended : Worker
ended = record (worker 3 Frequency.daily) {
  contract_start_date = some 1;
  contract_end_date = some 40;
}

abbrev structure : ℕ → Frequency → (basic_salary daily_rate : ℤ) → Structure
structure employee frequency basic_salary daily_rate = record {
  id = 100 + employee;
  employee_id = employee;
  payroll_frequency = frequency;
  basic_salary = basic_salary;
  daily_rate = daily_rate;
  effective_from = 0;
  effective_to = none;
}

abbrev attended : ℕ → ℕ → TimeRecord
attended employee day = record {
  id = day;
  uuid = day;
  employee_id = employee;
  attendance_date = day;
  overtime_hours = pos 0;
  attendance_status = present;
  approved_by = none;
  working_location_id = some 10;
  department_id = none;
}

abbrev tables : Tables ℤ
tables = record {
  structures =
      structure 1 Frequency.monthly (pos 2200000) (pos 0)
      ∷ structure 2 Frequency.daily (pos 0) (pos 50000)
      ∷ structure 3 Frequency.daily (pos 0) (pos 50000)
      ∷ [];
  time_records = attended 1 60 ∷ attended 1 61 ∷ attended 2 60 ∷ [];
  allowances = [];
  employee_deductions = [];
  monthly_taxes = [];
  overtime_rate = none;
}

abbrev super_admin : CurrentUser
super_admin = record {
  user_id = 1;
  roles = "SUPER_ADMIN" ∷ [];
  permissions = [];
  working_location_id = none;
  department_id = none;
  permission_overrides = [];
}

abbrev dto : CreateBatchDto ℤ
dto = record {
  working_location_id = 10;
  payroll_month = 2;
  payroll_year = 2024;
  description = none;
  start_date = none;
  end_date = none;
  work_days = none;
  categories = [];
  overrides = [];
}

abbrev env : Env
env = record { now = 70; uuid = λ n. 500 + n; has_store_keys = false }

abbrev savings : Savings
savings = record {
  employees = [];
  memberships =
      record {
        id = 1;
        uuid = 1;
        employee_id = 1;
        monthly_amount = pos 50000000;
        is_active = true;
        created_by = 1;
        working_location_id = some 10;
        department_id = none;
      }
      ∷ [];
  contributions = [];
  next_membership_id = 2;
  audit_logs = [];
  cache_keys = [];
}

-- A batch of another month, with one item.
abbrev january : Batch
january = record {
  id = 4;
  uuid = 44;
  batch_code = BatchCode.pay 2024 1 5;
  working_location_id = 10;
  payroll_month = 1;
  payroll_year = 2024;
  total_employees = pos 1;
  total_amount = pos 900;
  total_gross = pos 1000;
  total_allowances = pos 0;
  total_deductions = pos 100;
  total_tax = pos 100;
  status = BatchStatus.approved;
  current_approval_step = 2;
  rejected_reason = none;
  description = none;
  attachments = [];
  submitted_by = 1;
  approved_by = some 1;
  submitted_at = none;
  approved_at = none;
}

abbrev january_item : Item
january_item = record {
  id = 1;
  uuid = 1;
  payment_batch_id = 4;
  employee_id = 1;
  transaction_id = 1;
  status = BatchStatus.approved;
  rejection_reason = none;
  approved_by = some 1;
  approved_at = none;
}

abbrev sample : State ℤ
sample = record {
  db = record {
    batches = january ∷ [];
    items = january_item ∷ [];
    transactions = [];
    approval_actions = [];
    audit_logs = [];
    notifications = [];
    cache_keys = [];
    users = [];
    branch_managers = [];
    working_locations = record { id = 10; name = "Kigali"; is_hq = true; is_deleted = false } ∷ [];
    next_batch_id = 5;
  };
  workers = worker 1 Frequency.monthly ∷ worker 2 Frequency.daily ∷ ended ∷ [];
  savings = savings;
  tables = tables;
  employee_history = [];
  broadcasts = [];
  next_item_id = 2;
  next_transaction_id = 2;
}

-- Opens the payroll for the evaluations below.
payroll : Unit {0}
unfolding create_batch create_from calculate_all calculate_employee_payroll calculation_of basis_of
    find_structure expected_work_days full_deduction pay pay_monthly pay_days pay_few_days
    calculate_monthly_daily_rate calculate_overtime_pay get_contract_days find_monthly_taxes_at_date
    find_employee_assigned_taxes get_overtime_bonus_per_day taxes_at is_pit_tax_name trim
    normalize_deduction_name auto_pause_expired_contracts log_pauses write_batch open_batch
    write_calculations adjust_for_savings adjust notify_unless_draft audit clear_payroll_cache
    notify deduct_for_batch deduct invalidate_all invalidate_membership_caches find_last
    ensure_actor_can_use_working_location ◌+ℤ◌ ◌-ℤ◌
payroll = tt

abbrev result : State ℤ × Answer
result = create_batch hundredths calendar env 65 super_admin dto sample

creates : result.1 ≡ created 5
unfolding payroll
creates = refl

-- The contribution exceeds the monthly pay, which is cut off; the worker by the day is paid one day.
paid :
    map {B = ℕ × ℤ × ℤ}
      (λ (t : Transaction). (t.employee_id, t.gross_amount, t.net_amount))
      result.0.db.transactions
    ≡ (1, pos 2200000, pos 0) ∷ (2, pos 50000, pos 50000) ∷ []
unfolding payroll
paid = refl

create_batch-others_example :
    (other_batches 5 result.0.db ≡ other_batches 5 sample.db)
    × (other_items 5 result.0.db ≡ other_items 5 sample.db)
create_batch-others_example =
    create_batch-others hundredths calendar env 65 super_admin dto sample 5 creates

create_batch-eligible_example :
    All
      (λ id. is_processed dto sample.db id ≡ false)
      (map (λ (i : Item). i.employee_id) (items_of 5 result.0.db))
create_batch-eligible_example =
    create_batch-eligible hundredths calendar env 65 super_admin dto sample 5 (ground arith) creates

create_batch-IsNonnegative_example : IsNonnegative result.0.db.transactions
create_batch-IsNonnegative_example =
    create_batch-IsNonnegative hundredths calendar cut env 65 super_admin dto sample tt

create_batch-Counts_example : Counts 5 (pos (length (items_of 5 result.0.db))) result.0.db.batches
create_batch-Counts_example =
    create_batch-Counts hundredths calendar env 65 super_admin dto sample 5 (ground arith)
      (ground arith) creates

-- The basis of a monthly salary
abbrev basis : Basis hundredths calendar
basis =
    basis_of hundredths calendar tables dto (worker 1 Frequency.monthly)
      (structure 1 Frequency.monthly (pos 2200000) (pos 0))

abbrev override : Override ℤ
override = record { employee_id = 1; base_amount = some (pos 5); phone_number = none }

is_paid_monthly : (is_monthly basis.structure.payroll_frequency || ltb 21 basis.present) ≡ true
unfolding payroll
is_paid_monthly = refl

pay-override_example :
    pay hundredths calendar (record basis { override = some override })
    ≡ pay hundredths calendar basis
pay-override_example = pay-override hundredths calendar basis (some override) is_paid_monthly
