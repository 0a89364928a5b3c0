-- ===== src/Creation/Rows.antt =====
-- The rows and the request that the creation of a payroll batch reads
-- (backend/src/payroll/payroll.service.ts, backend/prisma/schema.prisma). Amounts are integers of
-- cents, percentages integers of hundredths, and dates numbers of days.
use reg_pay.Prelude.{ℕ, Bool, List, Option, String}
use reg_pay.Prelude.Int.{ℤ}
use reg_pay.Payroll.Export.{Text}
use reg_pay.Savings.Rows.{EmployeeStatus, Frequency}
use reg_pay.Attendance.Rows.{TimeRecord}
use reg_pay.Creation.Taxes.{MonthlyTax}

-- A row of `employees`, with the frequency of its category. Dates are numbers of days.
pub record Worker : Type 0 where
  pub id : ℕ
  pub status : EmployeeStatus
  pub is_deleted : Bool
  pub working_location_id : Option ℕ
  pub department_id : Option ℕ
  pub contract_start_date : Option ℕ
  pub contract_end_date : Option ℕ
  pub category_frequency : Option Frequency
  pub phone_number : Option Text

pub record Structure : Type 0 where
  pub id : ℕ
  pub employee_id : ℕ
  pub payroll_frequency : Frequency
  pub basic_salary : ℤ
  pub daily_rate : ℤ
  pub effective_from : ℕ
  pub effective_to : Option ℕ

pub record Allowance : Type 0 where
  pub employee_id : ℕ
  pub amount : ℤ
  pub is_active : Bool

-- A row of `deduction_types`, whose mode is a percentage or a fixed amount.
pub record DeductionType : Type 0 where
  pub name : Text
  pub is_percentage : Bool
  pub amount : ℤ
  pub percentage_value : ℤ

pub record EmployeeDeduction : Type 0 where
  pub employee_id : ℕ
  pub deduction_type : DeductionType
  pub start_date : ℕ
  pub end_date : Option ℕ
  pub is_active : Bool

-- An entry of `dto.overrides`.
pub record Override (W : Type 0) : Type 0 where
  pub employee_id : ℕ
  pub base_amount : Option W
  pub phone_number : Option Text

pub record CreateBatchDto (W : Type 0) : Type 0 where
  pub working_location_id : ℕ
  pub payroll_month : ℕ
  pub payroll_year : ℕ
  -- trimmed, and none where it is empty
  pub description : Option String
  pub start_date : Option ℕ
  pub end_date : Option ℕ
  pub work_days : Option ℕ
  pub categories : List Frequency
  pub overrides : List (Override W)

-- A moment with its place among the days of the columns. What dayjs makes of the dates of a request
-- and of its month, in the time zone of Rwanda: the start and the end of the period as moments, the
-- days from the one to the other, and the comparisons of the database with the day of a row.
pub record Calendar : Type 0 where
  pub period_start : Option ℕ → (year month : ℕ) → ℕ
  pub period_end : Option ℕ → (year month : ℕ) → ℕ
  pub day_difference : (start last : ℕ) → ℕ
  pub is_on_or_before : (day moment : ℕ) → Bool
  pub is_on_or_after : (day moment : ℕ) → Bool

-- The tables that the calculation reads.
pub record Tables (W : Type 0) : Type 0 where
  pub structures : List Structure
  pub time_records : List TimeRecord
  pub allowances : List Allowance
  pub employee_deductions : List EmployeeDeduction
  pub monthly_taxes : List MonthlyTax
  pub overtime_rate : Option W

pub record Period : Type 0 where
  pub start : ℕ
  pub last : ℕ

-- `PayrollCalculation`
pub record Calculation (W : Type 0) : Type 0 where
  pub employee_id : ℕ
  pub department_id : Option ℕ
  pub payment_structure_id : ℕ
  pub base_amount : W
  pub allowance_amount : W
  pub tax_amount : W
  pub gross_amount : W
  pub total_deductions : W
  pub net_amount : W
  pub attendance_days : ℕ
  pub payroll_work_days : ℕ
  pub phone_number : Option Text
