-- ===== src/Creation/Inputs.antt =====
-- What `calculateEmployeePayroll` of backend/src/payroll/payroll.service.ts finds out about an
-- employee before it calculates the pay.
use reg_pay.Prelude.{
  ℕ, zero, suc, Bool, true, false, not, ◌&&◌, List, [], ◌∷◌, Option, none, some, ◌==◌, leb, any,
  keep, map, length, if◌then◌else◌,
}
use reg_pay.Payroll.Schema.{find_where}
use reg_pay.Payroll.Export.{Text, same_text}
use reg_pay.Savings.Rows.{Frequency, or_default}
use reg_pay.Savings.Handlers.{find_last}
use reg_pay.Attendance.Rows.{AttendanceStatus, TimeRecord, present}
use reg_pay.Creation.Number.{Number, default_monthly_work_days, get_contract_days, total}
use reg_pay.Creation.Rows.{
  Allowance, Calendar, CreateBatchDto, EmployeeDeduction, Override, Period, Structure, Worker,
}
use reg_pay.Creation.Taxes.{Tax, normalize_deduction_name}

abbrev pub is_monthly : Frequency → Bool
is_monthly Frequency.monthly = true
is_monthly _ = false

-- Of the structures in force the latest.
latest_structure : List Structure → Option Structure
latest_structure [] = none
latest_structure (p ∷ ps) = elim (latest_structure ps) [
  | none ↦ some p
  | some q ↦ if leb q.effective_from p.effective_from then some p else some q
]

abbrev is_open_until : (ends_after : ℕ → Bool) → Option ℕ → Bool
is_open_until ends_after none = true
is_open_until ends_after (some day) = ends_after day

module _ {W : Type 0} (N : Number W) (calendar : Calendar) where
  open N use {of_nat, of_decimal, plus, minus, times, over, max_zero, is_truthy}
  open calendar use {period_start, period_end, day_difference, is_on_or_before, is_on_or_after}

  -- `paymentStructure` of the period
  unfoldable pub find_structure : ℕ → Period → List Structure → Option Structure
  unfolding latest_structure
  find_structure employee p structures = latest_structure (
      keep
        (λ s.
          (s.employee_id == employee)
          && (is_on_or_before s.effective_from p.last
              && is_open_until (λ d. is_on_or_after d p.start) s.effective_to))
        structures)

  -- `attendance` of the period
  abbrev pub attendance_of : ℕ → Period → List TimeRecord → List TimeRecord
  attendance_of employee p = keep (λ r.
      (r.employee_id == employee)
      && (is_on_or_after r.attendance_date p.start && is_on_or_before r.attendance_date p.last))

  abbrev is_present : AttendanceStatus → Bool
  is_present present = true
  is_present _ = false

  abbrev pub present_days : List TimeRecord → ℕ
  present_days records = length (keep (λ r. is_present r.attendance_status) records)

  -- `periodStart` and `periodEnd`
  abbrev pub period_of : CreateBatchDto W → Period
  period_of dto = record {
    start = period_start dto.start_date dto.payroll_year dto.payroll_month;
    last = period_end dto.end_date dto.payroll_year dto.payroll_month;
  }

  -- `contractDays`
  abbrev pub contract_days_of : Worker → Option ℕ
  contract_days_of e = elim e.contract_start_date [
    | none ↦ none
    | some first ↦ elim e.contract_end_date [
      | none ↦ none
      | some last ↦ some (get_contract_days first last)
    ]
  ]

  abbrev at_least_one : ℕ → ℕ
  at_least_one zero = 1
  at_least_one (suc n) = suc n

  -- A contract of no days counts as none.
  abbrev contract_or : ℕ → Frequency → Option ℕ → ℕ
  contract_or days Frequency.monthly contract = days
  contract_or days _ none = days
  contract_or days _ (some zero) = days
  contract_or days _ (some (suc n)) = suc n

  -- `expectedWorkDays`
  unfoldable pub expected_work_days :
      CreateBatchDto W → Frequency → (calendar_days : ℕ) → Option ℕ → ℕ
  expected_work_days dto frequency calendar_days contract = elim dto.work_days [
    | some days ↦ at_least_one days
    | none ↦ at_least_one (
        contract_or (if is_monthly frequency then default_monthly_work_days else calendar_days)
          frequency contract)
  ]

  abbrev pub find_override : ℕ → CreateBatchDto W → Option (Override W)
  find_override employee dto =
      find_where (λ (o : Override W). o.employee_id == employee) dto.overrides

  -- `baseAmount` after the overrides of the request
  abbrev pub overridden_base : Option (Override W) → W → W
  overridden_base none base = base
  overridden_base (some o) base = or_default o.base_amount base

  abbrev pub overridden_phone : Option (Override W) → Option Text
  overridden_phone none = none
  overridden_phone (some o) = o.phone_number

  -- `rate / 100`
  abbrev pub percent : W → W
  percent rate = over rate (of_nat 100)

  -- What a deduction takes of a base: the full amount.
  unfoldable pub full_deduction : List Tax → W → EmployeeDeduction → W
  unfolding normalize_deduction_name find_last
  full_deduction assigned base d =
      elim (find_last
        (λ (t : Tax).
          same_text (normalize_deduction_name t.name)
            (normalize_deduction_name d.deduction_type.name))
        assigned) [
          | some t ↦ times base (percent (of_decimal t.rate))
          | none ↦
              if d.deduction_type.is_percentage
              then times base (percent (of_decimal d.deduction_type.percentage_value))
              else of_decimal d.deduction_type.amount
        ]

  -- The prorated amount of `calculateConfiguredDeductions`
  abbrev pub prorated_deductions : List Tax → List EmployeeDeduction → (base ratio : W) → W
  prorated_deductions assigned ds base ratio =
      total N (map (λ d. times (full_deduction assigned base d) ratio) ds)

  -- `employeeDeductions` of the period, without those that are taxes for all
  abbrev pub deductions_of :
      ℕ → Period → (global_taxes : List Tax) → List EmployeeDeduction → List EmployeeDeduction
  deductions_of employee p global_taxes ds =
      keep
        (λ d. not (
          any
            (λ (t : Tax).
              same_text (normalize_deduction_name t.name)
                (normalize_deduction_name d.deduction_type.name))
            global_taxes))
        (keep
          (λ d.
            (d.employee_id == employee)
            && (d.is_active
                && (is_on_or_before d.start_date p.last
                    && is_open_until (λ day. is_on_or_after day p.start) d.end_date)))
          ds)

  -- `fullAllowance`
  abbrev pub full_allowance : ℕ → List Allowance → W
  full_allowance employee allowances = total N (
      map (λ (a : Allowance). of_decimal a.amount)
        (keep (λ a. (a.employee_id == employee) && a.is_active) allowances))

  -- `fullTax`, of the base salary
  abbrev pub full_tax : List Tax → W → W
  full_tax taxes salary =
      total N (map (λ (t : Tax). times salary (percent (of_decimal t.rate))) taxes)
