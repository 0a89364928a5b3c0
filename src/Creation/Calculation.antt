-- ===== src/Creation/Calculation.antt =====
-- `calculateEmployeePayroll` of backend/src/payroll/payroll.service.ts: the pay of an employee for
-- a period. The metadata, which only the views read, are left out.
use reg_pay.Prelude.{ℕ, suc, ◌-◌, List, Option, none, some, leb, ltb, map, if◌then◌else◌}
use reg_pay.Creation.Number.{
  Number, calculate_monthly_daily_rate, calculate_overtime_pay, get_contract_days, total,
}
use reg_pay.Creation.Rows.{
  Calculation, Calendar, CreateBatchDto, EmployeeDeduction, Override, Structure, Tables, Worker,
}
use reg_pay.Creation.Inputs.{
  attendance_of, contract_days_of, deductions_of, expected_work_days, find_override, find_structure,
  full_allowance, full_deduction, full_tax, is_monthly, overridden_base, overridden_phone,
  period_of, present_days, prorated_deductions,
}
use reg_pay.Creation.Taxes.{
  Tax, find_employee_assigned_taxes, find_monthly_taxes_at_date, get_overtime_bonus_per_day,
}

module _ {W : Type 0} (N : Number W) (calendar : Calendar) where
  open N use {of_nat, of_decimal, plus, minus, times, over, max_zero, is_truthy}
  open calendar use {period_start, period_end, day_difference, is_on_or_before, is_on_or_after}

  -- What the three ways to pay are given: the structure, the days, and what has been found out.
  pub record Basis : Type 0 where
    pub employee : Worker
    pub structure : Structure
    pub present : ℕ
    pub expected : ℕ
    pub overtime : W
    pub allowance : W
    pub taxes : List Tax
    pub assigned : List Tax
    pub deductions : List EmployeeDeduction
    pub override : Option (Override W)

  abbrev min : ℕ → ℕ → ℕ
  min a b = if leb a b then a else b

  -- `salaryPresentDays`
  abbrev pub salary_present_days : Basis → ℕ
  salary_present_days b =
      if is_monthly b.structure.payroll_frequency then min b.present b.expected else b.present

  -- `prorationRatio`
  abbrev pub proration_ratio : Basis → W
  proration_ratio b = over (of_nat (salary_present_days b)) (of_nat b.expected)

  -- The amounts of a pay, in the order base, allowance, overtime, tax, deductions and net.
  pub record Amounts : Type 0 where
    pub base : W
    pub allowance : W
    pub gross : W
    pub tax : W
    pub deductions : W
    pub net : W

  -- `absentDaysDeduction` of a monthly salary
  abbrev pub absent_days_deduction : Basis → W
  absent_days_deduction b =
      let salary = of_decimal b.structure.basic_salary in
      let rate = of_decimal b.structure.daily_rate in
      times (of_nat (b.expected - salary_present_days b))
        (if is_truthy rate then rate else calculate_monthly_daily_rate N salary b.expected)

  -- A monthly salary
  unfoldable pub pay_monthly : Basis → Amounts
  unfolding full_deduction calculate_monthly_daily_rate
  pay_monthly b =
      let salary = of_decimal b.structure.basic_salary in
      let ratio = proration_ratio b in
      let absence = absent_days_deduction b in
      let configured = prorated_deductions N calendar b.assigned b.deductions salary ratio in
      let allowance = times b.allowance ratio in
      let tax = times (full_tax N calendar b.taxes salary) ratio in
      record {
        base = salary;
        allowance = allowance;
        gross = plus (plus salary allowance) b.overtime;
        tax = tax;
        deductions = plus (plus tax configured) absence;
        net = max_zero (
            plus (plus (minus (minus (minus salary tax) configured) absence) allowance) b.overtime);
      }

  -- Pay by the day, for more than 21 days
  unfoldable pub pay_days : Basis → Amounts
  unfolding full_deduction
  pay_days b =
      let ratio = proration_ratio b in
      let full_base = times (of_decimal b.structure.daily_rate) (of_nat b.expected) in
      let configured = prorated_deductions N calendar b.assigned b.deductions full_base ratio in
      let base = times full_base ratio in
      let allowance = times b.allowance ratio in
      record {
        base = base;
        allowance = allowance;
        gross = plus (plus base allowance) b.overtime;
        tax = of_nat 0;
        deductions = configured;
        net = max_zero (minus (plus (plus base allowance) b.overtime) configured);
      }

  -- Pay by the day, for 21 days at most
  unfoldable pub pay_few_days : Basis → Amounts
  pay_few_days b =
      let base =
        overridden_base N calendar b.override
          (times (of_decimal b.structure.daily_rate) (of_nat b.present)) in
      let gross = plus (plus base b.overtime) (of_nat 0) in
      record {
        base = base;
        allowance = of_nat 0;
        gross = gross;
        tax = of_nat 0;
        deductions = of_nat 0;
        net = max_zero (minus gross (of_nat 0));
      }

  -- The choice between the three
  unfoldable pub pay : Basis → Amounts
  unfolding pay_monthly pay_days pay_few_days
  pay b =
      if is_monthly b.structure.payroll_frequency
      then pay_monthly b
      else if ltb 21 b.present
      then pay_days b
      else pay_few_days b

  -- What is found out about an employee with a structure.
  unfoldable pub basis_of : Tables W → CreateBatchDto W → Worker → Structure → Basis
  unfolding expected_work_days calculate_overtime_pay get_overtime_bonus_per_day
      find_monthly_taxes_at_date find_employee_assigned_taxes get_contract_days
  basis_of tables dto e s =
      let p = period_of N calendar dto in
      let records = attendance_of N calendar e.id p tables.time_records in
      let taxes = find_monthly_taxes_at_date (λ d. is_on_or_before d p.last) tables.monthly_taxes in
      record {
        employee = e;
        structure = s;
        present = present_days N calendar records;
        expected =
            expected_work_days N calendar dto s.payroll_frequency
              (suc (day_difference p.start p.last)) (contract_days_of N calendar e);
        overtime =
            calculate_overtime_pay N (total N (map (λ r. of_decimal r.overtime_hours) records))
              (get_overtime_bonus_per_day N tables.overtime_rate);
        allowance = full_allowance N calendar e.id tables.allowances;
        taxes = taxes;
        assigned =
            find_employee_assigned_taxes (λ d. is_on_or_before d p.last) tables.monthly_taxes;
        deductions = deductions_of N calendar e.id p taxes tables.employee_deductions;
        override = find_override N calendar e.id dto;
      }

  unfoldable pub calculation_of : Basis → Calculation W
  unfolding pay
  calculation_of b =
      let amounts = pay b in
      record {
        employee_id = b.employee.id;
        department_id = b.employee.department_id;
        payment_structure_id = b.structure.id;
        base_amount = amounts.base;
        allowance_amount = amounts.allowance;
        tax_amount = amounts.tax;
        gross_amount = amounts.gross;
        total_deductions = amounts.deductions;
        net_amount = amounts.net;
        attendance_days = b.present;
        payroll_work_days = b.expected;
        phone_number = overridden_phone N calendar b.override;
      }

  -- `calculateEmployeePayroll`: an error for a period that is reversed, `null` without a structure.
  pub data Calculated : Type 0 where
    reversed_period no_structure : Calculated
    calculated : Calculation W → Calculated

  unfoldable pub calculate_employee_payroll : Tables W → CreateBatchDto W → Worker → Calculated
  unfolding find_structure basis_of calculation_of
  calculate_employee_payroll tables dto e =
      let p = period_of N calendar dto in
      if ltb p.last p.start
      then reversed_period
      else elim (find_structure N calendar e.id p tables.structures) [
        | none ↦ no_structure
        | some s ↦ calculated (calculation_of (basis_of tables dto e s))
      ]
