-- ===== src/Creation/Number.antt =====
-- The numbers of the payroll, and the day counts of backend/src/common/utils/payroll-calc.util.ts.
-- The source calculates with doubles: `W` stands for them, with the operations that it uses.
use reg_pay.Prelude.{ℕ, suc, ◌-◌, Bool, not, ◌||◌, List, [], ◌∷◌, if◌then◌else◌}
use reg_pay.Prelude.Int.{ℤ}

pub record Number (W : Type 0) : Type 0 where
  pub of_nat : ℕ → W
  -- `Number(x)` of a decimal with two places, given in hundredths
  pub of_decimal : ℤ → W
  pub plus : W → W → W
  pub minus : W → W → W
  pub times : W → W → W
  pub over : W → W → W
  -- `Math.max(0, x)`
  pub max_zero : W → W
  -- `x > 0` and `x >= 0`, both false for NaN
  pub is_positive : W → Bool
  pub is_nonnegative : W → Bool
  -- neither 0 nor NaN
  pub is_truthy : W → Bool
  pub is_finite : W → Bool
  -- `Number(x.toFixed(2))`
  pub fixed2 : W → W
  -- what a column with two places keeps of a number
  pub to_decimal : W → ℤ

-- `DEFAULT_MONTHLY_WORK_DAYS` and `DEFAULT_OVERTIME_BONUS_PER_DAY`
abbrev pub default_monthly_work_days : ℕ
default_monthly_work_days = 22

abbrev pub default_overtime_bonus_per_day : ℕ
default_overtime_bonus_per_day = 2500

-- `getContractDays`, on numbers of days
unfoldable pub get_contract_days : (contract_start contract_end : ℕ) → ℕ
get_contract_days contract_start contract_end = suc contract_end - contract_start

module _ {W : Type 0} (N : Number W) where
  open N use {of_nat, plus, times, over, is_positive, is_truthy, is_finite, fixed2}

  -- `reduce((sum, x) => sum + x, 0)`
  abbrev pub sum_from : W → List W → W
  sum_from sum [] = sum
  sum_from sum (x ∷ xs) = sum_from (plus sum x) xs

  abbrev pub total : List W → W
  total = sum_from (of_nat 0)

  -- `calculateOvertimePay`
  unfoldable pub calculate_overtime_pay : (overtime_hours rate_per_hour : W) → W
  calculate_overtime_pay overtime_hours rate_per_hour =
      if not (is_truthy overtime_hours) || not (is_positive overtime_hours)
      then of_nat 0
      else times overtime_hours rate_per_hour

  -- `calculateMonthlyDailyRate`
  unfoldable pub calculate_monthly_daily_rate : W → ℕ → W
  calculate_monthly_daily_rate salary working_days =
      if not (is_finite salary)
        || (not (is_positive salary) || not (is_positive (of_nat working_days)))
      then of_nat 0
      else fixed2 (over salary (of_nat working_days))
