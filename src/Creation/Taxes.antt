-- ===== src/Creation/Taxes.antt =====
-- The taxes of a period: backend/src/system-config/system-config.service.ts, and the names of
-- deductions in backend/src/payroll/payroll.service.ts. A text is a list of UTF-16 code units.
use reg_pay.Prelude.{
  ℕ, ◌+◌, Bool, true, false, ◌&&◌, ◌||◌, List, [], ◌∷◌, ◌++◌, Option, none, some, ◌==◌, leb, ltb,
  any, keep, if◌then◌else◌,
}
use reg_pay.Prelude.Int.{ℤ, pos}
use reg_pay.Payroll.Schema.{find_where}
use reg_pay.Payroll.Export.{Text, same_text}
use reg_pay.Creation.Number.{Number, default_overtime_bonus_per_day}

abbrev is_small_letter : ℕ → Bool
is_small_letter c = leb 97 c && leb c 122

abbrev is_capital : ℕ → Bool
is_capital c = leb 65 c && leb c 90

-- What `toLowerCase` and then the removal of all but a to z leave of a code unit: a letter of
-- ASCII, or one of the two others whose small letter is in ASCII, the Kelvin sign and I with dot.
abbrev letter : ℕ → List ℕ
letter c =
    if is_small_letter c
    then c ∷ []
    else if is_capital c
    then (c + 32) ∷ []
    else if c == 8490
    then 107 ∷ []
    else if c == 304
    then 105 ∷ []
    else []

-- `normalizeDeductionName`
unfoldable pub normalize_deduction_name : Text → Text
normalize_deduction_name [] = []
normalize_deduction_name (c ∷ t) = letter c ++ normalize_deduction_name t

-- `startsWith` and `includes` on texts
abbrev begins_with : Text → Text → Bool
begins_with [] u = true
begins_with (c ∷ t) [] = false
begins_with (c ∷ t) (d ∷ u) = (c == d) && begins_with t u

abbrev contains : Text → Text → Bool
contains t [] = begins_with t []
contains t (d ∷ u) = begins_with t (d ∷ u) || contains t u

-- "pit", "personalincometax" and "paye"
abbrev pit : Text
pit = 112 ∷ 105 ∷ 116 ∷ []

abbrev personal_income_tax : Text
personal_income_tax =
    112 ∷ 101 ∷ 114 ∷ 115 ∷ 111 ∷ 110 ∷ 97 ∷ 108 ∷ 105 ∷ 110 ∷ 99 ∷ 111 ∷ 109 ∷ 101 ∷ 116 ∷ 97 ∷ 120
    ∷ []

abbrev paye : Text
paye = 112 ∷ 97 ∷ 121 ∷ 101 ∷ []

-- `isPitTaxName`
unfoldable pub is_pit_tax_name : Text → Bool
unfolding normalize_deduction_name
is_pit_tax_name name =
    let normalized = normalize_deduction_name name in
    same_text normalized pit
    || (contains personal_income_tax normalized || contains paye normalized)

-- The white space that `trim` removes.
abbrev is_space : ℕ → Bool
is_space c =
    (leb 9 c && leb c 13)
    || any (λ s. s == c) (32 ∷ 160 ∷ 5760 ∷ 8232 ∷ 8233 ∷ 8239 ∷ 8287 ∷ 12288 ∷ 65279 ∷ [])
    || (leb 8192 c && leb c 8202)

trim_start : Text → Text
trim_start [] = []
trim_start (c ∷ t) = let rest = trim_start t in if is_space c then rest else c ∷ t

trim_end : Text → Text
trim_end [] = []
trim_end (c ∷ t) = elim (trim_end t) [ [] ↦ if is_space c then [] else c ∷ [] | d ∷ u ↦ c ∷ d ∷ u ]

unfoldable pub trim : Text → Text
unfolding trim_start trim_end
trim t = trim_end (trim_start t)

-- A row of `monthly_taxes`; the rate is a percentage in hundredths.
pub record MonthlyTax : Type 0 where
  pub name : Text
  pub rate : ℤ
  pub is_active : Bool
  pub effective_from : ℕ
  pub created_at : ℕ

-- `orderBy: [{ effective_from: 'desc' }, { created_at: 'desc' }]`
abbrev is_earlier : MonthlyTax → MonthlyTax → Bool
is_earlier a b =
    ltb a.effective_from b.effective_from
    || ((a.effective_from == b.effective_from) && ltb a.created_at b.created_at)

insert_latest_first : MonthlyTax → List MonthlyTax → List MonthlyTax
insert_latest_first t [] = t ∷ []
insert_latest_first t (u ∷ us) =
    let rest = insert_latest_first t us in if is_earlier t u then u ∷ rest else t ∷ u ∷ us

latest_first : List MonthlyTax → List MonthlyTax
unfolding insert_latest_first
latest_first [] = []
latest_first (t ∷ ts) = insert_latest_first t (latest_first ts)

-- The taxes in force; `is_due` compares the day of a row with the date in question.
unfoldable pub taxes_at : (is_due : ℕ → Bool) → List MonthlyTax → List MonthlyTax
unfolding latest_first
taxes_at is_due taxes = latest_first (keep (λ t. t.is_active && is_due t.effective_from) taxes)

-- `PIT_DISPLAY_NAME`, "Personal Income Tax (PIT)", and `DEFAULT_PIT_RATE`
abbrev pub pit_display_name : Text
pit_display_name =
    80 ∷ 101 ∷ 114 ∷ 115 ∷ 111 ∷ 110 ∷ 97 ∷ 108 ∷ 32 ∷ 73 ∷ 110 ∷ 99 ∷ 111 ∷ 109 ∷ 101 ∷ 32 ∷ 84
    ∷ 97 ∷ 120 ∷ 32 ∷ 40 ∷ 80 ∷ 73 ∷ 84 ∷ 41 ∷ []

abbrev pub default_pit_rate : ℤ
default_pit_rate = pos 1500

-- A tax that applies: its name and its rate.
pub record Tax : Type 0 where
  pub name : Text
  pub rate : ℤ

-- `findMonthlyTaxesAtDate`
unfoldable pub find_monthly_taxes_at_date : (is_due : ℕ → Bool) → List MonthlyTax → List Tax
unfolding taxes_at is_pit_tax_name
find_monthly_taxes_at_date is_due taxes =
    elim (find_where (λ (t : MonthlyTax). is_pit_tax_name t.name) (taxes_at is_due taxes)) [
      | none ↦ record { name = pit_display_name; rate = default_pit_rate } ∷ []
      | some t ↦ record { name = pit_display_name; rate = t.rate } ∷ []
    ]

-- The loop of `findEmployeeAssignedMonthlyTaxesAtDate`: of the rows with one name the first counts.
assigned_from : List Tax → List MonthlyTax → List Tax
unfolding trim is_pit_tax_name
assigned_from unique [] = unique
assigned_from unique (t ∷ ts) =
    assigned_from
      (if is_pit_tax_name t.name || any (λ (u : Tax). same_text u.name (trim t.name)) unique
        then unique
        else unique ++ record { name = trim t.name; rate = t.rate } ∷ [])
      ts

unfoldable pub find_employee_assigned_taxes : (is_due : ℕ → Bool) → List MonthlyTax → List Tax
unfolding taxes_at assigned_from
find_employee_assigned_taxes is_due taxes = assigned_from [] (taxes_at is_due taxes)

-- `getOvertimeBonusPerDay`: the configured value, if there is one, or the default.
unfoldable pub get_overtime_bonus_per_day : {W : Type 0} → Number W → Option W → W
get_overtime_bonus_per_day N none = N.of_nat default_overtime_bonus_per_day
get_overtime_bonus_per_day N (some parsed) =
    if N.is_finite parsed && N.is_nonnegative parsed
    then parsed
    else N.of_nat default_overtime_bonus_per_day
