-- ===== src/Attendance/Pending.antt =====
-- The reports of backend/src/time-records/time-records.service.ts: `findPending`, the days for which
-- employees have no record, and `findAll`.
use reg_pay.Prelude.{
  ℕ, true, zero, suc, ◌-◌, ◌+◌, Bool, not, ◌&&◌, List, [], ◌∷◌, ◌++◌, map, Option, none, some, ◌==◌,
  leb, ltb, any, keep, length, if◌then◌else◌,
}
use reg_pay.Permissions.{CurrentUser, has_effective_permission}
use reg_pay.Users.{is_id}
use reg_pay.Savings.Rows.{Employee, is_active}
use reg_pay.Attendance.Rows.{
  Attendance, DateText, EmployeeWhere, TimeRecord, day_of, employee_scope_where, in_where,
  is_system_admin, matches,
}

-- `enumerateDateKeys`: the loop, on fuel, which gives `none` where the fuel is used up.
unfoldable pub enumerate_from : (fuel cursor last : ℕ) → Option (List ℕ)
enumerate_from zero cursor last = if leb cursor last then none else some []
enumerate_from (suc fuel) cursor last =
    let rest = enumerate_from fuel (suc cursor) last in
    if leb cursor last then elim rest [ none ↦ none | some ds ↦ some (cursor ∷ ds) ] else some []

unfoldable pub enumerate_date_keys : (start last : ℕ) → Option (List ℕ)
unfolding enumerate_from
enumerate_date_keys start last = enumerate_from (suc last - start) start last

pub data PendingRefusal : Type 0 where
  invalid_range reversed_range not_your_location out_of_fuel : PendingRefusal

pub record PendingEmployee : Type 0 where
  pub employee_id : ℕ
  pub missing_dates : List ℕ

pub record PendingResponse : Type 0 where
  pub start_date : ℕ
  pub end_date : ℕ
  pub total_pending_employees : ℕ
  pub total_missing_entries : ℕ
  pub pending : List PendingEmployee

pub data PendingOutcome : Type 0 where
  refused : PendingRefusal → PendingOutcome
  listed : PendingResponse → PendingOutcome

-- The filters of a request: the two dates, what `resolveWorkingLocationId` makes of the location, if
-- one is asked for, and the test of the category on the joined row, if one is.
pub record PendingFilters : Type 0 where
  pub start_date : DateText
  pub end_date : DateText
  pub working_location_id : Option (Option ℕ)
  pub in_category : Employee → Bool

-- Midnight of a given date, or of the default where none is given; `none` is NaN.
abbrev pub date_or : ℕ → DateText → Option ℕ
date_or default DateText.missing = some default
date_or default DateText.invalid = none
date_or default (DateText.moment ms) = some (day_of ms)

pub data Period : Type 0 where
  no_period : PendingRefusal → Period
  period : (start last : ℕ) → Period

-- `resolvePendingPeriod`, on the day and on the first day of its month.
unfoldable pub resolve_pending_period : (today month_start : ℕ) → PendingFilters → Period
resolve_pending_period today month_start filters = elim (date_or month_start filters.start_date) [
  | none ↦ no_period invalid_range
  | some start ↦ elim (date_or today filters.end_date) [
    | none ↦ no_period invalid_range
    | some last ↦ if ltb last start then no_period reversed_range else period start last
  ]
]

abbrev pub empty_pending_response : (start last : ℕ) → PendingResponse
empty_pending_response start last = record {
  start_date = start;
  end_date = last;
  total_pending_employees = 0;
  total_missing_entries = 0;
  pending = [];
}

-- The `Map` of the days recorded, where an employee without an entry has the empty set, and the
-- loop that fills it.
unfoldable pub recorded_dates : List TimeRecord → (ℕ → List ℕ) → ℕ → List ℕ
recorded_dates [] dates = dates
recorded_dates (r ∷ rs) dates =
    recorded_dates rs
      (λ id. if r.employee_id == id then dates id ++ r.attendance_date ∷ [] else dates id)

-- The records that `findPending` fetches.
abbrev pub fetched_records : (start last : ℕ) → List Employee → List TimeRecord → List TimeRecord
fetched_records start last es = keep (λ r.
    any (λ (e : Employee). e.id == r.employee_id) es
    && (leb start r.attendance_date && leb r.attendance_date last))

abbrev pub occurs : ℕ → List ℕ → Bool
occurs d = any (λ c. c == d)

abbrev pub pending_employee : List ℕ → (ℕ → List ℕ) → Employee → PendingEmployee
pending_employee days dates e = record {
  employee_id = e.id;
  missing_dates = keep (λ d. not (occurs d (dates e.id))) days;
}

abbrev pub is_pending : PendingEmployee → Bool
is_pending p = ltb 0 (length p.missing_dates)

abbrev pub total_missing : List PendingEmployee → ℕ
total_missing [] = 0
total_missing (p ∷ ps) = length p.missing_dates + total_missing ps

-- `findPending` on the employees that it fetched; its early return is that of the empty list.
unfoldable pub list_pending :
    (start last : ℕ) → List ℕ → List Employee → List TimeRecord → PendingResponse
unfolding recorded_dates
list_pending start last days es records =
    let dates = recorded_dates (fetched_records start last es records) (λ id. []) in
    let pending = keep is_pending (map (pending_employee days dates) es) in
    record {
      start_date = start;
      end_date = last;
      total_pending_employees = length pending;
      total_missing_entries = total_missing pending;
      pending = pending;
    }

abbrev pub pending_where : CurrentUser → Option ℕ → EmployeeWhere
pending_where actor none = employee_scope_where actor
pending_where actor (some id) = record (employee_scope_where actor) {
  working_location_id = some id;
}

abbrev pub pending_employees :
    CurrentUser → Option ℕ → PendingFilters → List Employee → List Employee
pending_employees actor location filters = keep (λ e.
    is_active e.status && (in_where (pending_where actor location) e && filters.in_category e))

-- `findPending` from the location on.
unfoldable pub pending_in :
    CurrentUser → PendingFilters → (start last : ℕ) → List ℕ → Attendance → PendingOutcome
unfolding list_pending employee_scope_where
pending_in actor filters start last days s = elim filters.working_location_id [
  | none ↦
      listed
        (list_pending start last days (pending_employees actor none filters s.employees) s.records)
  | some none ↦ listed (empty_pending_response start last)
  | some (some id) ↦
      if not (is_system_admin actor)
        && (not (has_effective_permission actor "attendance.read_all")
            && not (is_id actor.working_location_id id))
      then refused not_your_location
      else listed (
          list_pending start last days (pending_employees actor (some id) filters s.employees)
            s.records)
]

-- `findPending`
unfoldable pub find_pending :
    (today month_start : ℕ) → CurrentUser → PendingFilters → Attendance → PendingOutcome
unfolding resolve_pending_period enumerate_date_keys pending_in
find_pending today month_start actor filters s =
    elim (resolve_pending_period today month_start filters) [
      | no_period refusal ↦ refused refusal
      | period start last ↦ elim (enumerate_date_keys start last) [
        | none ↦ refused out_of_fuel
        | some days ↦ pending_in actor filters start last days s
      ]
    ]

-- The filters of `findAll`: the moments of its dates, and what `resolveWorkingLocationId` and
-- `toBigInt` make of the location and the employee that are asked for.
pub record FindAllFilters : Type 0 where
  pub start_date : Option ℕ
  pub end_date : Option ℕ
  pub working_location_id : Option (Option ℕ)
  pub employee_id : Option ℕ

abbrev from_day : Option ℕ → ℕ → Bool
from_day none day = true
from_day (some ms) day = leb (day_of ms) day

abbrev to_day : Option ℕ → ℕ → Bool
to_day none day = true
to_day (some ms) day = leb day (day_of ms)

-- The records that a query selects.
abbrev pub records_where : EmployeeWhere → FindAllFilters → Attendance → List TimeRecord
records_where w filters s =
    keep
      (λ r.
        any (λ (e : Employee). (e.id == r.employee_id) && in_where w e) s.employees
        && (from_day filters.start_date r.attendance_date
            && (to_day filters.end_date r.attendance_date
                && matches filters.employee_id (some r.employee_id))))
      s.records

-- `findAll`, without regard to the order: the location that is asked for, if one is, takes the place
-- of that of the caller.
unfoldable pub find_all : CurrentUser → FindAllFilters → Attendance → List TimeRecord
unfolding employee_scope_where
find_all actor filters s = elim filters.working_location_id [
  | none ↦ records_where (pending_where actor none) filters s
  | some none ↦ []
  | some (some id) ↦ records_where (pending_where actor (some id)) filters s
]
