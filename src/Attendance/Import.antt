-- ===== src/Attendance/Import.antt =====
-- `bulkCreate` of backend/src/time-records/time-records.service.ts: the checks of every row, and
-- the rows written if no row is refused.
use reg_pay.Prelude.{
  ℕ, suc, Bool, true, false, not, ◌&&◌, ◌||◌, List, [], ◌∷◌, ◌++◌, map, Option, none, some, String,
  str_eq, ◌==◌, ltb, leb, any, keep, if◌then◌else◌,
}
use reg_pay.Prelude.Int.{ℤ, pos, negsuc}
use reg_pay.Permissions.{CurrentUser}
use reg_pay.Payroll.Schema.{WorkingLocation, update_where, find_where}
use reg_pay.Savings.Rows.{Employee}
use reg_pay.Savings.Handlers.{find_last}
use reg_pay.Attendance.Rows.{
  Attendance, AttendanceStatus, BulkImportDto, BulkImportItem, DateText, Department, EmployeeIdText,
  Fault, HoursValue, Outcome, Refusal, RowError, StatusText, TimeRecord, absent, day_of, digits,
  done, empty, ensure_actor_can_access_employee, has_slot, matches, moment, hours, no_hours,
  not_hours, present, not_digits, other, refused, time_of, valid,
}
use reg_pay.Attendance.Handlers.{broadcast, new_record}

-- The least and the greatest moment of the rows: `none` where no row has a date.
earliest : List BulkImportItem → Option ℕ
earliest [] = none
earliest (r ∷ rs) = elim (earliest rs) [
  | none ↦ time_of r.attendance_date
  | some b ↦ elim (time_of r.attendance_date) [
    | none ↦ some b
    | some a ↦ some (if ltb a b then a else b)
  ]
]

latest : List BulkImportItem → Option ℕ
latest [] = none
latest (r ∷ rs) = elim (latest rs) [
  | none ↦ time_of r.attendance_date
  | some b ↦ elim (time_of r.attendance_date) [
    | none ↦ some b
    | some a ↦ some (if ltb b a then a else b)
  ]
]

-- `a.getTime() < b.getTime()`, false where one is NaN.
abbrev pub is_before : Option ℕ → Option ℕ → Bool
is_before (some a) (some b) = ltb a b
is_before _ _ = false

abbrev is_given : DateText → Bool
is_given DateText.missing = false
is_given _ = true

-- The bounds that an import is held to, from the request or from its rows.
unfoldable pub date_range : BulkImportDto → Option (Option ℕ × Option ℕ)
unfolding earliest latest
date_range dto =
    if is_given dto.date_from && is_given dto.date_to
    then some (time_of dto.date_from, time_of dto.date_to)
    else elim (earliest dto.records) [
      | none ↦ none
      | some first ↦ some (some first, latest dto.records)
    ]

-- A name that is given is looked up; `none` where nothing has it.
unfoldable pub scope_location : Option String → List WorkingLocation → Option (Option ℕ)
scope_location none ls = some none
scope_location (some name) ls =
    elim (find_where (λ (l : WorkingLocation). str_eq l.name name && not l.is_deleted) ls) [
      | none ↦ none
      | some l ↦ some (some l.id)
    ]

unfoldable pub scope_department : Option String → List Department → Option (Option ℕ)
scope_department none ds = some none
scope_department (some name) ds = elim (find_where (λ (d : Department). str_eq d.name name) ds) [
  | none ↦ none
  | some d ↦ some (some d.id)
]

-- What the loop over the rows reads: the caller, the employees that were fetched, the location and
-- the department asked for, and the range.
pub record Checks : Type 0 where
  pub actor : CurrentUser
  pub employee_map : List Employee
  pub location : Option ℕ
  pub department : Option ℕ
  pub date_from : Option ℕ
  pub date_to : Option ℕ

abbrev is_numbered : ℕ → BulkImportItem → Bool
is_numbered id r = elim r.employee_id [ digits padded n ↦ n == id | _ ↦ false ]

-- `employees.findMany` of the ids of the rows
abbrev pub fetched : List BulkImportItem → List Employee → List Employee
fetched records = keep (λ e. any (is_numbered e.id) records && not e.is_deleted)

-- `employeeMap.get(text)`: the keys are ids without leading zeros.
unfoldable pub get_employee : EmployeeIdText → List Employee → Option Employee
get_employee (digits false id) es = find_last (λ e. e.id == id) es
get_employee _ es = none

abbrev pub fault_if : Bool → Fault → List Fault
fault_if true f = f ∷ []
fault_if false f = []

abbrev pub access_faults : CurrentUser → Employee → List Fault
access_faults actor e =
    elim (ensure_actor_can_access_employee actor e.working_location_id e.department_id) [
      | none ↦ []
      | some f ↦ f ∷ []
    ]

unfoldable pub status_faults : StatusText → List Fault
status_faults StatusText.missing = Fault.status_required ∷ []
status_faults other = Fault.status_not_exact ∷ []
status_faults (valid status) = []

-- `(overtime_hours ?? 0) > 0`
abbrev pub exceeds_zero : HoursValue → Bool
exceeds_zero no_hours = false
exceeds_zero (hours above h) = above
exceeds_zero (not_hours above) = above

abbrev pub is_absent : StatusText → Bool
is_absent (valid absent) = true
is_absent _ = false

unfoldable pub date_faults : Checks → DateText → List Fault
date_faults c DateText.missing = Fault.date_required ∷ []
date_faults c DateText.invalid = Fault.date_invalid ∷ []
date_faults c (moment ms) =
    fault_if (is_before (some ms) c.date_from || is_before c.date_to (some ms))
      Fault.date_out_of_range

-- The checks of a row whose employee is known.
unfoldable pub employee_faults : Checks → BulkImportItem → Employee → List Fault
unfolding status_faults date_faults
employee_faults c r e =
    if not (matches c.location e.working_location_id)
    then Fault.outside_location ∷ []
    else if not (matches c.department e.department_id)
    then Fault.outside_department ∷ []
    else access_faults c.actor e
      ++ (status_faults r.attendance_status
          ++ (fault_if (is_absent r.attendance_status && exceeds_zero r.overtime_hours)
                Fault.overtime_of_absent
              ++ date_faults c r.attendance_date))

-- A turn of the loop over the rows.
unfoldable pub row_faults : Checks → BulkImportItem → List Fault
unfolding get_employee employee_faults
row_faults c r = elim r.employee_id [
  | empty ↦ Fault.employee_id_required ∷ []
  | not_digits ↦ Fault.employee_id_not_numeric ∷ []
  | digits padded id ↦ elim (get_employee r.employee_id c.employee_map) [
    | none ↦ Fault.employee_missing ∷ []
    | some e ↦ employee_faults c r e
  ]
]

-- The loop, from a given row on.
unfoldable pub check_rows : Checks → ℕ → List BulkImportItem → List RowError
unfolding row_faults
check_rows c row [] = []
check_rows c row (r ∷ rs) =
    map (λ f. record { row = row; fault = f }) (row_faults c r) ++ check_rows c (suc row) rs

-- What the transaction reads of a row.
pub record Entry : Type 0 where
  pub employee_id : ℕ
  pub day : ℕ
  pub status : AttendanceStatus
  pub overtime_hours : ℤ
  pub working_location_id : Option ℕ
  pub department_id : Option ℕ

-- `emp?.working_location_id ?? null`
abbrev place : Option Employee → Option ℕ × Option ℕ
place none = (none, none)
place (some e) = (e.working_location_id, e.department_id)

-- `normalizeHours`, of a value that no decorator checked
abbrev pub normalize_value : AttendanceStatus → HoursValue → HoursValue
normalize_value absent value = hours false (pos 0)
normalize_value present no_hours = hours false (pos 0)
normalize_value present value = value

-- What fits into `Decimal(5, 2)`, in hundredths
abbrev pub fits : ℤ → Bool
fits (pos n) = leb n 99999
fits (negsuc n) = leb n 99998

-- What the columns take: a value that is no number or too large makes the upsert throw, and so does
-- a day after the year 9999.
abbrev pub column_hours : HoursValue → Option ℤ
column_hours (hours above h) = if fits h then some h else none
column_hours _ = none

abbrev pub column_day : (ms : ℕ) → Option ℕ
column_day ms = if leb (day_of ms) 2932896 then some (day_of ms) else none

abbrev pub fill : Option Employee → ℕ → AttendanceStatus → Option ℕ → Option ℤ → Option Entry
fill emp id status (some day) (some overtime) =
    let (location, department) = place emp in
    some (record {
      employee_id = id;
      day = day;
      status = status;
      overtime_hours = overtime;
      working_location_id = location;
      department_id = department;
    })
fill emp id status _ _ = none

-- The values of a row; `none` where the source would throw, or the database refuse them.
unfoldable pub make_entry :
    Option Employee → EmployeeIdText → StatusText → DateText → HoursValue → Option Entry
make_entry emp (digits padded id) (valid status) (moment ms) overtime =
    fill emp id status (column_day ms) (column_hours (normalize_value status overtime))
make_entry emp _ _ _ overtime = none

abbrev pub entry_of : List Employee → BulkImportItem → Option Entry
entry_of es r =
    make_entry (get_employee r.employee_id es) r.employee_id r.attendance_status r.attendance_date
      r.overtime_hours

-- What an upsert writes to a record that is there.
abbrev pub overwrite : Entry → TimeRecord → TimeRecord
overwrite e r = record r { attendance_status = e.status; overtime_hours = e.overtime_hours }

-- `time_records.upsert`
unfoldable pub upsert : (uuid : ℕ → ℕ) → Entry → Attendance → Attendance
upsert uuid e s = elim (find_where (has_slot e.employee_id e.day) s.records) [
  | some existing ↦ record s {
    records = update_where (has_slot e.employee_id e.day) (overwrite e) s.records;
  }
  | none ↦ record s {
    records =
        s.records
        ++ new_record s.next_record_id (uuid s.next_record_id) e.employee_id e.day e.status
            e.overtime_hours e.working_location_id e.department_id
          ∷ [];
    next_record_id = suc s.next_record_id;
  }
]

-- The transaction of an import: one upsert for each row, or none.
unfoldable pub write_rows :
    (uuid : ℕ → ℕ) → List Employee → List BulkImportItem → Attendance → Option Attendance
unfolding get_employee make_entry upsert
write_rows uuid es [] s = some s
write_rows uuid es (r ∷ rs) s = elim (entry_of es r) [
  | none ↦ none
  | some e ↦ write_rows uuid es rs (upsert uuid e s)
]

-- `bulkCreate` from the loop over the rows on.
unfoldable pub import_rows : (uuid : ℕ → ℕ) → Checks → List BulkImportItem → Attendance → Outcome
unfolding check_rows write_rows
import_rows uuid c records s = elim (check_rows c 1 records) [
  | e ∷ es ↦ refused (Refusal.rejected_rows (e ∷ es))
  | [] ↦ elim (write_rows uuid c.employee_map records s) [
    | none ↦ refused Refusal.malformed_row
    | some s' ↦ done (record s' { broadcasts = broadcast s'.broadcasts })
  ]
]

abbrev pub checks :
    CurrentUser
    → BulkImportDto
    → Option ℕ × Option ℕ
    → (location department : Option ℕ) → Attendance
    → Checks
checks actor dto range location department s = record {
  actor = actor;
  employee_map = fetched dto.records s.employees;
  location = location;
  department = department;
  date_from = range.0;
  date_to = range.1;
}

-- `bulkCreate` from the lookups of the names on.
unfoldable pub import_in_range :
    (uuid : ℕ → ℕ) → CurrentUser → BulkImportDto → Option ℕ × Option ℕ → Attendance → Outcome
unfolding scope_location scope_department import_rows
import_in_range uuid actor dto range s =
    if is_before range.1 range.0
    then refused Refusal.reversed_range
    else elim (scope_location dto.working_location s.working_locations) [
      | none ↦ refused Refusal.location_not_found
      | some location ↦ elim (scope_department dto.department s.departments) [
        | none ↦ refused Refusal.department_not_found
        | some department ↦
            import_rows uuid (checks actor dto range location department s) dto.records s
      ]
    ]

-- `bulkCreate`
unfoldable pub bulk_create : (uuid : ℕ → ℕ) → CurrentUser → BulkImportDto → Attendance → Outcome
unfolding date_range import_in_range
bulk_create uuid actor dto s = elim dto.records [
  | [] ↦ refused Refusal.no_records
  | r ∷ rs ↦ elim (date_range dto) [
    | none ↦ refused Refusal.no_valid_dates
    | some range ↦ import_in_range uuid actor dto range s
  ]
]
