-- ===== src/Attendance/Rows.antt =====
-- The rows of the attendance service, the requests it reads, and who may manage whose attendance
-- (backend/src/time-records/time-records.service.ts and its dto, backend/prisma/schema.prisma).
use reg_pay.Prelude.{
  ℕ, Bool, true, not, ◌&&◌, ◌||◌, List, [], ◌∷◌, ◌++◌, Option, none, some, String, ◌==◌, ◌/◌, any,
  if◌then◌else◌,
}
use reg_pay.Prelude.Int.{ℤ, pos}
use reg_pay.Keys.{includes}
use reg_pay.Permissions.{CurrentUser, has_effective_permission}
use reg_pay.Users.{is_id}
use reg_pay.Payroll.Schema.{AuditVerb, AuditLog, WorkingLocation}
use reg_pay.Savings.Rows.{Employee, or_default}

-- `time_records_attendance_status`
pub data AttendanceStatus : Type 0 where
  present absent : AttendanceStatus

-- A row of `time_records`. The date is the number of a day, as the column keeps no time, and the
-- overtime a number of hundredths of an hour.
pub record TimeRecord : Type 0 where
  pub id : ℕ
  pub uuid : ℕ
  pub employee_id : ℕ
  pub attendance_date : ℕ
  pub overtime_hours : ℤ
  pub attendance_status : AttendanceStatus
  pub approved_by : Option ℕ
  pub working_location_id : Option ℕ
  pub department_id : Option ℕ

pub record Department : Type 0 where
  pub id : ℕ
  pub name : String

-- The tables, and the calls of `broadcast` in order.
pub record Attendance : Type 0 where
  pub employees : List Employee
  pub records : List TimeRecord
  pub working_locations : List WorkingLocation
  pub departments : List Department
  pub next_record_id : ℕ
  pub audit_logs : List AuditLog
  pub broadcasts : List String

-- What `new Date(text)` reads: no text, a text that is no date, or a moment from 1970 on, in
-- milliseconds.
pub data DateText : Type 0 where
  missing invalid : DateText
  moment : ℕ → DateText

-- `getTime()`, where `none` is NaN.
abbrev pub time_of : DateText → Option ℕ
time_of (moment ms) = some ms
time_of _ = none

-- The day that a date column keeps of a moment.
abbrev pub day_of : ℕ → ℕ
day_of ms = ms / 86400000

-- The text of an employee id: empty, not a row of digits, or a number, padded with zeros or not.
pub data EmployeeIdText : Type 0 where
  empty not_digits : EmployeeIdText
  digits : (padded : Bool) → ℕ → EmployeeIdText

-- The status of an imported row, which no decorator checks.
pub data StatusText : Type 0 where
  missing other : StatusText
  valid : AttendanceStatus → StatusText

-- The overtime of an imported row, which no decorator checks: nothing or null; a number or the text
-- of one, with whether it is above zero and the hundredths of an hour that a column of two places
-- rounds it to; or any other value, with what `> 0` says of it.
pub data HoursValue : Type 0 where
  no_hours : HoursValue
  hours : (exceeds_zero : Bool) → ℤ → HoursValue
  not_hours : (exceeds_zero : Bool) → HoursValue

pub record CreateTimeRecordDto : Type 0 where
  pub employee_id : EmployeeIdText
  pub attendance_date : ℕ
  pub overtime_hours : Option ℤ
  pub attendance_status : Option AttendanceStatus

pub record UpdateTimeRecordDto : Type 0 where
  pub overtime_hours : Option ℤ
  pub attendance_status : Option AttendanceStatus

-- A row of an import, as it comes: an id that is a number and no text counts as a padded one, which
-- the map of the employees has no entry for.
pub record BulkImportItem : Type 0 where
  pub employee_id : EmployeeIdText
  pub attendance_date : DateText
  pub overtime_hours : HoursValue
  pub attendance_status : StatusText

-- A name is asked for where it is given and not empty.
pub record BulkImportDto : Type 0 where
  pub working_location : Option String
  pub department : Option String
  pub date_from : DateText
  pub date_to : DateText
  pub records : List BulkImportItem

-- What an import says of a row.
pub data Fault : Type 0 where
  employee_id_required employee_id_not_numeric employee_missing : Fault
  outside_location outside_department : Fault
  not_your_location not_your_department : Fault
  status_required status_not_exact overtime_of_absent : Fault
  date_required date_invalid date_out_of_range : Fault

pub record RowError : Type 0 where
  pub row : ℕ
  pub fault : Fault

pub data Refusal : Type 0 where
  invalid_employee_id employee_does_not_exist already_exists record_not_found : Refusal
  not_manager : Fault → Refusal
  no_records no_valid_dates reversed_range : Refusal
  location_not_found department_not_found : Refusal
  rejected_rows : List RowError → Refusal
  malformed_row : Refusal

pub data Outcome : Type 0 where
  done : Attendance → Outcome
  refused : Refusal → Outcome

-- `normalizeHours`
unfoldable pub normalize_hours : AttendanceStatus → Option ℤ → ℤ
normalize_hours absent overtime = pos 0
normalize_hours present overtime = or_default overtime (pos 0)

abbrev pub is_system_admin : CurrentUser → Bool
is_system_admin actor = includes actor.roles "SUPER_ADMIN"

-- Branch managers and HR are held to their working location only.
abbrev pub is_exempt : CurrentUser → Bool
is_exempt actor = any (λ role. includes ("BRANCH_MANAGER" ∷ "HR" ∷ []) role) actor.roles

-- An id that is asked for, where one is, is the id given.
abbrev pub matches : (asked given : Option ℕ) → Bool
matches none given = true
matches (some id) given = is_id given id

-- `ensureActorCanAccessEmployee`: what it throws, if it throws.
unfoldable pub ensure_actor_can_access_employee :
    CurrentUser → (working_location_id department_id : Option ℕ) → Option Fault
ensure_actor_can_access_employee actor location department =
    if is_system_admin actor
    then none
    else if not (matches actor.working_location_id location)
    then some not_your_location
    else if not (is_exempt actor) && not (matches actor.department_id department)
    then some not_your_department
    else none

-- `ensureActorCanReadEmployee`
unfoldable pub ensure_actor_can_read_employee :
    CurrentUser → (working_location_id department_id : Option ℕ) → Option Fault
unfolding ensure_actor_can_access_employee
ensure_actor_can_read_employee actor location department =
    if is_system_admin actor
    then none
    else if has_effective_permission actor "attendance.read_all"
    then none
    else ensure_actor_can_access_employee actor location department

-- `where` of the employees that a query is held to.
pub record EmployeeWhere : Type 0 where
  pub working_location_id : Option ℕ
  pub department_id : Option ℕ

-- `employeeScopeWhere`
unfoldable pub employee_scope_where : CurrentUser → EmployeeWhere
employee_scope_where actor =
    if is_system_admin actor || has_effective_permission actor "attendance.read_all"
    then record { working_location_id = none; department_id = none }
    else record {
      working_location_id = actor.working_location_id;
      department_id = if is_exempt actor then none else actor.department_id;
    }

abbrev pub in_where : EmployeeWhere → Employee → Bool
in_where w e =
    not e.is_deleted
    && (matches w.working_location_id e.working_location_id
        && matches w.department_id e.department_id)

-- The unique key of a record.
abbrev pub has_slot : (employee day : ℕ) → TimeRecord → Bool
has_slot employee day r = (r.employee_id == employee) && (r.attendance_date == day)

-- `tx.audit_logs.create`
abbrev pub logged : (actor id : ℕ) → AuditVerb → List AuditLog → List AuditLog
logged actor id verb logs =
    logs
    ++ record { user_id = actor; entity_table = "time_records"; entity_id = id; action = verb } ∷ []
