-- ===== src/Attendance/Tests.antt =====
-- A sample of attendance, and the theorems about the service at calls on it.
use reg_pay.Prelude.{
  ℕ, ◌+◌, ◌*◌, ◌≤◌, ◌≡◌, refl, true, false, List, [], ◌∷◌, none, some, arith, map, keep, All,
}
use reg_pay.Prelude.Int.{ℤ, pos, negsuc}
use reg_pay.Permissions.{
  CurrentUser, apply_overrides, compute_effective_permissions, expand, has_effective_permission,
  implied_by,
}
use reg_pay.Keys.{add, add_all}
use reg_pay.Savings.Rows.{Employee, EmployeeStatus, Frequency}
use reg_pay.Savings.Handlers.{find_last}
use reg_pay.Attendance.Rows.{
  employee_scope_where, Attendance, AttendanceStatus, BulkImportDto, BulkImportItem, DateText,
  HoursValue, hours, no_hours, not_hours, Outcome, Refusal, StatusText, TimeRecord, absent, digits,
  done, ensure_actor_can_access_employee, normalize_hours, present, refused,
}
use reg_pay.Attendance.Handlers.{
  add_record, approve, approve_record, create, create_for, save_record, update, with_record,
}
use reg_pay.Attendance.Import.{
  bulk_create, check_rows, date_faults, date_range, employee_faults, get_employee, import_in_range,
  import_rows, make_entry, row_faults, scope_department, scope_location, status_faults, upsert,
  write_rows,
}
use reg_pay.Attendance.Calls.{Call, call, creates, imports, updates}
use reg_pay.Attendance.Slots.{IsOneADay, call-IsOneADay}
use reg_pay.Attendance.Absence.{IsIdle, IsNumbered, call-IsIdle}
use reg_pay.Attendance.Book.{book, bulk_create-book, entries, last_entry}
use reg_pay.Attendance.Reach.{IsOutOfReach, call-records, records_of}
use reg_pay.Attendance.Pending.{
  FindAllFilters, enumerate_date_keys, enumerate_from, find_all, find_pending, PendingFilters,
  is_pending, list_pending, PendingOutcome, PendingResponse, empty_pending_response, listed,
  pending_in, recorded_dates, resolve_pending_period,
}
use reg_pay.Attendance.Readers.{AreShown, find_pending-AreShown}
use reg_pay.Attendance.Missing.{
  absences, days_from, enumerate_date_keys-days, find_all-elsewhere, list_pending-absences,
}

abbrev worker : ℕ → ℕ → Employee
worker id location = record {
  id = id;
  status = EmployeeStatus.active;
  is_deleted = false;
  payment_structures = [];
  category_frequency = some Frequency.daily;
  working_location_id = some location;
  department_id = some 5;
}

-- The manager of location 10.
abbrev manager : CurrentUser
manager = record {
  user_id = 1;
  roles = "BRANCH_MANAGER" ∷ [];
  permissions = "attendance.read" ∷ [];
  working_location_id = some 10;
  department_id = none;
  permission_overrides = [];
}

abbrev entry : ℕ → ℕ → ℕ → AttendanceStatus → ℤ → TimeRecord
entry id employee day status overtime = record {
  id = id;
  uuid = 70 + id;
  employee_id = employee;
  attendance_date = day;
  overtime_hours = overtime;
  attendance_status = status;
  approved_by = none;
  working_location_id = some 10;
  department_id = some 5;
}

abbrev sample : Attendance
sample = record {
  employees = worker 1 10 ∷ worker 2 10 ∷ worker 3 20 ∷ [];
  records = entry 1 1 100 present (pos 150) ∷ entry 2 3 100 absent (pos 0) ∷ [];
  working_locations = [];
  departments = [];
  next_record_id = 3;
  audit_logs = [];
  broadcasts = [];
}

abbrev ms : ℕ → ℕ
ms day = day * 86400000

abbrev item : ℕ → ℕ → AttendanceStatus → HoursValue → BulkImportItem
item employee day status overtime = record {
  employee_id = digits false employee;
  attendance_date = DateText.moment (ms day);
  overtime_hours = overtime;
  attendance_status = StatusText.valid status;
}

abbrev request : List BulkImportItem → BulkImportDto
request rows = record {
  working_location = none;
  department = none;
  date_from = DateText.missing;
  date_to = DateText.missing;
  records = rows;
}

-- The first employee was absent on day 100 after all; the second has two rows of day 101.
abbrev sheet : BulkImportDto
sheet = request (
    item 1 100 absent no_hours
    ∷ item 2 101 present (hours true (pos 200))
    ∷ item 2 101 present (hours true (pos 50))
    ∷ [])

-- Opens the service for the evaluations below.
service : Unit {0}
unfolding call create create_for add_record update approve with_record save_record approve_record
    bulk_create import_in_range import_rows check_rows row_faults employee_faults status_faults
    date_faults get_employee scope_location scope_department date_range write_rows make_entry upsert
    normalize_hours ensure_actor_can_access_employee find_last find_pending resolve_pending_period
    enumerate_date_keys enumerate_from pending_in list_pending recorded_dates employee_scope_where
service = tt

abbrev after_call : Outcome → Attendance → Attendance
after_call (done s) old = s
after_call (refused e) old = old

abbrev import_sheet : Call
import_sheet = imports (λ n. 70 + n) sheet

abbrev imported_sheet : Attendance
imported_sheet = after_call (call import_sheet manager sample) sample

imports_sheet : call import_sheet manager sample ≡ done imported_sheet
unfolding service
imports_sheet = refl

abbrev slots : List TimeRecord → List (ℕ × ℕ × AttendanceStatus × ℤ)
slots = map (λ r. (r.employee_id, r.attendance_date, r.attendance_status, r.overtime_hours))

imported_slots :
    slots imported_sheet.records
    ≡ (1, 100, absent, pos 0) ∷ (3, 100, absent, pos 0) ∷ (2, 101, present, pos 50) ∷ []
unfolding service
imported_slots = refl

-- The import takes an overtime below zero.
negative_overtime :
    slots
      (after_call
        (call
          (imports (λ n. n) (request (item 2 102 present (hours false (negsuc 99)) ∷ [])))
          manager
          sample)
        sample).records
    ≡ (1, 100, present, pos 150) ∷ (3, 100, absent, pos 0) ∷ (2, 102, present, negsuc 99) ∷ []
unfolding service
negative_overtime = refl

-- A row for an employee of location 20 refuses the whole import, and a second record of a day is
-- refused as well.
refusals :
    (after_call
        (call
          (imports
            (λ n. n)
            (request (item 3 101 present no_hours ∷ item 1 101 present no_hours ∷ [])))
          manager
          sample)
        sample
      ≡ sample)
    × (call
          (creates 80 (record {
            employee_id = digits false 1;
            attendance_date = ms 100;
            overtime_hours = none;
            attendance_status = none;
          }))
          manager
          sample
        ≡ refused Refusal.already_exists)
unfolding service
refusals = (refl, refl)

call-IsOneADay_example : IsOneADay imported_sheet.records
call-IsOneADay_example =
    call-IsOneADay import_sheet manager sample imported_sheet (ground arith) imports_sheet

-- The correction of a record to an absence takes its overtime.
abbrev correction : Call
correction =
    updates 71 (record { overtime_hours = some (pos 300); attendance_status = some absent })

abbrev corrected : Attendance
corrected = after_call (call correction manager sample) sample

corrects : call correction manager sample ≡ done corrected
unfolding service
corrects = refl

call-IsIdle_example : IsNumbered corrected × All IsIdle corrected.records
call-IsIdle_example =
    call-IsIdle correction manager sample corrected (ground arith) ((λ a. cc), ((λ a. refl), tt))
      corrects

-- The manager may not manage the employee of location 20.
out_of_reach : IsOutOfReach manager 3 sample
unfolding service
out_of_reach = ((λ e. cc), ((λ e. cc), ((λ _ a. cc), tt)))

imports_bulk : bulk_create (λ n. 70 + n) manager sheet sample ≡ done imported_sheet
unfolding service
imports_bulk = refl

call-records_example : records_of 3 imported_sheet ≡ records_of 3 sample
call-records_example =
    call-records import_sheet manager sample imported_sheet 3 (ground arith) out_of_reach
      imports_sheet

bulk_create-book_example :
    book imported_sheet 2 101 ≡ last_entry 2 101 (entries sheet.records) (book sample 2 101)
bulk_create-book_example =
    bulk_create-book (λ n. 70 + n) manager sheet sample imported_sheet 2 101 imports_bulk

-- A row of a day of presence with a text that is no number
abbrev garbled : BulkImportDto
garbled = request (item 2 101 present (not_hours false) ∷ [])

list_pending-absences_example :
    list_pending 99 101 (days_from 99 3) sample.employees sample.records ≡ (record {
      start_date = 99;
      end_date = 101;
      total_pending_employees = 3;
      total_missing_entries = 7;
      pending = keep is_pending (map (absences sample.records (days_from 99 3)) sample.employees);
    })
list_pending-absences_example =
    list_pending-absences 99 101 sample.employees sample.records (omega arith)

enumerate_date_keys-days_example :
    (enumerate_date_keys 99 101 ≡ some (days_from 99 3))
    × (3 ≤ 8 → enumerate_from 8 99 101 ≡ enumerate_date_keys 99 101)
enumerate_date_keys-days_example = enumerate_date_keys-days 8 99 101

-- All attendance from day 99 on that is missing.
abbrev filters : PendingFilters
filters = record {
  start_date = DateText.moment (ms 99);
  end_date = DateText.missing;
  working_location_id = none;
  in_category = λ e. true;
}

abbrev report_of : PendingOutcome → PendingResponse
report_of (listed report) = report
report_of (PendingOutcome.refused e) = empty_pending_response 0 0

abbrev report : PendingResponse
report = report_of (find_pending 101 90 manager filters sample)

lists : find_pending 101 90 manager filters sample ≡ listed report
unfolding service
lists = refl

-- The report of the manager of location 10 has both employees of the location.
lists_own : map (λ p. p.employee_id) report.pending ≡ 1 ∷ 2 ∷ []
unfolding service has_effective_permission compute_effective_permissions add_all add implied_by
lists_own = refl

find_pending-AreShown_example : AreShown manager sample.employees report.pending
find_pending-AreShown_example = find_pending-AreShown 101 90 manager filters sample report lists

-- The records of location 20
abbrev elsewhere : FindAllFilters
elsewhere = record {
  start_date = none;
  end_date = none;
  working_location_id = some (some 20);
  employee_id = none;
}

find_all-elsewhere_example :
    find_all (record manager { working_location_id = some 20 }) elsewhere sample
    ≡ find_all manager elsewhere sample
find_all-elsewhere_example = find_all-elsewhere manager (some 20) 20 elsewhere sample

-- The manager of location 10 reads the attendance of location 20.
reads_elsewhere : slots (find_all manager elsewhere sample) ≡ (3, 100, absent, pos 0) ∷ []
unfolding find_all employee_scope_where has_effective_permission compute_effective_permissions
    expand apply_overrides implied_by add_all add
reads_elsewhere = refl
