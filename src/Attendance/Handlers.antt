-- ===== src/Attendance/Handlers.antt =====
-- The operations of backend/src/time-records/time-records.service.ts that change the records.
use reg_pay.Prelude.{ℕ, suc, not, ◌&&◌, List, [], ◌∷◌, ◌++◌, Option, none, some, String, ◌==◌}
use reg_pay.Prelude.Int.{ℤ}
use reg_pay.Permissions.{CurrentUser}
use reg_pay.Payroll.Schema.{AuditVerb, update_where, find_where}
use reg_pay.Savings.Rows.{Employee, or_default}
use reg_pay.Attendance.Rows.{
  Attendance, AttendanceStatus, CreateTimeRecordDto, Outcome, Refusal, TimeRecord,
  UpdateTimeRecordDto, day_of, digits, done, empty, ensure_actor_can_access_employee, has_slot,
  logged, normalize_hours, not_digits, present, refused,
}

-- `broadcast` of both kinds after a change of records
abbrev pub broadcast : List String → List String
broadcast sent = sent ++ "attendance_updated" ∷ "employees_updated" ∷ []

-- A record that is created, with the place of the employee at that time.
abbrev pub new_record :
    (id uuid employee day : ℕ)
    → AttendanceStatus
    → ℤ
    → (location department : Option ℕ) → TimeRecord
new_record id uuid employee day status overtime location department = record {
  id = id;
  uuid = uuid;
  employee_id = employee;
  attendance_date = day;
  overtime_hours = overtime;
  attendance_status = status;
  approved_by = none;
  working_location_id = location;
  department_id = department;
}

-- The writes of `create`.
unfoldable pub add_record :
    (uuid : ℕ) → CurrentUser → Employee → CreateTimeRecordDto → Attendance → Attendance
unfolding normalize_hours
add_record uuid actor employee dto s =
    let status = or_default dto.attendance_status present in
    record s {
      records =
          s.records
          ++ new_record s.next_record_id uuid employee.id (day_of dto.attendance_date) status
              (normalize_hours status dto.overtime_hours) employee.working_location_id
              employee.department_id
            ∷ [];
      next_record_id = suc s.next_record_id;
      audit_logs = logged actor.user_id s.next_record_id AuditVerb.created s.audit_logs;
      broadcasts = broadcast s.broadcasts;
    }

-- `ensureEmployee`
abbrev pub ensure_employee : ℕ → Attendance → Option Employee
ensure_employee id s = find_where (λ (e : Employee). (e.id == id) && not e.is_deleted) s.employees

-- `create` once the employee is known.
unfoldable pub create_for :
    (uuid : ℕ) → CurrentUser → CreateTimeRecordDto → Employee → Attendance → Outcome
create_for uuid actor dto e s =
    elim (ensure_actor_can_access_employee actor e.working_location_id e.department_id) [
      | some fault ↦ refused (Refusal.not_manager fault)
      | none ↦ elim (find_where (has_slot e.id (day_of dto.attendance_date)) s.records) [
        | some existing ↦ refused Refusal.already_exists
        | none ↦ done (add_record uuid actor e dto s)
      ]
    ]

-- `create`
unfoldable pub create : (uuid : ℕ) → CurrentUser → CreateTimeRecordDto → Attendance → Outcome
create uuid actor dto s = elim dto.employee_id [
  | empty ↦ refused Refusal.invalid_employee_id
  | not_digits ↦ refused Refusal.invalid_employee_id
  | digits padded id ↦ elim (ensure_employee id s) [
    | none ↦ refused Refusal.employee_does_not_exist
    | some e ↦ create_for uuid actor dto e s
  ]
]

-- `findByUuidOrThrow`, with the employee of the record, whom a foreign key keeps.
abbrev pub find_by_uuid : ℕ → Attendance → Option (TimeRecord × Employee)
find_by_uuid uuid s = elim (find_where (λ (r : TimeRecord). r.uuid == uuid) s.records) [
  | none ↦ none
  | some r ↦ elim (find_where (λ (e : Employee). e.id == r.employee_id) s.employees) [
    | none ↦ none
    | some e ↦ some (r, e)
  ]
]

abbrev pub update_record : ℕ → (TimeRecord → TimeRecord) → List TimeRecord → List TimeRecord
update_record id f = update_where (λ r. r.id == id) f

-- What `update` writes to the record that it found.
abbrev pub updated_row : UpdateTimeRecordDto → TimeRecord → TimeRecord → TimeRecord
updated_row dto found r = record r {
  overtime_hours =
      normalize_hours (or_default dto.attendance_status found.attendance_status)
        (some (or_default dto.overtime_hours found.overtime_hours));
  attendance_status = or_default dto.attendance_status r.attendance_status;
}

unfoldable pub save_record :
    CurrentUser → UpdateTimeRecordDto → TimeRecord → Attendance → Attendance
unfolding normalize_hours
save_record actor dto found s = record s {
  records = update_record found.id (updated_row dto found) s.records;
  audit_logs = logged actor.user_id found.id AuditVerb.updated s.audit_logs;
}

-- A change of a record that its uuid finds, for an actor who may manage the employee.
unfoldable pub with_record :
    (uuid : ℕ) → CurrentUser → (TimeRecord → Attendance → Attendance) → Attendance → Outcome
with_record uuid actor change s = elim (find_by_uuid uuid s) [
  | none ↦ refused Refusal.record_not_found
  | some (r, e) ↦
      elim (ensure_actor_can_access_employee actor e.working_location_id e.department_id) [
        | some fault ↦ refused (Refusal.not_manager fault)
        | none ↦ done (change r s)
      ]
]

-- `update`, whose second check repeats its first.
unfoldable pub update : (uuid : ℕ) → CurrentUser → UpdateTimeRecordDto → Attendance → Outcome
update uuid actor dto s = with_record uuid actor (save_record actor dto) s

unfoldable pub approve_record : CurrentUser → TimeRecord → Attendance → Attendance
approve_record actor found s = record s {
  records = update_record found.id (λ r. record r { approved_by = some actor.user_id }) s.records;
  audit_logs = logged actor.user_id found.id AuditVerb.approved s.audit_logs;
}

-- `approve`
unfoldable pub approve : (uuid : ℕ) → CurrentUser → Attendance → Outcome
approve uuid actor s = with_record uuid actor (approve_record actor) s
