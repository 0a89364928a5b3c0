-- ===== src/Attendance/Admission.antt =====
-- What a row of an import must be for the import to go through.
use mathlib.Core.Option.{some-injective}
use reg_pay.Prelude.{
  ℕ, suc, ◌≡◌, refl, sym, ap, none, Bool, true, false, ◌||◌, ◌&&◌, not, any, ltb, arith, List, [],
  ◌∷◌, ◌++◌, map, Option, some, All, Bool-cases, Option-cases, inl, inr,
}
use reg_pay.Prelude.Int.{ℤ, pos}
use reg_pay.Permissions.{CurrentUser}
use reg_pay.Savings.Rows.{Employee}
use reg_pay.Attendance.Rows.{
  Attendance, AttendanceStatus, BulkImportItem, DateText, HoursValue, StatusText, absent, present,
  day_of, hours, no_hours, not_hours, digits, ensure_actor_can_access_employee, matches,
}
use reg_pay.Attendance.Import.{
  Checks, Entry, check_rows, date_faults, employee_faults, entry_of, get_employee, is_absent,
  is_before, exceeds_zero, fits, column_day, column_hours, fill, normalize_value, make_entry,
  row_faults, status_faults, upsert, write_rows, access_faults, fault_if,
}
use reg_pay.Attendance.Calls.{EmployeeIdText-cases, MayAccess}

-- The row names a known employee of the location and the department asked for, whom the caller may
-- manage; its status is one of the two, without overtime if absent, and its date is in the range.
pub record IsAdmitted (c : Checks) (r : BulkImportItem) : Type 0 where
  pub padded : Bool
  pub id : ℕ
  pub numbered : r.employee_id ≡ digits padded id
  pub employee : Employee
  pub known : get_employee r.employee_id c.employee_map ≡ some employee
  pub in_location : matches c.location employee.working_location_id ≡ true
  pub in_department : matches c.department employee.department_id ≡ true
  pub allowed : MayAccess c.actor employee
  pub status : AttendanceStatus
  pub stated : r.attendance_status ≡ StatusText.valid status
  pub no_overtime : (is_absent r.attendance_status && exceeds_zero r.overtime_hours) ≡ false
  pub time : ℕ
  pub dated : r.attendance_date ≡ DateText.moment time
  pub in_range : (is_before (some time) c.date_from || is_before c.date_to (some time)) ≡ false

append-eq-nil {ℓ} : {A : Type ℓ} (xs ys : List A) → xs ++ ys ≡ [] → (xs ≡ []) × (ys ≡ [])
append-eq-nil [] ys h = (refl, h)
append-eq-nil (x ∷ xs) ys h = cc

fault_if-eq-nil : (b : Bool) (f : _) → fault_if b f ≡ [] → b ≡ false
fault_if-eq-nil true f h = cc
fault_if-eq-nil false f h = refl

access_faults-eq-nil :
    (actor : CurrentUser) (e : Employee) → access_faults actor e ≡ [] → MayAccess actor e
access_faults-eq-nil actor e h =
    elim (Option-cases
      (ensure_actor_can_access_employee actor e.working_location_id e.department_id)) [
        | inl allowed ↦ allowed
        | inr (f, denied) ↦ absurd (let n = rw (access_faults, denied) at h in cc)
      ]

status_faults-eq-nil :
    (t : StatusText)
    → status_faults t ≡ []
    → (status : AttendanceStatus) × (t ≡ StatusText.valid status)
unfolding status_faults
status_faults-eq-nil StatusText.missing h = cc
status_faults-eq-nil StatusText.other h = cc
status_faults-eq-nil (StatusText.valid status) h = (status, refl)

date_faults-eq-nil :
    (c : Checks) (t : DateText)
    → date_faults c t ≡ []
    → (ms : ℕ) × (t ≡ DateText.moment ms)
      × ((is_before (some ms) c.date_from || is_before c.date_to (some ms)) ≡ false)
unfolding date_faults
date_faults-eq-nil c DateText.missing h = cc
date_faults-eq-nil c DateText.invalid h = cc
date_faults-eq-nil c (DateText.moment ms) h = (ms, refl, fault_if-eq-nil _ _ h)

-- A row without a fault.
pub row_faults-eq-nil : (c : Checks) (r : BulkImportItem) → row_faults c r ≡ [] → IsAdmitted c r
unfolding row_faults employee_faults
row_faults-eq-nil c r h = elim (EmployeeIdText-cases r.employee_id) [
  | inl blank ↦ absurd (let n = rw (row_faults, blank) at h in cc)
  | inr (inl letters) ↦ absurd (let n = rw (row_faults, letters) at h in cc)
  | inr (inr (padded, id, number)) ↦
      elim (Option-cases (get_employee r.employee_id c.employee_map)) [
        | inl unknown ↦ absurd (let n = rw (row_faults, number, unknown) at h in cc)
        | inr (e, known) ↦ elim (Bool-cases (matches c.location e.working_location_id)) [
          | inr outside ↦
              absurd (let n = rw (row_faults, number, known, employee_faults, outside) at h in cc)
          | inl located ↦ elim (Bool-cases (matches c.department e.department_id)) [
            | inr outside ↦ absurd (
                let n = rw (row_faults, number, known, employee_faults, located, outside) at h in
                cc)
            | inl placed ↦
                let (access, rest) =
                  append-eq-nil _ _
                    (rw (row_faults, number, known, employee_faults, located, placed) at h) in
                let (stated, rest') = append-eq-nil _ _ rest in
                let (quiet, dated) = append-eq-nil _ _ rest' in
                let (status, st) = status_faults-eq-nil r.attendance_status stated in
                let (time, dt, inside) = date_faults-eq-nil c r.attendance_date dated in
                record {
                  padded = padded;
                  id = id;
                  numbered = number;
                  employee = e;
                  known = known;
                  in_location = located;
                  in_department = placed;
                  allowed = access_faults-eq-nil c.actor e access;
                  status = status;
                  stated = st;
                  no_overtime = fault_if-eq-nil _ _ quiet;
                  time = time;
                  dated = dt;
                  in_range = inside;
                }
          ]
        ]
      ]
]

map-eq-nil {ℓ κ} : {A : Type ℓ} {B : Type κ} (f : A → B) (xs : List A) → map f xs ≡ [] → xs ≡ []
map-eq-nil f [] h = refl
map-eq-nil f (x ∷ xs) h = cc

-- A loop without a fault has admitted every row.
pub check_rows-eq-nil :
    (c : Checks) (n : ℕ) (rs : List BulkImportItem) → check_rows c n rs ≡ [] → All (IsAdmitted c) rs
unfolding check_rows
check_rows-eq-nil c n [] h = tt
check_rows-eq-nil c n (r ∷ rs) h =
    let (first, rest) = append-eq-nil _ _ h in
    (row_faults-eq-nil c r (map-eq-nil _ _ first), check_rows-eq-nil c (suc n) rs rest)

-- The row holds a value that its columns do not take, in a place that no check looks at: a day after
-- the year 9999, or, for a day of presence, an overtime that is no number or a too large one.
abbrev pub is_too_late : DateText → Bool
is_too_late (DateText.moment ms) = ltb 2932896 (day_of ms)
is_too_late _ = false

abbrev pub is_presence : StatusText → Bool
is_presence (StatusText.valid present) = true
is_presence _ = false

abbrev pub is_storable : HoursValue → Bool
is_storable no_hours = true
is_storable (hours above h) = fits h
is_storable (not_hours above) = false

abbrev pub is_unwritable : BulkImportItem → Bool
is_unwritable r =
    is_too_late r.attendance_date
    || (is_presence r.attendance_status && not (is_storable r.overtime_hours))

column_day-total :
    (ms : ℕ) → is_too_late (DateText.moment ms) ≡ false → column_day ms ≡ some (day_of ms)
column_day-total ms h = ground arith

column_hours-total :
    (status : AttendanceStatus) (overtime : HoursValue)
    → (is_presence (StatusText.valid status) && not (is_storable overtime)) ≡ false
    → (h : ℤ) × (column_hours (normalize_value status overtime) ≡ some h)
column_hours-total absent overtime ok = (pos 0, refl)
column_hours-total present no_hours ok = (pos 0, refl)
column_hours-total present (hours above h) ok = (h, ground arith)
column_hours-total present (not_hours above) ok = cc

make_entry-total :
    (emp : Option Employee) (padded : Bool) (id : ℕ) (status : AttendanceStatus) (ms : ℕ)
    (overtime : HoursValue)
    → (is_too_late (DateText.moment ms)
        || (is_presence (StatusText.valid status) && not (is_storable overtime)))
      ≡ false
    → (e : Entry) × (make_entry emp
          (digits padded id)
          (StatusText.valid status)
          (DateText.moment ms)
          overtime
        ≡ some e)
unfolding make_entry
make_entry-total emp padded id status ms overtime writable =
    let day = column_day-total ms (ground arith) in
    let (h, taken) = column_hours-total status overtime (ground arith) in rw (day, taken) (_, refl)

IsAdmitted-entry :
    (c : Checks) (r : BulkImportItem)
    → IsAdmitted c r
    → is_unwritable r ≡ false
    → (e : Entry) × (entry_of c.employee_map r ≡ some e)
IsAdmitted-entry c r a writable =
    rw (a.numbered, a.stated, a.dated)
      (make_entry-total _ a.padded a.id a.status a.time _ (rw (a.stated, a.dated) at writable))

fill-employee :
    (emp : Option Employee) (id : ℕ) (status : AttendanceStatus) (day : Option ℕ)
    (overtime : Option ℤ) (e : Entry)
    → fill emp id status day overtime ≡ some e
    → e.employee_id ≡ id
fill-employee emp id status (some day) (some overtime) e h =
    ap (λ (x : Entry). x.employee_id) (sym (some-injective _ _ h))
fill-employee emp id status none overtime e h = cc
fill-employee emp id status (some day) none e h = cc

make_entry-employee :
    (emp : Option Employee) (padded : Bool) (id : ℕ) (status : AttendanceStatus) (ms : ℕ)
    (overtime : HoursValue) (e : Entry)
    → make_entry emp (digits padded id) (StatusText.valid status) (DateText.moment ms) overtime
      ≡ some e
    → e.employee_id ≡ id
unfolding make_entry
make_entry-employee emp padded id status ms overtime e h =
    fill-employee emp id status (column_day ms) (column_hours (normalize_value status overtime)) e h

pub entry_of-employee :
    (c : Checks) (r : BulkImportItem) (a : IsAdmitted c r) (e : Entry)
    → entry_of c.employee_map r ≡ some e
    → e.employee_id ≡ a.id
entry_of-employee c r a e h =
    make_entry-employee _ a.padded a.id a.status a.time _ e
      (rw (a.numbered, a.stated, a.dated) at h)

pub write_rows-total :
    (uuid : ℕ → ℕ) (c : Checks) (rs : List BulkImportItem) (s : Attendance)
    → All (IsAdmitted c) rs
    → any is_unwritable rs ≡ false
    → (s' : Attendance) × (write_rows uuid c.employee_map rs s ≡ some s')
unfolding write_rows
write_rows-total uuid c [] s h writable = (s, refl)
write_rows-total uuid c (r ∷ rs) s h writable =
    let (e, good) = IsAdmitted-entry c r h.0 (ground arith) in
    let (s', wrote) = write_rows-total uuid c rs (upsert uuid e s) h.1 (ground arith) in
    (s', rw (write_rows, good) wrote)
