-- ===== src/Attendance/Calls.antt =====
-- The calls of the attendance service, and what a call that goes through has established.
use mathlib.Core.Path.{subst}
use reg_pay.Prelude.{
  ℕ, arith, ◌≡◌, ◌⊎◌, refl, List, [], ◌∷◌, Option, none, some, Bool-cases, Option-cases, inl, inr,
}
use reg_pay.Permissions.{CurrentUser}
use reg_pay.Payroll.Schema.{find_where}
use reg_pay.Payroll.Review.Tables.{find-passes}
use reg_pay.Savings.Rows.{Employee}
use reg_pay.Attendance.Rows.{
  Attendance, BulkImportDto, CreateTimeRecordDto, EmployeeIdText, Outcome, TimeRecord,
  UpdateTimeRecordDto, day_of, digits, done, empty, ensure_actor_can_access_employee, has_slot,
  not_digits,
}
use reg_pay.Attendance.Handlers.{
  add_record, approve, approve_record, broadcast, create, create_for, ensure_employee, find_by_uuid,
  save_record, update, with_record,
}
use reg_pay.Attendance.Import.{
  bulk_create, check_rows, checks, date_range, import_in_range, import_rows, is_before,
  scope_department, scope_location, write_rows,
}

pub data Call : Type 0 where
  creates : (uuid : ℕ) → CreateTimeRecordDto → Call
  updates : (uuid : ℕ) → UpdateTimeRecordDto → Call
  approves : (uuid : ℕ) → Call
  imports : (uuid : ℕ → ℕ) → BulkImportDto → Call

unfoldable pub call : Call → CurrentUser → Attendance → Outcome
call (creates uuid dto) actor s = create uuid actor dto s
call (updates uuid dto) actor s = update uuid actor dto s
call (approves uuid) actor s = approve uuid actor s
call (imports uuid dto) actor s = bulk_create uuid actor dto s

abbrev pub MayAccess : CurrentUser → Employee → Type 0
MayAccess actor e =
    ensure_actor_can_access_employee actor e.working_location_id e.department_id ≡ none

pub data Change (actor : CurrentUser) (s : Attendance) : Attendance → Type 0 where
  added :
      (uuid : ℕ) (e : Employee) (dto : CreateTimeRecordDto)
      → MayAccess actor e
      → ensure_employee e.id s ≡ some e
      → find_where (has_slot e.id (day_of dto.attendance_date)) s.records ≡ none
      → Change actor s (add_record uuid actor e dto s)
  saved :
      (uuid : ℕ) (dto : UpdateTimeRecordDto) (r : TimeRecord) (e : Employee)
      → MayAccess actor e
      → find_by_uuid uuid s ≡ some (r, e)
      → Change actor s (save_record actor dto r s)
  approved :
      (uuid : ℕ) (r : TimeRecord) (e : Employee)
      → MayAccess actor e
      → find_by_uuid uuid s ≡ some (r, e)
      → Change actor s (approve_record actor r s)
  imported :
      (uuid : ℕ → ℕ) (dto : BulkImportDto) (range : Option ℕ × Option ℕ)
      (location department : Option ℕ) (written : Attendance)
      → check_rows (checks actor dto range location department s) 1 dto.records ≡ []
      → write_rows uuid (checks actor dto range location department s).employee_map dto.records s
        ≡ some written
      → Change actor s (record written { broadcasts = broadcast written.broadcasts })

done-injective : {a b : Attendance} → done a ≡ done b → a ≡ b
done-injective e = cc

create_for-Change :
    (uuid : ℕ) (actor : CurrentUser) (dto : CreateTimeRecordDto) (e : Employee) (s s' : Attendance)
    → ensure_employee e.id s ≡ some e
    → create_for uuid actor dto e s ≡ done s'
    → Change actor s s'
unfolding create_for
create_for-Change uuid actor dto e s s' found h =
    elim (Option-cases
      (ensure_actor_can_access_employee actor e.working_location_id e.department_id)) [
        | inr (f, denied) ↦ absurd (let e = rw (create_for, denied) at h in cc)
        | inl allowed ↦
            elim (Option-cases
              (find_where (has_slot e.id (day_of dto.attendance_date)) s.records)) [
                | inr (r, old) ↦ absurd (let e = rw (create_for, allowed, old) at h in cc)
                | inl free ↦
                    subst (Change actor s) (done-injective (rw (create_for, allowed, free) at h))
                      (added uuid e dto allowed found free)
              ]
      ]

pub EmployeeIdText-cases :
    (k : EmployeeIdText)
    → (k ≡ empty) ⊎ (k ≡ not_digits) ⊎ ((padded : _) × (n : ℕ) × (k ≡ digits padded n))
EmployeeIdText-cases empty = inl refl
EmployeeIdText-cases not_digits = inr (inl refl)
EmployeeIdText-cases (digits padded n) = inr (inr (padded, n, refl))

create-Change :
    (uuid : ℕ) (actor : CurrentUser) (dto : CreateTimeRecordDto) (s s' : Attendance)
    → create uuid actor dto s ≡ done s'
    → Change actor s s'
unfolding create
create-Change uuid actor dto s s' h = elim (EmployeeIdText-cases dto.employee_id) [
  | inl blank ↦ absurd (let e = rw (create, blank) at h in cc)
  | inr (inl letters) ↦ absurd (let e = rw (create, letters) at h in cc)
  | inr (inr (padded, id, number)) ↦ elim (Option-cases (ensure_employee id s)) [
    | inl unknown ↦ absurd (let e = rw (create, number, unknown) at h in cc)
    | inr (e, found) ↦
        let passes = find-passes _ s.employees found in
        let same : id ≡ e.id = ground arith in
        create_for-Change uuid actor dto e s s' (rw same at found) (rw (create, number, found) at h)
  ]
]

with_record-eq-done :
    (uuid : ℕ) (actor : CurrentUser) (change : TimeRecord → Attendance → Attendance)
    (s s' : Attendance)
    → with_record uuid actor change s ≡ done s'
    → (r : TimeRecord) × (e : Employee) × MayAccess actor e
      × (find_by_uuid uuid s ≡ some (r, e))
      × (change r s ≡ s')
unfolding with_record
with_record-eq-done uuid actor change s s' h = elim (Option-cases (find_by_uuid uuid s)) [
  | inl missing ↦ absurd (let e = rw (with_record, missing) at h in cc)
  | inr ((r, e), found) ↦
      elim (Option-cases
        (ensure_actor_can_access_employee actor e.working_location_id e.department_id)) [
          | inr (f, denied) ↦ absurd (let e = rw (with_record, found, denied) at h in cc)
          | inl allowed ↦
              (r, e, allowed, found, done-injective (rw (with_record, found, allowed) at h))
        ]
]

pub List-cases {ℓ} :
    {A : Type ℓ} (xs : List A) → (xs ≡ []) ⊎ ((x : A) × (ys : List A) × (xs ≡ x ∷ ys))
List-cases [] = inl refl
List-cases (x ∷ xs) = inr (x, xs, refl)

-- What an import that goes through has established, and what it leaves.
pub record IsImport (uuid : ℕ → ℕ) (actor : CurrentUser) (dto : BulkImportDto) (s s' : Attendance)
    : Type 0 where
  pub range : Option ℕ × Option ℕ
  pub location : Option ℕ
  pub department : Option ℕ
  pub written : Attendance
  pub clean : check_rows (checks actor dto range location department s) 1 dto.records ≡ []
  pub wrote :
      write_rows uuid (checks actor dto range location department s).employee_map dto.records s
      ≡ some written
  pub ended : record written { broadcasts = broadcast written.broadcasts } ≡ s'

module _ (uuid : ℕ → ℕ) (actor : CurrentUser) (dto : BulkImportDto) (s s' : Attendance) where
  import_rows-IsImport :
      (range : Option ℕ × Option ℕ) (location department : Option ℕ)
      → import_rows uuid (checks actor dto range location department s) dto.records s ≡ done s'
      → IsImport uuid actor dto s s'
  unfolding import_rows
  import_rows-IsImport range location department h =
      let c = checks actor dto range location department s in
      elim (List-cases (check_rows c 1 dto.records)) [
        | inr (e, es, faulty) ↦ absurd (let e = rw (import_rows, faulty) at h in cc)
        | inl clean ↦ elim (Option-cases (write_rows uuid c.employee_map dto.records s)) [
          | inl malformed ↦ absurd (let e = rw (import_rows, clean, malformed) at h in cc)
          | inr (written, wrote) ↦ record {
            range = range;
            location = location;
            department = department;
            written = written;
            clean = clean;
            wrote = wrote;
            ended = done-injective (rw (import_rows, clean, wrote) at h);
          }
        ]
      ]

  import_in_range-IsImport :
      (range : Option ℕ × Option ℕ)
      → import_in_range uuid actor dto range s ≡ done s'
      → IsImport uuid actor dto s s'
  unfolding import_in_range
  import_in_range-IsImport range h = elim (Bool-cases (is_before range.1 range.0)) [
    | inl reversed ↦ absurd (let e = rw (import_in_range, reversed) at h in cc)
    | inr ordered ↦ elim (Option-cases (scope_location dto.working_location s.working_locations)) [
      | inl unknown ↦ absurd (let e = rw (import_in_range, ordered, unknown) at h in cc)
      | inr (location, located) ↦
          elim (Option-cases (scope_department dto.department s.departments)) [
            | inl unknown ↦
                absurd (let e = rw (import_in_range, ordered, located, unknown) at h in cc)
            | inr (department, known) ↦
                import_rows-IsImport range location department
                  (rw (import_in_range, ordered, located, known) at h)
          ]
    ]
  ]

  pub bulk_create-IsImport : bulk_create uuid actor dto s ≡ done s' → IsImport uuid actor dto s s'
  unfolding bulk_create
  bulk_create-IsImport h = elim (List-cases dto.records) [
    | inl none_given ↦ absurd (let e = rw (bulk_create, none_given) at h in cc)
    | inr (r, rs, given) ↦ elim (Option-cases (date_range dto)) [
      | inl undated ↦ absurd (let e = rw (bulk_create, given, undated) at h in cc)
      | inr (range, dated) ↦ import_in_range-IsImport range (rw (bulk_create, given, dated) at h)
    ]
  ]

-- Every call that goes through is a change.
pub call-Change :
    (c : Call) (actor : CurrentUser) (s s' : Attendance)
    → call c actor s ≡ done s'
    → Change actor s s'
unfolding call update approve
call-Change (creates uuid dto) actor s s' h = create-Change uuid actor dto s s' h
call-Change (updates uuid dto) actor s s' h =
    let (r, e, allowed, found, eq) =
      with_record-eq-done uuid actor (save_record actor dto) s s' h in
    subst (Change actor s) eq (saved uuid dto r e allowed found)
call-Change (approves uuid) actor s s' h =
    let (r, e, allowed, found, eq) = with_record-eq-done uuid actor (approve_record actor) s s' h in
    subst (Change actor s) eq (approved uuid r e allowed found)
call-Change (imports uuid dto) actor s s' h =
    let i = bulk_create-IsImport uuid actor dto s s' h in
    subst (Change actor s) i.ended
      (imported uuid dto i.range i.location i.department i.written i.clean i.wrote)
