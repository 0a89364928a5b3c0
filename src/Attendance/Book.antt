-- ===== src/Attendance/Book.antt =====
-- What an import leaves in the book of attendance: for each employee and day, the last of its rows.
use mathlib.Core.Option.{some-injective}
use reg_pay.Prelude.{
  ℕ, ◌≡◌, refl, sym, ap, ◌∙◌, arith, Bool, ◌&&◌, List, [], ◌∷◌, ◌++◌, Option, none, some, ◌==◌,
  if◌then◌else◌, Bool-cases, Option-cases, inl, inr,
}
use reg_pay.Prelude.Int.{ℤ}
use reg_pay.Permissions.{CurrentUser}
use reg_pay.Payroll.Schema.{update_where, find_where}
use reg_pay.Savings.Rows.{Employee}
use reg_pay.Savings.Handlers.{find_last}
use reg_pay.Attendance.Rows.{
  Attendance, AttendanceStatus, BulkImportDto, BulkImportItem, TimeRecord, done, has_slot, DateText,
  EmployeeIdText, HoursValue, StatusText, digits, empty, not_digits,
}
use reg_pay.Attendance.Calls.{bulk_create-IsImport}
use reg_pay.Attendance.Import.{
  Entry, bulk_create, column_day, column_hours, entry_of, fill, get_employee, make_entry,
  normalize_value, overwrite, upsert, write_rows,
}

-- What the book says of an employee and a day.
abbrev Mark : Type 0
Mark = AttendanceStatus × ℤ

abbrev mark : TimeRecord → Mark
mark r = (r.attendance_status, r.overtime_hours)

abbrev mark_of : Option TimeRecord → Option Mark
mark_of none = none
mark_of (some r) = some (mark r)

abbrev pub book : Attendance → (employee day : ℕ) → Option Mark
book s employee day = mark_of (find_where (has_slot employee day) s.records)

-- The rows of an import, as a spreadsheet says them, without regard to the tables.
abbrev pub entries : List BulkImportItem → List Entry
entries [] = []
entries (r ∷ rs) =
    elim (make_entry none r.employee_id r.attendance_status r.attendance_date r.overtime_hours) [
      | none ↦ entries rs
      | some e ↦ e ∷ entries rs
    ]

abbrev pub is_for : (employee day : ℕ) → Entry → Bool
is_for employee day e = (e.employee_id == employee) && (e.day == day)

abbrev said : Option Entry → Option Mark → Option Mark
said none before = before
said (some e) before = some (e.status, e.overtime_hours)

-- The last entry for the employee and the day, or what the book said before.
abbrev pub last_entry : (employee day : ℕ) → List Entry → Option Mark → Option Mark
last_entry employee day es before = said (find_last (is_for employee day) es) before

find_update :
    (k d : ℕ) (e : Entry) (rs : List TimeRecord)
    → mark_of
        (find_where (has_slot k d) (update_where (has_slot e.employee_id e.day) (overwrite e) rs))
      ≡ (if is_for k d e
          then elim (find_where (has_slot k d) rs) [
            | none ↦ none
            | some r ↦ some (e.status, e.overtime_hours)
          ]
          else mark_of (find_where (has_slot k d) rs))
find_update k d e [] = ground arith
find_update k d e (r ∷ rs) = ground (arith, find_update k d e rs)

abbrev or_mark : Option TimeRecord → Option Mark → Option Mark
or_mark none m = m
or_mark (some x) m = some (mark x)

find_append :
    (k d : ℕ) (r : TimeRecord) (rs : List TimeRecord)
    → mark_of (find_where (has_slot k d) (rs ++ r ∷ []))
      ≡ or_mark (find_where (has_slot k d) rs) (if has_slot k d r then some (mark r) else none)
find_append k d r [] = ground arith
find_append k d r (x ∷ rs) = ground (arith, find_append k d r rs)

or_mark-none : (o : Option TimeRecord) → or_mark o none ≡ mark_of o
or_mark-none none = refl
or_mark-none (some x) = refl

upsert-book :
    (uuid : ℕ → ℕ) (e : Entry) (s : Attendance) (k d : ℕ)
    → book (upsert uuid e s) k d
      ≡ (if is_for k d e then some (e.status, e.overtime_hours) else book s k d)
unfolding upsert
upsert-book uuid e s k d =
    elim (Option-cases (find_where (has_slot e.employee_id e.day) s.records)) [
      | inl free ↦
          rw (upsert, free)
            (elim (Bool-cases (is_for k d e)) [
              | inl hit ↦
                  let j : e.employee_id ≡ k = ground arith in
                  let i : e.day ≡ d = ground arith in
                  let none_here : find_where (has_slot k d) s.records ≡ none = rw (j, i) at free in
                  find_append k d _ s.records ∙ rw (none_here, hit) refl
              | inr miss ↦
                  find_append k d _ s.records
                  ∙ rw miss (or_mark-none (find_where (has_slot k d) s.records))
            ])
      | inr (r, held) ↦
          rw (upsert, held)
            (elim (Bool-cases (is_for k d e)) [
              | inl hit ↦
                  let j : e.employee_id ≡ k = ground arith in
                  let i : e.day ≡ d = ground arith in
                  let here : find_where (has_slot k d) s.records ≡ some r = rw (j, i) at held in
                  find_update k d e s.records ∙ rw (hit, here) refl
              | inr miss ↦ find_update k d e s.records ∙ rw miss refl
            ])
    ]

-- An entry without the place of its employee.
abbrev unplaced : Entry → Entry
unplaced e = record e { working_location_id = none; department_id = none }

fill-unplaced :
    (emp : Option Employee) (id : ℕ) (status : AttendanceStatus) (day : Option ℕ)
    (overtime : Option ℤ) {e : Entry}
    → fill emp id status day overtime ≡ some e
    → fill none id status day overtime ≡ some (unplaced e)
fill-unplaced emp id status (some day) (some overtime) h =
    ap (λ e. some (unplaced e)) (some-injective _ _ h)
fill-unplaced emp id status none overtime h = cc
fill-unplaced emp id status (some day) none h = cc

make_entry-unplaced :
    (emp : Option Employee) (id : EmployeeIdText) (status : StatusText) (date : DateText)
    (overtime : HoursValue) {e : Entry}
    → make_entry emp id status date overtime ≡ some e
    → make_entry none id status date overtime ≡ some (unplaced e)
unfolding make_entry
make_entry-unplaced emp (digits p id) (StatusText.valid status) (DateText.moment ms) overtime h =
    fill-unplaced emp id status (column_day ms) (column_hours (normalize_value status overtime)) h
make_entry-unplaced emp empty status date overtime h = cc
make_entry-unplaced emp not_digits status date overtime h = cc
make_entry-unplaced emp (digits p id) StatusText.missing date overtime h = cc
make_entry-unplaced emp (digits p id) StatusText.other date overtime h = cc
make_entry-unplaced emp (digits p id) (StatusText.valid status) DateText.missing overtime h = cc
make_entry-unplaced emp (digits p id) (StatusText.valid status) DateText.invalid overtime h = cc

-- What the first row says counts where no later row speaks of the employee and the day.
last_entry-cons :
    (k d : ℕ) (e : Entry) (es : List Entry) (before : Option Mark)
    → last_entry k d es (if is_for k d e then some (e.status, e.overtime_hours) else before)
      ≡ last_entry k d (unplaced e ∷ es) before
unfolding find_last
last_entry-cons k d e es before = elim (Option-cases (find_last (is_for k d) es)) [
  | inr (f, later) ↦ rw later refl
  | inl last ↦ elim (Bool-cases (is_for k d e)) [
    | inl hit ↦ rw (last, hit) refl
    | inr miss ↦ rw (last, miss) refl
  ]
]

write_rows-book :
    (uuid : ℕ → ℕ) (es : List Employee) (rs : List BulkImportItem) (s s' : Attendance) (k d : ℕ)
    → write_rows uuid es rs s ≡ some s'
    → book s' k d ≡ last_entry k d (entries rs) (book s k d)
unfolding write_rows find_last
write_rows-book uuid es [] s s' k d h = ap (λ t. book t k d) (sym (some-injective _ _ h))
write_rows-book uuid es (r ∷ rs) s s' k d h = elim (Option-cases (entry_of es r)) [
  | inl bad ↦ absurd (let e = rw (write_rows, bad) at h in cc)
  | inr (e, good) ↦
      let read =
        make_entry-unplaced (get_employee r.employee_id es) r.employee_id r.attendance_status
          r.attendance_date r.overtime_hours good in
      write_rows-book uuid es rs (upsert uuid e s) s' k d (rw (write_rows, good) at h)
      ∙ ap (last_entry k d (entries rs)) (upsert-book uuid e s k d)
      ∙ rw (entries, read) (last_entry-cons k d e (entries rs) (book s k d))
]

-- After an import that goes through, the book says of each employee and day what the last row of
-- the import for them says, and what it said before where no row is for them.
pub bulk_create-book :
    (uuid : ℕ → ℕ) (actor : CurrentUser) (dto : BulkImportDto) (s s' : Attendance)
    (employee day : ℕ)
    → bulk_create uuid actor dto s ≡ done s'
    → book s' employee day ≡ last_entry employee day (entries dto.records) (book s employee day)
bulk_create-book uuid actor dto s s' employee day h =
    let i = bulk_create-IsImport uuid actor dto s s' h in
    ap (λ t. book t employee day) (sym i.ended)
    ∙ write_rows-book uuid _ dto.records s i.written employee day i.wrote
