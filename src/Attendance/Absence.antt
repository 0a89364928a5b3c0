-- ===== src/Attendance/Absence.antt =====
-- No overtime on a day of absence, by all calls of the attendance service.
use mathlib.Core.Option.{some-injective}
use reg_pay.Prelude.{
  ℕ, suc, ◌<◌, ◌≡◌, refl, sym, ap, ◌∙◌, arith, Bool, true, List, [], ◌∷◌, ◌++◌, Option, none, some,
  ◌==◌, All, All-append, All-imp, All-map, All-zip, Bool-cases, Option-cases, inl, inr,
}
use reg_pay.Prelude.Int.{ℤ, pos}
use reg_pay.Permissions.{CurrentUser}
use reg_pay.Payroll.Schema.{update_where, find_where}
use reg_pay.Payroll.Review.Tables.{
  All-update_where, UniqueBy, UniqueBy-concat, UniqueBy-update_where, every, only_row,
}
use reg_pay.Savings.Rows.{Employee}
use reg_pay.Attendance.Rows.{
  Attendance, AttendanceStatus, EmployeeIdText, StatusText, DateText, HoursValue, TimeRecord,
  absent, done, has_slot, normalize_hours, present, empty, not_digits, digits,
}
use reg_pay.Attendance.Handlers.{add_record, approve_record, find_by_uuid, save_record, updated_row}
use reg_pay.Attendance.Import.{
  Entry, column_day, column_hours, fill, make_entry, normalize_value, overwrite, upsert,
}
use reg_pay.Attendance.Calls.{Call, Change, added, approved, call, call-Change, imported, saved}
use reg_pay.Attendance.Slots.{write_rows-keeps}

abbrev pub IsIdle : TimeRecord → Type 0
IsIdle r = r.attendance_status ≡ absent → r.overtime_hours ≡ pos 0

-- The ids of the records are different, and below the counter.
abbrev pub IsNumbered : Attendance → Type 0
IsNumbered s =
    UniqueBy (λ (r : TimeRecord). r.id) s.records × All (λ r. r.id < s.next_record_id) s.records

IsNumbered-concat :
    (rs : List TimeRecord) (r : TimeRecord)
    → UniqueBy (λ (x : TimeRecord). x.id) rs
    → All (λ x. x.id < r.id) rs
    → UniqueBy (λ (x : TimeRecord). x.id) (rs ++ r ∷ []) × All (λ x. x.id < suc r.id) (rs ++ r ∷ [])
IsNumbered-concat rs r u below = (
  UniqueBy-concat (λ x. x.id) rs r (All-imp _ _ rs (λ x b. ground arith) below) u,
  All-append _ rs (r ∷ []) (All-imp _ _ rs (λ x b. omega (arith, b)) below) (omega arith, tt),
)

IsNumbered-update :
    (p : TimeRecord → Bool) (f : TimeRecord → TimeRecord) (s : Attendance)
    → ((x : TimeRecord) → (f x).id ≡ x.id)
    → IsNumbered s
    → UniqueBy (λ (x : TimeRecord). x.id) (update_where p f s.records)
      × All (λ r. r.id < s.next_record_id) (update_where p f s.records)
IsNumbered-update p f s kept n = (
  UniqueBy-update_where (λ x. x.id) p f s.records kept n.0,
  All-update_where _ p f s.records (λ x _ b. rw (kept x) b) n.1,
)

upsert-IsNumbered :
    (uuid : ℕ → ℕ) (e : Entry) (s : Attendance) → IsNumbered s → IsNumbered (upsert uuid e s)
unfolding upsert
upsert-IsNumbered uuid e s n =
    elim (Option-cases (find_where (has_slot e.employee_id e.day) s.records)) [
      | inl free ↦ rw (upsert, free) (IsNumbered-concat s.records _ n.0 n.1)
      | inr (r, held) ↦
          rw (upsert, held)
            (IsNumbered-update (has_slot e.employee_id e.day) (overwrite e) s (λ x. refl) n)
    ]

pub Change-IsNumbered :
    {actor : CurrentUser} {s s' : Attendance} → Change actor s s' → IsNumbered s → IsNumbered s'
unfolding add_record save_record approve_record
Change-IsNumbered {s = s} (added uuid e dto allowed known free) n =
    IsNumbered-concat s.records _ n.0 n.1
Change-IsNumbered {s = s} (saved uuid dto r e allowed found) n =
    IsNumbered-update (λ t. t.id == r.id) (updated_row dto r) s (λ x. refl) n
Change-IsNumbered {actor} {s} (approved uuid r e allowed found) n =
    IsNumbered-update (λ t. t.id == r.id) (λ t. record t { approved_by = some actor.user_id }) s
      (λ x. refl) n
Change-IsNumbered {s = s} (imported uuid dto range location department written clean wrote) n =
    write_rows-keeps IsNumbered (λ e. Unit {0}) uuid _ dto.records s written
      (every (λ r e _. tt) dto.records) (λ e t _. upsert-IsNumbered uuid e t) wrote n

idle_hours :
    (status : AttendanceStatus) (hours : Option ℤ)
    → status ≡ absent
    → normalize_hours status hours ≡ pos 0
unfolding normalize_hours
idle_hours absent hours h = refl
idle_hours present hours h = cc

fill-idle :
    (emp : Option Employee) (id : ℕ) (status : AttendanceStatus) (day : Option ℕ)
    (overtime : HoursValue) (e : Entry)
    → fill emp id status day (column_hours (normalize_value status overtime)) ≡ some e
    → e.status ≡ absent
    → e.overtime_hours ≡ pos 0
fill-idle emp id absent (some day) overtime e h =
    λ idle. ap (λ (x : Entry). x.overtime_hours) (sym (some-injective _ _ h))
fill-idle emp id absent none overtime e h = cc
fill-idle emp id present none overtime e h = cc
fill-idle emp id present (some day) overtime e h =
    elim (Option-cases (column_hours (normalize_value present overtime))) [
      | inl refused ↦ absurd (let n = rw refused at h in cc)
      | inr (hours, taken) ↦
          let same = some-injective _ _ (rw taken at h) in
          λ idle. absurd (let n = ap (λ (x : Entry). x.status) same ∙ idle in cc)
    ]

make_entry-idle :
    (emp : Option Employee) (id : EmployeeIdText) (status : StatusText) (date : DateText)
    (overtime : HoursValue) (e : Entry)
    → make_entry emp id status date overtime ≡ some e
    → e.status ≡ absent
    → e.overtime_hours ≡ pos 0
unfolding make_entry
make_entry-idle emp (digits p id) (StatusText.valid status) (DateText.moment ms) overtime e h =
    fill-idle emp id status (column_day ms) overtime e h
make_entry-idle emp empty status date overtime e h = cc
make_entry-idle emp not_digits status date overtime e h = cc
make_entry-idle emp (digits p id) StatusText.missing date overtime e h = cc
make_entry-idle emp (digits p id) StatusText.other date overtime e h = cc
make_entry-idle emp (digits p id) (StatusText.valid status) DateText.missing overtime e h = cc
make_entry-idle emp (digits p id) (StatusText.valid status) DateText.invalid overtime e h = cc

upsert-IsIdle :
    (uuid : ℕ → ℕ) (e : Entry) (s : Attendance)
    → (e.status ≡ absent → e.overtime_hours ≡ pos 0)
    → All IsIdle s.records
    → All IsIdle (upsert uuid e s).records
unfolding upsert
upsert-IsIdle uuid e s idle h =
    elim (Option-cases (find_where (has_slot e.employee_id e.day) s.records)) [
      | inl free ↦ rw (upsert, free) (All-append IsIdle s.records _ h (idle, tt))
      | inr (r, held) ↦
          rw (upsert, held)
            (All-update_where IsIdle (has_slot e.employee_id e.day) (overwrite e) s.records
              (λ x _ _. idle) h)
    ]

-- The record that a uuid finds is the only one with its id.
pub find_by_uuid-only :
    (uuid : ℕ) (s : Attendance) (r : TimeRecord) (e : Employee)
    → IsNumbered s
    → find_by_uuid uuid s ≡ some (r, e)
    → All (λ x. (x.id == r.id) ≡ true → x ≡ r) s.records
find_by_uuid-only uuid s r e n h =
    elim (Option-cases (find_where (λ (x : TimeRecord). x.uuid == uuid) s.records)) [
      | inl missing ↦ absurd (let e = rw (find_by_uuid, missing) at h in cc)
      | inr (x, held) ↦
          elim (Option-cases (find_where (λ (e : Employee). e.id == x.employee_id) s.employees)) [
            | inl missing ↦ absurd (let e = rw (find_by_uuid, held, missing) at h in cc)
            | inr (y, known) ↦
                let same : x ≡ r =
                  ap (λ (c : TimeRecord × Employee). c.0)
                    (some-injective _ _ (rw (find_by_uuid, held, known) at h)) in
                only_row (λ (x : TimeRecord). x.id) _ s.records n.0 (held ∙ ap some same)
          ]
    ]

Change-IsIdle :
    {actor : CurrentUser} {s s' : Attendance}
    → Change actor s s'
    → IsNumbered s
    → All IsIdle s.records
    → All IsIdle s'.records
unfolding add_record save_record approve_record
Change-IsIdle {s = s} (added uuid e dto allowed known free) n h =
    All-append IsIdle s.records _ h (idle_hours _ dto.overtime_hours, tt)
Change-IsIdle {s = s} (saved uuid dto r e allowed found) n h = All-map IsIdle _ s.records (
    All-zip IsIdle _ _ s.records
      (λ x i only. elim (Bool-cases (x.id == r.id)) [
        | inl hit ↦ rw (hit, only hit) (idle_hours _ _)
        | inr miss ↦ rw miss i
      ])
      h (find_by_uuid-only uuid s r e n found))
Change-IsIdle {actor} {s} (approved uuid r e allowed found) n h =
    All-update_where IsIdle (λ t. t.id == r.id) (λ t. record t { approved_by = some actor.user_id })
      s.records (λ x _ i. i) h
Change-IsIdle {s = s} (imported uuid dto range location department written clean wrote) n h =
    write_rows-keeps (λ t. All IsIdle t.records) (λ e. e.status ≡ absent → e.overtime_hours ≡ pos 0)
      uuid _ dto.records s written
      (every
        (λ r.
          make_entry-idle _ r.employee_id r.attendance_status r.attendance_date r.overtime_hours)
        dto.records)
      (λ e t. upsert-IsIdle uuid e t) wrote h

-- If the ids of the records are different and below the counter, and no record of an absence has
-- overtime, so is it after any call that goes through.
pub call-IsIdle :
    (c : Call) (actor : CurrentUser) (s s' : Attendance)
    → IsNumbered s
    → All IsIdle s.records
    → call c actor s ≡ done s'
    → IsNumbered s' × All IsIdle s'.records
call-IsIdle c actor s s' n i h =
    let change = call-Change c actor s s' h in
    (Change-IsNumbered change n, Change-IsIdle change n i)
