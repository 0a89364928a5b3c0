-- ===== src/Attendance/Slots.antt =====
-- One record of a day for each employee, by all calls of the attendance service.
use reg_pay.Prelude.{
  ℕ, ◌≡◌, refl, arith, Bool, false, List, [], ◌∷◌, ◌++◌, none, some, ◌==◌, All, All-append,
  Bool-cases, Option-cases, inl, inr,
}
use mathlib.Core.Option.{some-injective}
use mathlib.Core.Path.{subst}
use reg_pay.Permissions.{CurrentUser}
use reg_pay.Payroll.Schema.{update_where, find_where}
use reg_pay.Payroll.Review.Tables.{All-update_where, every}
use reg_pay.Savings.Rows.{Employee}
use reg_pay.Attendance.Rows.{Attendance, BulkImportItem, TimeRecord, done, has_slot}
use reg_pay.Attendance.Handlers.{add_record, approve_record, save_record, updated_row}
use reg_pay.Attendance.Import.{Entry, entry_of, overwrite, upsert, write_rows}
use reg_pay.Attendance.Calls.{Call, Change, added, approved, call, call-Change, imported, saved}

abbrev pub same_slot : TimeRecord → TimeRecord → Bool
same_slot x y = has_slot x.employee_id x.attendance_date y

-- No employee has two records of one day.
abbrev pub IsOneADay : List TimeRecord → Type 0
IsOneADay [] = Unit
IsOneADay (x ∷ xs) = All (λ y. same_slot x y ≡ false) xs × IsOneADay xs

abbrev KeepsSlot : (TimeRecord → TimeRecord) → Type 0
KeepsSlot f =
    (x : TimeRecord)
    → ((f x).employee_id ≡ x.employee_id) × ((f x).attendance_date ≡ x.attendance_date)

apart-update :
    (p : TimeRecord → Bool) (f : TimeRecord → TimeRecord) (x : TimeRecord) (xs : List TimeRecord)
    → KeepsSlot f
    → All (λ y. same_slot x y ≡ false) xs
    → All (λ y. same_slot x y ≡ false) (update_where p f xs)
apart-update p f x xs kept h =
    All-update_where (λ y. same_slot x y ≡ false) p f xs (λ y _ a. ground (arith, kept y)) h

pub IsOneADay-update_where :
    (p : TimeRecord → Bool) (f : TimeRecord → TimeRecord) (xs : List TimeRecord)
    → KeepsSlot f
    → IsOneADay xs
    → IsOneADay (update_where p f xs)
IsOneADay-update_where p f [] kept u = tt
IsOneADay-update_where p f (x ∷ xs) kept u = elim (Bool-cases (p x)) [
  | inl hit ↦
      rw (hit, (kept x).0, (kept x).1)
        (apart-update p f x xs kept u.0, IsOneADay-update_where p f xs kept u.1)
  | inr miss ↦ rw miss (apart-update p f x xs kept u.0, IsOneADay-update_where p f xs kept u.1)
]

IsOneADay-concat :
    (xs : List TimeRecord) (x : TimeRecord)
    → find_where (has_slot x.employee_id x.attendance_date) xs ≡ none
    → IsOneADay xs
    → IsOneADay (xs ++ x ∷ [])
IsOneADay-concat [] x free u = (tt, tt)
IsOneADay-concat (y ∷ xs) x free u =
    elim (Bool-cases (has_slot x.employee_id x.attendance_date y)) [
      | inl here ↦ absurd (let e = rw here at free in cc)
      | inr other ↦ (
        All-append _ xs (x ∷ []) u.0 (ground arith, tt),
        IsOneADay-concat xs x (rw other at free) u.1,
      )
    ]

-- A property of the state that every upsert of the rows keeps holds after the transaction.
pub write_rows-keeps {κ ν} :
    (P : Attendance → Type κ) (Q : Entry → Type ν) (uuid : ℕ → ℕ) (es : List Employee)
    (rs : List BulkImportItem) (s s' : Attendance)
    → All (λ r. (e : Entry) → entry_of es r ≡ some e → Q e) rs
    → ((e : Entry) (t : Attendance) → Q e → P t → P (upsert uuid e t))
    → write_rows uuid es rs s ≡ some s'
    → P s
    → P s'
unfolding write_rows
write_rows-keeps P Q uuid es [] s s' reads keeps h p = subst P (some-injective _ _ h) p
write_rows-keeps P Q uuid es (r ∷ rs) s s' reads keeps h p = elim (Option-cases (entry_of es r)) [
  | inl bad ↦ absurd (let e = rw (write_rows, bad) at h in cc)
  | inr (e, good) ↦
      write_rows-keeps P Q uuid es rs (upsert uuid e s) s' reads.1 keeps
        (rw (write_rows, good) at h) (keeps e s (reads.0 e good) p)
]

upsert-IsOneADay :
    (uuid : ℕ → ℕ) (e : Entry) (s : Attendance)
    → IsOneADay s.records
    → IsOneADay (upsert uuid e s).records
unfolding upsert
upsert-IsOneADay uuid e s u =
    elim (Option-cases (find_where (has_slot e.employee_id e.day) s.records)) [
      | inl free ↦ rw (upsert, free) (IsOneADay-concat s.records _ free u)
      | inr (r, held) ↦
          rw (upsert, held)
            (IsOneADay-update_where (has_slot e.employee_id e.day) (overwrite e) s.records
              (λ x. (refl, refl)) u)
    ]

Change-IsOneADay :
    {actor : CurrentUser} {s s' : Attendance}
    → Change actor s s'
    → IsOneADay s.records
    → IsOneADay s'.records
unfolding add_record save_record approve_record
Change-IsOneADay {s = s} (added uuid e dto allowed known free) u =
    IsOneADay-concat s.records _ free u
Change-IsOneADay {s = s} (saved uuid dto r e allowed found) u =
    IsOneADay-update_where _ (updated_row dto r) s.records (λ x. (refl, refl)) u
Change-IsOneADay {actor} {s} (approved uuid r e allowed found) u =
    IsOneADay-update_where (λ t. t.id == r.id) (λ t. record t { approved_by = some actor.user_id })
      s.records (λ x. (refl, refl)) u
Change-IsOneADay {s = s} (imported uuid dto range location department written clean wrote) u =
    write_rows-keeps (λ t. IsOneADay t.records) (λ e. Unit {0}) uuid _ dto.records s written
      (every (λ r e _. tt) dto.records) (λ e t _. upsert-IsOneADay uuid e t) wrote u

-- If the records of a state are for different employees or days, so are they after any call that
-- goes through, an import of the same day included.
pub call-IsOneADay :
    (c : Call) (actor : CurrentUser) (s s' : Attendance)
    → IsOneADay s.records
    → call c actor s ≡ done s'
    → IsOneADay s'.records
call-IsOneADay c actor s s' u h = Change-IsOneADay (call-Change c actor s s' h) u
