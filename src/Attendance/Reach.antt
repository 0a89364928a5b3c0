-- ===== src/Attendance/Reach.antt =====
-- Whose records a caller can change.
use mathlib.Core.Option.{some-injective}
use mathlib.Core.Path.{subst}
use reg_pay.Prelude.{
  ℕ, ◌≡◌, refl, ap, ◌∙◌, arith, Bool, true, false, List, [], ◌∷◌, ◌++◌, some, ◌==◌, if◌then◌else◌,
  All, All-imp, Bool-cases, Option-cases, inl, inr, keep,
}
use reg_pay.Permissions.{CurrentUser}
use reg_pay.Payroll.Schema.{update_where, find_where}
use reg_pay.Payroll.Review.Tables.{All-find, every, find-passes, keep-update_where}
use reg_pay.Savings.Rows.{Employee}
use reg_pay.Savings.Handlers.{find_last}
use reg_pay.Attendance.Rows.{Attendance, BulkImportItem, TimeRecord, digits, done, has_slot}
use reg_pay.Attendance.Handlers.{add_record, approve_record, find_by_uuid, save_record, updated_row}
use reg_pay.Attendance.Import.{Checks, Entry, checks, entry_of, get_employee, overwrite, upsert}
use reg_pay.Attendance.Calls.{
  Call, Change, added, approved, call, call-Change, imported, MayAccess, saved,
}
use reg_pay.Attendance.Slots.{write_rows-keeps}
use reg_pay.Attendance.Absence.{IsNumbered, find_by_uuid-only}
use reg_pay.Attendance.Admission.{IsAdmitted, entry_of-employee, check_rows-eq-nil}

-- No employee with the id may be managed by the caller.
abbrev pub IsOutOfReach : CurrentUser → ℕ → Attendance → Type 0
IsOutOfReach actor id s =
    All (λ (e : Employee). (e.id == id) ≡ true → ¬ (MayAccess actor e)) s.employees

abbrev pub records_of : ℕ → Attendance → List TimeRecord
records_of id s = keep (λ r. r.employee_id == id) s.records

keep-concat :
    (id : ℕ) (rs : List TimeRecord) (r : TimeRecord)
    → (r.employee_id == id) ≡ false
    → keep (λ x. x.employee_id == id) (rs ++ r ∷ [])
      ≡ keep (λ (x : TimeRecord). x.employee_id == id) rs
keep-concat id [] r other = rw other refl
keep-concat id (x ∷ rs) r other =
    ap (λ rest. if x.employee_id == id then x ∷ rest else rest) (keep-concat id rs r other)

-- An employee whom a query finds and the caller may manage is another.
other_employee :
    (actor : CurrentUser) (id : ℕ) (s : Attendance) (p : Employee → Bool) {e : Employee}
    → IsOutOfReach actor id s
    → find_where p s.employees ≡ some e
    → MayAccess actor e
    → (e.id == id) ≡ false
other_employee actor id s p {e} out found allowed = elim (Bool-cases (e.id == id)) [
  | inl same ↦ absurd (
      All-find (λ e. (e.id == id) ≡ true → ¬ (MayAccess actor e)) p s.employees out found same
        allowed)
  | inr other ↦ other
]

-- The employee of the record that a uuid finds.
find_by_uuid-employee :
    (uuid : ℕ) (s : Attendance) (r : TimeRecord) (e : Employee)
    → find_by_uuid uuid s ≡ some (r, e)
    → find_where (λ (x : Employee). x.id == r.employee_id) s.employees ≡ some e
find_by_uuid-employee uuid s r e h =
    elim (Option-cases (find_where (λ (x : TimeRecord). x.uuid == uuid) s.records)) [
      | inl missing ↦ absurd (let n = rw (find_by_uuid, missing) at h in cc)
      | inr (x, held) ↦
          elim (Option-cases (find_where (λ (y : Employee). y.id == x.employee_id) s.employees)) [
            | inl missing ↦ absurd (let n = rw (find_by_uuid, held, missing) at h in cc)
            | inr (y, known) ↦
                let both = some-injective (x, y) (r, e) (rw (find_by_uuid, held, known) at h) in
                subst
                  (λ (c : TimeRecord × Employee).
                    find_where (λ (y : Employee). y.id == c.0.employee_id) s.employees ≡ some c.1)
                  both known
          ]
    ]

-- A change of the record that a uuid finds leaves the records of another employee.
update_found-records :
    (actor : CurrentUser) (uuid id : ℕ) (f : TimeRecord → TimeRecord) (s : Attendance)
    (r : TimeRecord) (e : Employee)
    → ((x : TimeRecord) → (f x).employee_id ≡ x.employee_id)
    → IsNumbered s
    → IsOutOfReach actor id s
    → MayAccess actor e
    → find_by_uuid uuid s ≡ some (r, e)
    → keep (λ x. x.employee_id == id) (update_where (λ x. x.id == r.id) f s.records)
      ≡ records_of id s
update_found-records actor uuid id f s r e kept numbered out allowed found =
    let known = find_by_uuid-employee uuid s r e found in
    let named : (e.id == r.employee_id) ≡ true = find-passes _ s.employees known in
    let apart = other_employee actor id s _ out known allowed in
    let other : (r.employee_id == id) ≡ false = ground arith in
    keep-update_where (λ x. x.employee_id == id) (λ x. x.id == r.id) f s.records
      (All-imp _ _ s.records
        (λ x only hit. let same = only hit in (rw same other, rw (kept x, same) other))
        (find_by_uuid-only uuid s r e numbered found))

upsert-records :
    (uuid : ℕ → ℕ) (id : ℕ) (e : Entry) (s : Attendance)
    → (e.employee_id == id) ≡ false
    → records_of id (upsert uuid e s) ≡ records_of id s
unfolding upsert
upsert-records uuid id e s other =
    elim (Option-cases (find_where (has_slot e.employee_id e.day) s.records)) [
      | inl free ↦ rw (upsert, free) (keep-concat id s.records _ other)
      | inr (r, held) ↦
          rw (upsert, held)
            (keep-update_where (λ x. x.employee_id == id) (has_slot e.employee_id e.day)
              (overwrite e) s.records (every (λ x hit. ground arith) s.records))
    ]

-- What holds of every row holds of the row that a `Map` keeps, which passes the test of its key.
All-find_last {ℓ κ} :
    {A : Type ℓ} (P : A → Type κ) (p : A → Bool) (xs : List A) {x : A}
    → All P xs
    → find_last p xs ≡ some x
    → P x × (p x ≡ true)
unfolding find_last
All-find_last P p [] h e = cc
All-find_last P p (y ∷ xs) h e = elim (Option-cases (find_last p xs)) [
  | inr (z, later) ↦ All-find_last P p xs h.1 (later ∙ (rw later at e))
  | inl last ↦ elim (Bool-cases (p y)) [
    | inl here ↦
        let same = some-injective _ _ (rw (last, here) at e) in
        subst (λ x. P x × (p x ≡ true)) same (h.0, here)
    | inr miss ↦ absurd (let n = rw (last, miss) at e in cc)
  ]
]

All-keep {ℓ κ} :
    {A : Type ℓ} (P : A → Type κ) (p : A → Bool) (xs : List A) → All P xs → All P (keep p xs)
All-keep P p [] h = tt
All-keep P p (x ∷ xs) h = elim (Bool-cases (p x)) [
  | inl here ↦ rw here (h.0, All-keep P p xs h.1)
  | inr miss ↦ rw miss (All-keep P p xs h.1)
]

get_employee-id :
    (P : Employee → Type 0) (padded : Bool) (n : ℕ) (es : List Employee) (e : Employee)
    → All P es
    → get_employee (digits padded n) es ≡ some e
    → P e × ((e.id == n) ≡ true)
unfolding get_employee
get_employee-id P true n es e h found = cc
get_employee-id P false n es e h found = All-find_last P _ es h found

-- A row that is admitted is not for an employee out of reach.
IsAdmitted-other :
    (c : Checks) (id : ℕ) (r : BulkImportItem)
    → All (λ (e : Employee). (e.id == id) ≡ true → ¬ (MayAccess c.actor e)) c.employee_map
    → IsAdmitted c r
    → (e : Entry) → entry_of c.employee_map r ≡ some e
    → (e.employee_id == id) ≡ false
IsAdmitted-other c id r out a e read =
    let same = entry_of-employee c r a e read in
    let known = rw a.numbered at a.known in
    let (blocked, named) = get_employee-id _ a.padded a.id c.employee_map a.employee out known in
    elim (Bool-cases (e.employee_id == id)) [
      | inl hit ↦ absurd (blocked (ground arith) a.allowed)
      | inr miss ↦ miss
    ]

Change-records :
    {actor : CurrentUser} {s s' : Attendance} (id : ℕ)
    → Change actor s s'
    → IsNumbered s
    → IsOutOfReach actor id s
    → records_of id s' ≡ records_of id s
unfolding add_record save_record approve_record
Change-records {actor} {s} id (added uuid e dto allowed known free) n out =
    keep-concat id s.records _ (other_employee actor id s _ out known allowed)
Change-records {actor} {s} id (saved uuid dto r e allowed found) n out =
    update_found-records actor uuid id (updated_row dto r) s r e (λ x. refl) n out allowed found
Change-records {actor} {s} id (approved uuid r e allowed found) n out =
    update_found-records actor uuid id (λ x. record x { approved_by = some actor.user_id }) s r e
      (λ x. refl) n out allowed found
Change-records {actor} {s} id (imported uuid dto range location department written clean wrote) n
      out =
    let c = checks actor dto range location department s in
    write_rows-keeps (λ t. records_of id t ≡ records_of id s) (λ e. (e.employee_id == id) ≡ false)
      uuid c.employee_map dto.records s written
      (All-imp _ _ dto.records (λ r. IsAdmitted-other c id r (All-keep _ _ s.employees out))
        (check_rows-eq-nil c 1 dto.records clean))
      (λ e t other same. upsert-records uuid id e t other ∙ same) wrote refl

-- If the ids of the records are different and below the counter, a call that goes through leaves
-- all records of an employee whom its caller may not manage, also an import with rows of others.
pub call-records :
    (c : Call) (actor : CurrentUser) (s s' : Attendance) (id : ℕ)
    → IsNumbered s
    → IsOutOfReach actor id s
    → call c actor s ≡ done s'
    → records_of id s' ≡ records_of id s
call-records c actor s s' id n out h = Change-records id (call-Change c actor s s' h) n out
