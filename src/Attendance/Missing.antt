-- ===== src/Attendance/Missing.antt =====
-- What the report of missing attendance lists.
use reg_pay.Prelude.{
  ℕ, zero, suc, ◌+◌, ◌-◌, ◌≤◌, ◌≡◌, refl, sym, ap, ◌∙◌, arith, Bool, true, not, ◌&&◌, ◌||◌, List,
  [], ◌∷◌, map, Option, some, ◌==◌, ==_refl, leb, ltb, if◌then◌else◌, All, All-imp, Bool-cases, inl,
  inr, keep, length, any, any-append, map-eq_of_All,
}
use reg_pay.Permissions.{CurrentUser, has_effective_permission, compute_effective_permissions}
use reg_pay.Savings.Rows.{Employee}
use reg_pay.Attendance.Rows.{
  Attendance, TimeRecord, employee_scope_where, has_slot, is_system_admin,
}
use reg_pay.Attendance.Pending.{
  PendingEmployee, enumerate_date_keys, enumerate_from, fetched_records, FindAllFilters, find_all,
  records_where, pending_where, is_pending, list_pending, total_missing, PendingResponse, occurs,
  pending_employee, recorded_dates,
}

-- The days from a day on, in number.
abbrev pub days_from : (start count : ℕ) → List ℕ
days_from start zero = []
days_from start (suc count) = start ∷ days_from (suc start) count

enumerate_from-days :
    (fuel cursor last : ℕ)
    → suc last - cursor ≤ fuel
    → enumerate_from fuel cursor last ≡ some (days_from cursor (suc last - cursor))
unfolding enumerate_from
enumerate_from-days zero cursor last h =
    let over : suc last - cursor ≡ 0 = omega arith in rw over (ground arith)
enumerate_from-days (suc fuel) cursor last h = elim (Bool-cases (leb cursor last)) [
  | inl more ↦
      let one : suc last - cursor ≡ suc (suc last - suc cursor) = ground arith in
      rw (one, more, enumerate_from-days fuel (suc cursor) last (omega (arith, h, one))) refl
  | inr past ↦ let over : suc last - cursor ≡ 0 = ground arith in rw (over, past) refl
]

-- With the fuel that `enumerateDateKeys` is given its loop ends, at the days from the first to the
-- last, and more fuel does not change them.
pub enumerate_date_keys-days :
    (fuel start last : ℕ)
    → (enumerate_date_keys start last ≡ some (days_from start (suc last - start)))
      × (suc last - start ≤ fuel → enumerate_from fuel start last ≡ enumerate_date_keys start last)
unfolding enumerate_date_keys
enumerate_date_keys-days fuel start last =
    let ends = enumerate_from-days (suc last - start) start last (omega arith) in
    (ends, λ enough. enumerate_from-days fuel start last enough ∙ sym ends)

occurs-recorded_dates :
    (rs : List TimeRecord) (dates : ℕ → List ℕ) (id d : ℕ)
    → occurs d (recorded_dates rs dates id) ≡ (occurs d (dates id) || any (has_slot id d) rs)
unfolding recorded_dates
occurs-recorded_dates [] dates id d = ground arith
occurs-recorded_dates (r ∷ rs) dates id d =
    occurs-recorded_dates rs _ id d ∙ elim (Bool-cases (r.employee_id == id)) [
      | inl hit ↦
          rw hit (ground (arith, any-append (λ c. c == d) (dates id) (r.attendance_date ∷ [])))
      | inr miss ↦ rw miss refl
    ]

any-fetched :
    (start last : ℕ) (es : List Employee) (rs : List TimeRecord) (id d : ℕ)
    → any (λ (e : Employee). e.id == id) es ≡ true
    → (leb start d && leb d last) ≡ true
    → any (has_slot id d) (fetched_records start last es rs) ≡ any (has_slot id d) rs
any-fetched start last es [] id d held inside = refl
any-fetched start last es (r ∷ rs) id d held inside =
    let rest = any-fetched start last es rs id d held inside in
    elim (Bool-cases (has_slot id d r)) [
      | inl hit ↦
          let j : r.employee_id ≡ id = ground arith in
          let i : r.attendance_date ≡ d = ground arith in
          rw (j, i, held, inside, ==_refl id, ==_refl d) refl
      | inr miss ↦
          rw miss
            (elim (Bool-cases (
              any (λ (e : Employee). e.id == r.employee_id) es
              && (leb start r.attendance_date && leb r.attendance_date last))) [
                | inl kept ↦ rw (kept, miss) rest
                | inr dropped ↦ rw dropped rest
              ])
    ]

-- What the table says of an employee, day by day.
abbrev pub absences : List TimeRecord → List ℕ → Employee → PendingEmployee
absences records days e = record {
  employee_id = e.id;
  missing_dates = keep (λ d. not (any (has_slot e.id d) records)) days;
}

keep-eq_of_All {ℓ} :
    {A : Type ℓ} (p q : A → Bool) (xs : List A) → All (λ x. p x ≡ q x) xs → keep p xs ≡ keep q xs
keep-eq_of_All p q [] h = refl
keep-eq_of_All p q (x ∷ xs) h =
    rw h.0 (ap (λ rest. if q x then x ∷ rest else rest) (keep-eq_of_All p q xs h.1))

pending_employee-absences :
    (start last : ℕ) (days : List ℕ) (es : List Employee) (records : List TimeRecord)
    → All (λ d. (leb start d && leb d last) ≡ true) days
    → (e : Employee) → any (λ (x : Employee). x.id == e.id) es ≡ true
    → pending_employee days (recorded_dates (fetched_records start last es records) (λ id. [])) e
      ≡ absences records days e
pending_employee-absences start last days es records inside e held =
    ap (λ ds. record { employee_id = e.id; missing_dates = ds })
      (keep-eq_of_All _ _ days (
        All-imp _ _ days
          (λ d within. ap not (
            occurs-recorded_dates (fetched_records start last es records) (λ id. []) e.id d
            ∙ any-fetched start last es records e.id d held within))
          inside))

-- Every entry of a list is found by its id.
All-held :
    (es : List Employee) → All (λ (e : Employee). any (λ (x : Employee). x.id == e.id) es ≡ true) es
All-held [] = tt
All-held (e ∷ es) = (rw (==_refl e.id) refl, All-imp _ _ es (λ x h. ground arith) (All-held es))

days_from-inside :
    (start count last : ℕ)
    → start + count ≤ suc last
    → All (λ d. (leb start d && leb d last) ≡ true) (days_from start count)
days_from-inside start zero last h = tt
days_from-inside start (suc count) last h = (
  ground (arith, h),
  All-imp _ _ (days_from (suc start) count) (λ d i. ground arith)
      (days_from-inside (suc start) count last (omega (arith, h))),
)

is_pending-any {ℓ} :
    {A : Type ℓ} (p : A → Bool) (xs : List A) → ltb 0 (length (keep p xs)) ≡ any p xs
is_pending-any p [] = ground arith
is_pending-any p (x ∷ xs) = elim (Bool-cases (p x)) [
  | inl hit ↦ rw hit (ground arith)
  | inr miss ↦ rw miss (is_pending-any p xs)
]

-- The table has no record of the employee for one of the days.
abbrev pub misses : List TimeRecord → List ℕ → Employee → Bool
misses records days e = any (λ d. not (any (has_slot e.id d) records)) days

-- The pairs of an employee and a day without a record.
abbrev pub missing_entries : List TimeRecord → List ℕ → List Employee → ℕ
missing_entries records days [] = 0
missing_entries records days (e ∷ es) =
    length (keep (λ d. not (any (has_slot e.id d) records)) days) + missing_entries records days es

length-listed :
    (records : List TimeRecord) (days : List ℕ) (es : List Employee)
    → length (keep is_pending (map (absences records days) es))
      ≡ length (keep (misses records days) es)
length-listed records days [] = refl
length-listed records days (e ∷ es) =
    let same = is_pending-any (λ d. not (any (has_slot e.id d) records)) days in
    elim (Bool-cases (misses records days e)) [
      | inl some_day ↦ rw (same, some_day) (ap suc (length-listed records days es))
      | inr no_day ↦ rw (same, no_day) (length-listed records days es)
    ]

total_missing-listed :
    (records : List TimeRecord) (days : List ℕ) (es : List Employee)
    → total_missing (keep is_pending (map (absences records days) es))
      ≡ missing_entries records days es
total_missing-listed records days [] = refl
total_missing-listed records days (e ∷ es) =
    let rest = total_missing-listed records days es in
    elim (Bool-cases (is_pending (absences records days e))) [
      | inl listed ↦
          rw listed
            (ap (λ n. length (keep (λ d. not (any (has_slot e.id d) records)) days) + n) rest)
      | inr left_out ↦
          let none_left : length (absences records days e).missing_dates ≡ 0 = ground arith in
          rw (left_out, none_left) (ground (arith, rest))
    ]

-- The response with some entries and their counts
abbrev report : (start last : ℕ) → List PendingEmployee → PendingResponse
report start last ps = record {
  start_date = start;
  end_date = last;
  total_pending_employees = length ps;
  total_missing_entries = total_missing ps;
  pending = ps;
}

-- The report on the days from the first to the last lists, in their order, the employees that were
-- fetched with the days for which the table of records has none of theirs, where there are such
-- days. It counts the employees with such a day, and the pairs of an employee and such a day.
pub list_pending-absences :
    (start last : ℕ) (es : List Employee) (records : List TimeRecord)
    → start ≤ last
    → let days = days_from start (suc last - start) in
      list_pending start last days es records ≡ (record {
        start_date = start;
        end_date = last;
        total_pending_employees = length (keep (misses records days) es);
        total_missing_entries = missing_entries records days es;
        pending = keep is_pending (map (absences records days) es);
      })
unfolding list_pending
list_pending-absences start last es records h =
    let days = days_from start (suc last - start) in
    let inside = days_from-inside start (suc last - start) last (omega (arith, h)) in
    let found = map-eq_of_All _ (absences records days) es (
      All-imp _ _ es (pending_employee-absences start last days es records inside) (All-held es)) in
    ap (λ ps. report start last (keep is_pending ps)) found
    ∙ rw (← length-listed records days es, ← total_missing-listed records days es) refl

pending_where-elsewhere :
    (actor : CurrentUser) (own : Option ℕ) (location : ℕ)
    → pending_where (record actor { working_location_id = own }) (some location)
      ≡ pending_where actor (some location)
unfolding employee_scope_where has_effective_permission compute_effective_permissions
pending_where-elsewhere actor own location =
    elim (Bool-cases
      (is_system_admin actor || has_effective_permission actor "attendance.read_all")) [
        | inl wide ↦ rw wide refl
        | inr held ↦ rw held refl
      ]

-- What `findAll` returns for a location that is asked for, with whatever other filters, does not
-- depend on the location of the caller.
pub find_all-elsewhere :
    (actor : CurrentUser) (own : Option ℕ) (location : ℕ) (filters : FindAllFilters)
    (s : Attendance)
    → let asked = record filters { working_location_id = some (some location) } in
      find_all (record actor { working_location_id = own }) asked s ≡ find_all actor asked s
unfolding find_all
find_all-elsewhere actor own location filters s =
    ap (λ w. records_where w (record filters { working_location_id = some (some location) }) s)
      (pending_where-elsewhere actor own location)
