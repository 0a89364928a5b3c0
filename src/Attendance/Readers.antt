-- ===== src/Attendance/Readers.antt =====
-- Whom the report of missing attendance of backend/src/time-records/time-records.service.ts shows.
use mathlib.Core.Path.{subst}
use reg_pay.Prelude.{
  ℕ, suc, ◌-◌, ◌≡◌, ◌⊎◌, refl, arith, Bool, true, false, not, ◌&&◌, ◌||◌, List, [], ◌∷◌, map,
  Option, none, some, ◌==◌, ==_refl, any, keep, All, All-imp, Bool-cases, Option-cases, inl, inr,
}
use reg_pay.Permissions.{CurrentUser, has_effective_permission}
use reg_pay.Users.{is_id}
use reg_pay.Savings.Rows.{Employee, is_active}
use reg_pay.Attendance.Rows.{
  Attendance, employee_scope_where, ensure_actor_can_access_employee,
  ensure_actor_can_read_employee, in_where, is_system_admin,
}
use reg_pay.Attendance.Pending.{
  PendingEmployee, PendingFilters, PendingRefusal, PendingResponse, Period, find_pending,
  is_pending, list_pending, listed, no_period, pending_employee, pending_employees, pending_in,
  pending_where, period, resolve_pending_period,
}
use reg_pay.Attendance.Missing.{days_from, enumerate_date_keys-days}

-- The caller may read the attendance of the employee, as the check of a single employee has it.
abbrev pub may_read : CurrentUser → Employee → Bool
may_read actor e =
    elim (ensure_actor_can_read_employee actor e.working_location_id e.department_id) [
      | none ↦ true
      | some f ↦ false
    ]

-- An employee of a report: active, not deleted, and one that the caller may read.
abbrev pub is_shown : CurrentUser → Employee → Bool
is_shown actor e = is_active e.status && (not e.is_deleted && may_read actor e)

-- The location that a query asks for is one that the check lets the caller ask for.
abbrev is_allowed : CurrentUser → Option ℕ → Bool
is_allowed actor none = true
is_allowed actor (some id) =
    is_system_admin actor
    || (has_effective_permission actor "attendance.read_all" || is_id actor.working_location_id id)

in_where-may_read :
    (actor : CurrentUser) (location : Option ℕ) (e : Employee)
    → is_allowed actor location ≡ true
    → in_where (pending_where actor location) e ≡ true
    → (not e.is_deleted && may_read actor e) ≡ true
unfolding employee_scope_where ensure_actor_can_read_employee ensure_actor_can_access_employee
in_where-may_read actor none e allowed h = ground arith
in_where-may_read actor (some id) e allowed h = ground arith

-- What passes a test among some employees is found among them by its id.
All-found :
    (q r : Employee → Bool) (es : List Employee)
    → ((e : Employee) → q e ≡ true → r e ≡ true)
    → All (λ (e : Employee). any (λ (x : Employee). (x.id == e.id) && r x) es ≡ true) (keep q es)
All-found q r [] passes = tt
All-found q r (e ∷ es) passes =
    let later =
      All-imp _ (λ (y : Employee). any (λ (x : Employee). (x.id == y.id) && r x) (e ∷ es) ≡ true)
        (keep q es) (λ x h. ground arith) (All-found q r es passes) in
    elim (Bool-cases (q e)) [
      | inl hit ↦ rw hit (rw (==_refl e.id, passes e hit) refl, later)
      | inr miss ↦ rw miss later
    ]

All-listed :
    (P : ℕ → Type 0) (days : List ℕ) (dates : ℕ → List ℕ) (es : List Employee)
    → All (λ (e : Employee). P e.id) es
    → All
        (λ (p : PendingEmployee). P p.employee_id)
        (keep is_pending (map (pending_employee days dates) es))
All-listed P days dates [] h = tt
All-listed P days dates (e ∷ es) h =
    elim (Bool-cases (is_pending (pending_employee days dates e))) [
      | inl hit ↦ rw hit (h.0, All-listed P days dates es h.1)
      | inr miss ↦ rw miss (All-listed P days dates es h.1)
    ]

-- Each entry of a report is about an employee that it may show.
abbrev pub AreShown : CurrentUser → List Employee → List PendingEmployee → Type 0
AreShown actor es =
    All (λ p. any (λ (e : Employee). (e.id == p.employee_id) && is_shown actor e) es ≡ true)

list_pending-AreShown :
    (actor : CurrentUser) (location : Option ℕ) (filters : PendingFilters) (start last : ℕ)
    (days : List ℕ) (s : Attendance)
    → is_allowed actor location ≡ true
    → AreShown actor s.employees
        (list_pending start last days
          (pending_employees actor location filters s.employees)
          s.records).pending
unfolding list_pending
list_pending-AreShown actor location filters start last days s allowed =
    All-listed (λ id. any (λ (e : Employee). (e.id == id) && is_shown actor e) s.employees ≡ true)
      days _ (pending_employees actor location filters s.employees)
      (All-found _ (is_shown actor) s.employees (λ e h.
        let readable = in_where-may_read actor location e allowed (ground arith) in ground arith))

listed-injective : {a b : PendingResponse} → listed a ≡ listed b → a ≡ b
listed-injective e = cc

pending_in-AreShown :
    (actor : CurrentUser) (filters : PendingFilters) (start last : ℕ) (days : List ℕ)
    (s : Attendance) (report : PendingResponse)
    → pending_in actor filters start last days s ≡ listed report
    → AreShown actor s.employees report.pending
unfolding pending_in
pending_in-AreShown actor filters start last days s report h =
    let shows : (r : PendingResponse)
        → r ≡ report
        → AreShown actor s.employees r.pending
        → AreShown actor s.employees report.pending =
      λ r same shown.
        subst (λ (t : PendingResponse). AreShown actor s.employees t.pending) same shown in
    elim (Option-cases filters.working_location_id) [
      | inl all ↦
          shows _ (listed-injective (rw (pending_in, all) at h))
            (list_pending-AreShown actor none filters start last days s refl)
      | inr (o, asked) ↦ elim (Option-cases o) [
        | inl unknown ↦ shows _ (listed-injective (rw (pending_in, asked, unknown) at h)) tt
        | inr (id, known) ↦
            elim (Bool-cases (
              not (is_system_admin actor)
              && (not (has_effective_permission actor "attendance.read_all")
                  && not (is_id actor.working_location_id id)))) [
                    | inl other ↦ absurd (let n = rw (pending_in, asked, known, other) at h in cc)
                    | inr own ↦
                        shows _ (listed-injective (rw (pending_in, asked, known, own) at h)) (
                          list_pending-AreShown actor (some id) filters start last days s
                            (ground arith))
                  ]
      ]
    ]

Period-cases :
    (p : Period)
    → ((r : PendingRefusal) × (p ≡ no_period r)) ⊎ ((a : ℕ) × (b : ℕ) × (p ≡ period a b))
Period-cases (no_period r) = inl (r, refl)
Period-cases (period a b) = inr (a, b, refl)

-- Every employee whom the report of missing attendance lists is in the table, active and not deleted,
-- and one whose attendance the caller may read by the check that the query of a single employee makes,
-- whatever location and category are asked for.
pub find_pending-AreShown :
    (today month_start : ℕ) (actor : CurrentUser) (filters : PendingFilters) (s : Attendance)
    (report : PendingResponse)
    → find_pending today month_start actor filters s ≡ listed report
    → AreShown actor s.employees report.pending
unfolding find_pending
find_pending-AreShown today month_start actor filters s report h =
    elim (Period-cases (resolve_pending_period today month_start filters)) [
      | inl (refusal, none_chosen) ↦ absurd (let n = rw (find_pending, none_chosen) at h in cc)
      | inr (start, last, chosen) ↦
          pending_in-AreShown actor filters start last (days_from start (suc last - start)) s report
            (rw (find_pending, chosen, (enumerate_date_keys-days 0 start last).0) at h)
    ]
