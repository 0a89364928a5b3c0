-- ===== src/Creation/Bounds.antt =====
-- No pay below zero, and the override of a base amount, in the calculation of
-- backend/src/payroll/payroll.service.ts.
use mathlib.Core.Path.{subst}
use mathlib.Core.Option.{some-injective}
use reg_pay.Prelude.{
  ℕ, ◌≡◌, refl, Bool, true, ◌||◌, List, [], ◌∷◌, Option, none, some, keep, map, ltb, All,
  All-append, Bool-cases, Option-cases, inl, inr,
}
use reg_pay.Prelude.Int.{pos, ◌≤ℤ◌}
use reg_pay.Permissions.{CurrentUser}
use reg_pay.Payroll.Schema.{Batch, Db, Env, Transaction, find_batch_id, find_where}
use reg_pay.Payroll.Log.{audit, clear_payroll_cache, notify}
use reg_pay.Payroll.Review.Tables.{All-update_where}
use reg_pay.Savings.Handlers.{Deduction, deduct_for_batch}
use reg_pay.Attendance.Calls.{List-cases}
use reg_pay.Creation.Number.{Number}
use reg_pay.Creation.Rows.{Calculation, Calendar, CreateBatchDto, Override, Tables, Worker}
use reg_pay.Creation.Inputs.{find_structure, period_of, is_monthly}
use reg_pay.Creation.Calculation.{
  Basis, calculate_employee_payroll, calculated, calculation_of, basis_of, pay, pay_days,
  pay_few_days, pay_monthly,
}
use reg_pay.Creation.Batch.{
  State, auto_pause_expired_contracts, find_draft, is_draft, is_expired, log_pauses,
}
use reg_pay.Creation.Writes.{
  adjust, adjust_for_savings, calculate_all, id_or, is_calculation_of, create_batch, pays_in,
  notify_unless_draft, open_batch, write_batch, write_calculations,
}
use reg_pay.Creation.Outcome.{create_batch-Ends}
use reg_pay.Creation.Items.{Calculated-cases, calculated-injective}

module _ {W : Type 0} (N : Number W) (calendar : Calendar) where
  open N use {max_zero, to_decimal}

  -- The base amount that a request gives is used only by the pay for 21 days at most: a monthly
  -- salary and the pay for more days are the same whatever the request overrides.
  pub pay-override :
      (b : Basis N calendar) (o : Option (Override W))
      → (is_monthly b.structure.payroll_frequency || ltb 21 b.present) ≡ true
      → pay N calendar (record b { override = o }) ≡ pay N calendar b
  unfolding pay pay_monthly pay_days
  pay-override b o h = elim (Bool-cases (is_monthly b.structure.payroll_frequency)) [
    | inl monthly ↦ rw monthly refl
    | inr daily ↦ let many : ltb 21 b.present ≡ true = rw daily at h in rw (daily, many) refl
  ]

  -- A net amount that is cut off at zero.
  abbrev IsCut : Calculation W → Type 0
  IsCut c = (x : W) × (c.net_amount ≡ max_zero x)

  pay-net : (b : Basis N calendar) → (x : W) × ((pay N calendar b).net ≡ max_zero x)
  unfolding pay pay_monthly pay_days pay_few_days
  pay-net b = elim (Bool-cases (is_monthly b.structure.payroll_frequency)) [
    | inl monthly ↦ rw (pay, monthly) (_, refl)
    | inr daily ↦ elim (Bool-cases (ltb 21 b.present)) [
      | inl many ↦ rw (pay, daily, many) (_, refl)
      | inr few ↦ rw (pay, daily, few) (_, refl)
    ]
  ]

  calculate_employee_payroll-IsCut :
      (tables : Tables W) (dto : CreateBatchDto W) (e : Worker) (c : Calculation W)
      → calculate_employee_payroll N calendar tables dto e ≡ calculated c
      → IsCut c
  unfolding calculate_employee_payroll calculation_of
  calculate_employee_payroll-IsCut tables dto e c h =
      let p = period_of N calendar dto in
      elim (Bool-cases (ltb p.last p.start)) [
        | inl reversed ↦ absurd (let n = rw (calculate_employee_payroll, reversed) at h in cc)
        | inr forth ↦ elim (Option-cases (find_structure N calendar e.id p tables.structures)) [
          | inl unpaid ↦ absurd (let n = rw (calculate_employee_payroll, forth, unpaid) at h in cc)
          | inr (st, paid) ↦
              subst IsCut
                (calculated-injective N calendar
                  (rw (calculate_employee_payroll, forth, paid) at h))
                (pay-net (basis_of N calendar tables dto e st))
        ]
      ]

  calculate_all-IsCut :
      (tables : Tables W) (dto : CreateBatchDto W) (es : List Worker) (cs : List (Calculation W))
      → calculate_all N calendar tables dto es ≡ some cs
      → All IsCut cs
  unfolding calculate_all
  calculate_all-IsCut tables dto [] cs e = subst (All IsCut) (some-injective _ _ e) tt
  calculate_all-IsCut tables dto (w ∷ ws) cs e =
      elim (Calculated-cases N calendar (calculate_employee_payroll N calendar tables dto w)) [
        | inl thrown ↦ absurd (let n = rw (calculate_all, thrown) at e in cc)
        | inr (inl unpaid) ↦ calculate_all-IsCut tables dto ws cs (rw (calculate_all, unpaid) at e)
        | inr (inr (c, paid)) ↦ elim (Option-cases (calculate_all N calendar tables dto ws)) [
          | inl thrown ↦ absurd (let n = rw (calculate_all, paid, thrown) at e in cc)
          | inr (ds, rest) ↦
              subst (All IsCut) (some-injective _ _ (rw (calculate_all, paid, rest) at e)) (
                calculate_employee_payroll-IsCut tables dto w c paid,
                calculate_all-IsCut tables dto ws ds rest,
              )
        ]
      ]

log_pauses-transactions :
    (es : List Worker) (db : Db) → (log_pauses es db).transactions ≡ db.transactions
unfolding log_pauses audit
log_pauses-transactions [] db = refl
log_pauses-transactions (e ∷ es) db = log_pauses-transactions es _

All-keep :
    (P : Transaction → Type 0) (p : Transaction → Bool) (xs : List Transaction)
    → All P xs
    → All P (keep p xs)
All-keep P p [] h = tt
All-keep P p (x ∷ xs) h = elim (Bool-cases (p x)) [
  | inl here ↦ rw here (h.0, All-keep P p xs h.1)
  | inr miss ↦ rw miss (All-keep P p xs h.1)
]

-- No transaction pays less than nothing.
abbrev pub IsNonnegative : List Transaction → Type 0
IsNonnegative = All (λ (t : Transaction). pos 0 ≤ℤ t.net_amount)

module _ {W : Type 0} (N : Number W) (calendar : Calendar)
    (cut : (x : W) → pos 0 ≤ℤ N.to_decimal (N.max_zero x)) where
  cut-net : (c : Calculation W) → IsCut N calendar c → pos 0 ≤ℤ N.to_decimal c.net_amount
  cut-net c (x, same) = rw same (cut x)

  write_calculations-IsNonnegative :
      (env : Env) (id : ℕ) (cs : List (Calculation W)) (s : State W)
      → All (IsCut N calendar) cs
      → IsNonnegative s.db.transactions
      → IsNonnegative (write_calculations N calendar env id cs s).db.transactions
  unfolding write_calculations
  write_calculations-IsNonnegative env id [] s h t = t
  write_calculations-IsNonnegative env id (c ∷ cs) s h t =
      write_calculations-IsNonnegative env id cs _ h.1
        (All-append _ s.db.transactions _ t (cut-net c h.0, tt))

  adjust-IsNonnegative :
      (id : ℕ) (ds : List Deduction) (cs : List (Calculation W)) (db : Db)
      → IsNonnegative db.transactions
      → IsNonnegative (adjust N calendar id ds cs db).1.transactions
  unfolding adjust
  adjust-IsNonnegative id [] cs db t = t
  adjust-IsNonnegative id (d ∷ ds) cs db t =
      elim (Option-cases (find_where (is_calculation_of N calendar d.employee_id) cs)) [
        | inl missing ↦ rw (adjust, missing) (adjust-IsNonnegative id ds cs db t)
        | inr (c, found) ↦
            rw (adjust, found)
              (adjust-IsNonnegative id ds _ _ (
                All-update_where _ (pays_in N calendar db id d.employee_id) _ db.transactions
                  (λ x _ _. cut _) t))
      ]

  adjust_for_savings-IsNonnegative :
      (id : ℕ) (cs : List (Calculation W)) (s : State W)
      → IsNonnegative s.db.transactions
      → IsNonnegative (adjust_for_savings N calendar id cs s).db.transactions
  unfolding adjust_for_savings
  adjust_for_savings-IsNonnegative id cs s t =
      elim (List-cases
        (deduct_for_batch id (map (λ (c : Calculation W). c.employee_id) cs) s.savings).0) [
          | inl nothing ↦ rw (adjust_for_savings, nothing) t
          | inr (d, ds, some_taken) ↦
              rw (adjust_for_savings, some_taken) (adjust-IsNonnegative id (d ∷ ds) cs s.db t)
        ]

  open_batch-IsNonnegative :
      (env : Env) (actor : CurrentUser) (dto : CreateBatchDto W) (cs : List (Calculation W))
      (draft : Option Batch) (db : Db)
      → IsNonnegative db.transactions
      → IsNonnegative (open_batch N calendar env actor dto cs draft db).transactions
  unfolding open_batch
  open_batch-IsNonnegative env actor dto cs none db t = t
  open_batch-IsNonnegative env actor dto cs (some draft) db t = All-keep _ _ db.transactions t

  notify_unless_draft-transactions :
      (actor : CurrentUser) (dto : CreateBatchDto W) (id : ℕ) (db : Db)
      → (notify_unless_draft N calendar actor dto id db).transactions ≡ db.transactions
  unfolding notify_unless_draft notify
  notify_unless_draft-transactions actor dto id db = elim (Option-cases (find_batch_id id db)) [
    | inl missing ↦ rw (notify_unless_draft, missing) refl
    | inr (b, found) ↦ elim (Bool-cases (is_draft b.status)) [
      | inl draft ↦ rw (notify_unless_draft, found, draft) refl
      | inr sent ↦ rw (notify_unless_draft, found, sent) refl
    ]
  ]

  write_batch-IsNonnegative :
      (env : Env) (actor : CurrentUser) (dto : CreateBatchDto W) (cs : List (Calculation W))
      (s : State W)
      → All (IsCut N calendar) cs
      → IsNonnegative s.db.transactions
      → IsNonnegative (write_batch N calendar env actor dto cs s).db.transactions
  unfolding write_batch audit clear_payroll_cache
  write_batch-IsNonnegative env actor dto cs s h t =
      let draft = find_draft dto s.db in
      let id = id_or N calendar s.db.next_batch_id draft in
      let start = record s { db = open_batch N calendar env actor dto cs draft s.db } in
      rw (notify_unless_draft-transactions actor dto id _) (
        adjust_for_savings-IsNonnegative id cs (write_calculations N calendar env id cs start) (
          write_calculations-IsNonnegative env id cs start h
            (open_batch-IsNonnegative env actor dto cs draft s.db t)))

  auto_pause-transactions :
      (today location : ℕ) (s : State W)
      → (auto_pause_expired_contracts today location s).db.transactions ≡ s.db.transactions
  unfolding auto_pause_expired_contracts
  auto_pause-transactions today location s =
      elim (List-cases (keep (is_expired today location) s.workers)) [
        | inl nobody ↦ rw (auto_pause_expired_contracts, nobody) refl
        | inr (e, es, somebody) ↦
            rw (auto_pause_expired_contracts, somebody) (log_pauses-transactions (e ∷ es) s.db)
      ]

  -- If a column keeps nothing below zero of a number that is cut off at zero, and no transaction
  -- pays less than nothing, so is it after a creation, whatever comes of it: also after deductions
  -- and savings contributions that exceed the pay.
  pub create_batch-IsNonnegative :
      (env : Env) (today : ℕ) (actor : CurrentUser) (dto : CreateBatchDto W) (s : State W)
      → IsNonnegative s.db.transactions
      → IsNonnegative (create_batch N calendar env today actor dto s).0.db.transactions
  create_batch-IsNonnegative env today actor dto s t =
      let started = auto_pause_expired_contracts today dto.working_location_id s in
      let t' : IsNonnegative started.db.transactions =
        rw (auto_pause-transactions today dto.working_location_id s) t in
      elim (create_batch-Ends N calendar env actor dto today s) [
        | inl (e, stopped) ↦ rw stopped t
        | inr (inl (e, stopped)) ↦ rw stopped t'
        | inr (inr (b, named, went)) ↦
            subst (λ (r : State W). IsNonnegative r.db.transactions) went.written
              (write_batch-IsNonnegative env actor dto went.calculations started
                (calculate_all-IsCut N calendar started.tables dto _ went.calculations
                  went.eligible)
                t')
      ]
