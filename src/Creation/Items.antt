-- ===== src/Creation/Items.antt =====
-- The items that the writes of a created batch leave, and what the pause of contracts leaves.
use mathlib.Core.Path.{subst}
use mathlib.Core.Option.{some-injective}
use reg_pay.Prelude.{
  ℕ, ◌<◌, ◌≡◌, ◌⊎◌, refl, sym, ap, ◌∙◌, arith, Bool, true, false, not, List, [], ◌∷◌, ◌++◌, Option,
  none, some, keep, map, ltb, All, All-imp, Bool-cases, Option-cases, inl, inr, ==_refl,
}
use reg_pay.Permissions.{CurrentUser}
use reg_pay.Payroll.Schema.{Batch, Db, Env, Item, in_batch}
use reg_pay.Payroll.Log.{audit, clear_payroll_cache}
use reg_pay.Attendance.Calls.{List-cases}
use reg_pay.Creation.Number.{Number}
use reg_pay.Creation.Rows.{Calculation, Calendar, CreateBatchDto, Tables, Worker}
use reg_pay.Creation.Inputs.{find_structure, period_of}
use reg_pay.Creation.Calculation.{
  Calculated, calculate_employee_payroll, calculated, calculation_of, basis_of, no_structure,
  reversed_period,
}
use reg_pay.Creation.Batch.{State, auto_pause_expired_contracts, find_draft, is_expired, log_pauses}
use reg_pay.Creation.Writes.{
  calculate_all, id_or, new_item, open_batch, write_batch, write_calculations,
}
use reg_pay.Creation.Frame.{
  Agrees, adjust_for_savings-others, append_nil, items_of, keep-append, notify_unless_draft-Agrees,
}

-- No item is of a batch that is still to come.
abbrev pub IsNumbered : Db → Type 0
IsNumbered db = All (λ (i : Item). i.payment_batch_id < db.next_batch_id) db.items

keep-none : {A : Type 0} (p : A → Bool) (xs : List A) → All (λ x. p x ≡ false) xs → keep p xs ≡ []
keep-none p [] h = refl
keep-none p (x ∷ xs) h = rw h.0 (keep-none p xs h.1)

keep-other : {A : Type 0} (p : A → Bool) (xs : List A) → keep p (keep (λ x. not (p x)) xs) ≡ []
keep-other p [] = refl
keep-other p (x ∷ xs) = elim (Bool-cases (p x)) [
  | inl here ↦ rw here (keep-other p xs)
  | inr miss ↦ rw miss (rw miss (keep-other p xs))
]

pub All-passed : {A : Type 0} (p : A → Bool) (xs : List A) → All (λ x. p x ≡ true) (keep p xs)
All-passed p [] = tt
All-passed p (x ∷ xs) = elim (Bool-cases (p x)) [
  | inl here ↦ rw here (here, All-passed p xs)
  | inr miss ↦ rw miss (All-passed p xs)
]

module _ {W : Type 0} (N : Number W) (calendar : Calendar) where
  pub Calculated-cases :
      (r : Calculated N calendar)
      → (r ≡ reversed_period) ⊎ (r ≡ no_structure) ⊎ ((c : Calculation W) × (r ≡ calculated c))
  Calculated-cases reversed_period = inl refl
  Calculated-cases no_structure = inr (inl refl)
  Calculated-cases (calculated c) = inr (inr (c, refl))

  pub calculated-injective :
      {c d : Calculation W} → ◌≡◌ {A = Calculated N calendar} (calculated c) (calculated d) → c ≡ d
  calculated-injective e = cc

  calculate_employee_payroll-id :
      (tables : Tables W) (dto : CreateBatchDto W) (e : Worker) (c : Calculation W)
      → calculate_employee_payroll N calendar tables dto e ≡ calculated c
      → c.employee_id ≡ e.id
  unfolding calculate_employee_payroll calculation_of basis_of
  calculate_employee_payroll-id tables dto e c h =
      let p = period_of N calendar dto in
      elim (Bool-cases (ltb p.last p.start)) [
        | inl reversed ↦ absurd (let n = rw (calculate_employee_payroll, reversed) at h in cc)
        | inr forth ↦ elim (Option-cases (find_structure N calendar e.id p tables.structures)) [
          | inl unpaid ↦ absurd (let n = rw (calculate_employee_payroll, forth, unpaid) at h in cc)
          | inr (st, paid) ↦
              ap (λ (d : Calculation W). d.employee_id)
                (sym (calculated-injective (rw (calculate_employee_payroll, forth, paid) at h)))
        ]
      ]

  -- What holds of the ids of the employees holds of those of their calculations.
  pub calculate_all-All :
      (P : ℕ → Type 0) (tables : Tables W) (dto : CreateBatchDto W) (es : List Worker)
      (cs : List (Calculation W))
      → All (λ (e : Worker). P e.id) es
      → calculate_all N calendar tables dto es ≡ some cs
      → All P (map (λ (c : Calculation W). c.employee_id) cs)
  unfolding calculate_all
  calculate_all-All P tables dto [] cs h e =
      subst (λ ds. All P (map (λ (c : Calculation W). c.employee_id) ds)) (some-injective _ _ e) tt
  calculate_all-All P tables dto (w ∷ ws) cs h e =
      elim (Calculated-cases (calculate_employee_payroll N calendar tables dto w)) [
        | inl thrown ↦ absurd (let n = rw (calculate_all, thrown) at e in cc)
        | inr (inl unpaid) ↦
            calculate_all-All P tables dto ws cs h.1 (rw (calculate_all, unpaid) at e)
        | inr (inr (c, paid)) ↦ elim (Option-cases (calculate_all N calendar tables dto ws)) [
          | inl thrown ↦ absurd (let n = rw (calculate_all, paid, thrown) at e in cc)
          | inr (ds, rest) ↦
              subst (λ ds. All P (map (λ (c : Calculation W). c.employee_id) ds))
                (some-injective _ _ (rw (calculate_all, paid, rest) at e))
                (
                  subst P (sym (calculate_employee_payroll-id tables dto w c paid)) h.0,
                  calculate_all-All P tables dto ws ds h.1 rest,
                )
        ]
      ]

  append_assoc : {A : Type 0} (xs ys zs : List A) → (xs ++ ys) ++ zs ≡ xs ++ (ys ++ zs)
  append_assoc [] ys zs = refl
  append_assoc (x ∷ xs) ys zs = ap (λ rest. x ∷ rest) (append_assoc xs ys zs)

  employees_append :
      (xs ys : List Item)
      → map (λ (i : Item). i.employee_id) (xs ++ ys)
        ≡ map (λ (i : Item). i.employee_id) xs ++ map (λ (i : Item). i.employee_id) ys
  employees_append [] ys = refl
  employees_append (x ∷ xs) ys = ap (λ rest. x.employee_id ∷ rest) (employees_append xs ys)

  write_calculations-items :
      (env : Env) (id : ℕ) (cs : List (Calculation W)) (s : State W)
      → map
          (λ (i : Item). i.employee_id)
          (items_of id (write_calculations N calendar env id cs s).db)
        ≡ map (λ (i : Item). i.employee_id) (items_of id s.db)
          ++ map (λ (c : Calculation W). c.employee_id) cs
  unfolding write_calculations
  write_calculations-items env id [] s = sym (append_nil _)
  write_calculations-items env id (c ∷ cs) s =
      let new = new_item N calendar env s.next_item_id id s.next_transaction_id c in
      let one : keep (in_batch id) (new ∷ []) ≡ new ∷ [] = rw (==_refl id) refl in
      write_calculations-items env id cs _
      ∙ ap
          (λ is.
            map (λ (i : Item). i.employee_id) is ++ map (λ (c : Calculation W). c.employee_id) cs)
          (keep-append (in_batch id) s.db.items (new ∷ []) ∙ ap (λ is. items_of id s.db ++ is) one)
      ∙ ap (λ is. is ++ map (λ (c : Calculation W). c.employee_id) cs)
          (employees_append (items_of id s.db) (new ∷ []))
      ∙ append_assoc (map (λ (i : Item). i.employee_id) (items_of id s.db)) (c.employee_id ∷ [])
          (map (λ (c : Calculation W). c.employee_id) cs)

  open_batch-items :
      (env : Env) (actor : CurrentUser) (dto : CreateBatchDto W) (cs : List (Calculation W))
      (draft : Option Batch) (db : Db)
      → IsNumbered db
      → items_of
          (id_or N calendar db.next_batch_id draft)
          (open_batch N calendar env actor dto cs draft db)
        ≡ []
  unfolding open_batch
  open_batch-items env actor dto cs none db n =
      keep-none _ db.items (All-imp _ _ db.items (λ i below. ground arith) n)
  open_batch-items env actor dto cs (some draft) db n = keep-other (in_batch draft.id) db.items

  -- The items of a created batch are for the employees of its calculations, in their order.
  pub write_batch-items :
      (env : Env) (actor : CurrentUser) (dto : CreateBatchDto W) (cs : List (Calculation W))
      (s : State W)
      → IsNumbered s.db
      → map
          (λ (i : Item). i.employee_id)
          (items_of
            (id_or N calendar s.db.next_batch_id (find_draft dto s.db))
            (write_batch N calendar env actor dto cs s).db)
        ≡ map (λ (c : Calculation W). c.employee_id) cs
  unfolding write_batch audit clear_payroll_cache
  write_batch-items env actor dto cs s n =
      let draft = find_draft dto s.db in
      let id = id_or N calendar s.db.next_batch_id draft in
      let start = record s { db = open_batch N calendar env actor dto cs draft s.db } in
      let filled = write_calculations N calendar env id cs start in
      ap (λ is. map (λ (i : Item). i.employee_id) (keep (in_batch id) is))
        ((notify_unless_draft-Agrees N calendar actor dto id _).1
          ∙ (adjust_for_savings-others N calendar id cs filled).1)
      ∙ write_calculations-items env id cs start
      ∙ ap
          (λ is.
            map (λ (i : Item). i.employee_id) is ++ map (λ (c : Calculation W). c.employee_id) cs)
          (open_batch-items env actor dto cs draft s.db n)

  -- The pause of expired contracts leaves the batches and the items.
  pub log_pauses-db :
      (es : List Worker) (db : Db)
      → Agrees db (log_pauses es db) × ((log_pauses es db).next_batch_id ≡ db.next_batch_id)
  unfolding log_pauses audit
  log_pauses-db [] db = ((refl, refl), refl)
  log_pauses-db (e ∷ es) db = log_pauses-db es _

  pub auto_pause-db :
      (today location : ℕ) (s : State W)
      → let db' = (auto_pause_expired_contracts today location s).db in
        Agrees s.db db' × (db'.next_batch_id ≡ s.db.next_batch_id)
  unfolding auto_pause_expired_contracts
  auto_pause-db today location s = elim (List-cases (keep (is_expired today location) s.workers)) [
    | inl nobody ↦ rw (auto_pause_expired_contracts, nobody) ((refl, refl), refl)
    | inr (e, es, somebody) ↦
        rw (auto_pause_expired_contracts, somebody) (log_pauses-db (e ∷ es) s.db)
  ]
