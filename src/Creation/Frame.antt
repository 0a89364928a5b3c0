-- ===== src/Creation/Frame.antt =====
-- What the creation of a batch leaves as it was.
use reg_pay.Prelude.{
  ℕ, ◌≡◌, refl, ap, ◌∙◌, Bool, not, List, [], ◌∷◌, ◌++◌, Option, none, some, ◌==◌, keep, map,
  Bool-cases, Option-cases, inl, inr, ==_refl,
}
use reg_pay.Permissions.{CurrentUser}
use reg_pay.Payroll.Schema.{Batch, Db, Env, Item, find_batch_id, in_batch, update_batch}
use reg_pay.Payroll.Log.{audit, clear_payroll_cache, notify}
use reg_pay.Payroll.Review.Tables.{every, keep-update_where}
use reg_pay.Savings.Handlers.{Deduction, deduct_for_batch}
use reg_pay.Attendance.Calls.{List-cases}
use reg_pay.Payroll.Schema.{find_where}
use reg_pay.Creation.Number.{Number}
use reg_pay.Creation.Rows.{Calculation, Calendar, CreateBatchDto}
use reg_pay.Creation.Batch.{State, find_draft, is_draft}
use reg_pay.Creation.Writes.{
  adjust, adjust_for_savings, id_or, is_calculation_of, notify_unless_draft, open_batch,
  write_batch, write_calculations,
}

-- The batches but one, and the items of the others.
abbrev pub other_batches : ℕ → Db → List Batch
other_batches id db = keep (λ b. not (b.id == id)) db.batches

abbrev pub other_items : ℕ → Db → List Item
other_items id db = keep (λ i. not (in_batch id i)) db.items

abbrev pub items_of : ℕ → Db → List Item
items_of id db = keep (λ i. in_batch id i) db.items

-- Two states of the tables have the same batches and items.
abbrev pub Agrees : Db → Db → Type 0
Agrees db db' = (db'.batches ≡ db.batches) × (db'.items ≡ db.items)

keep-twice : {A : Type 0} (p : A → Bool) (xs : List A) → keep p (keep p xs) ≡ keep p xs
keep-twice p [] = refl
keep-twice p (x ∷ xs) = elim (Bool-cases (p x)) [
  | inl here ↦ rw here (rw here (ap (λ rest. x ∷ rest) (keep-twice p xs)))
  | inr miss ↦ rw miss (keep-twice p xs)
]

pub keep-append :
    {A : Type 0} (p : A → Bool) (xs ys : List A) → keep p (xs ++ ys) ≡ keep p xs ++ keep p ys
keep-append p [] ys = refl
keep-append p (x ∷ xs) ys = elim (Bool-cases (p x)) [
  | inl here ↦ rw here (ap (λ rest. x ∷ rest) (keep-append p xs ys))
  | inr miss ↦ rw miss (keep-append p xs ys)
]

pub append_nil : {A : Type 0} (xs : List A) → xs ++ [] ≡ xs
append_nil [] = refl
append_nil (x ∷ xs) = ap (λ rest. x ∷ rest) (append_nil xs)

others-update :
    (id : ℕ) (f : Batch → Batch) (bs : List Batch)
    → ((b : Batch) → (f b).id ≡ b.id)
    → keep (λ b. not (b.id == id)) (update_batch id f bs)
      ≡ keep (λ (b : Batch). not (b.id == id)) bs
others-update id f bs kept =
    keep-update_where (λ b. not (b.id == id)) (λ b. b.id == id) f bs
      (every (λ b hit. (ap not hit, rw (kept b) (ap not hit))) bs)

module _ {W : Type 0} (N : Number W) (calendar : Calendar) where
  -- Opening a batch leaves the others and their items.
  open_batch-others :
      (env : Env) (actor : CurrentUser) (dto : CreateBatchDto W) (cs : List (Calculation W))
      (draft : Option Batch) (db : Db)
      → let db' = open_batch N calendar env actor dto cs draft db in
        let id = id_or N calendar db.next_batch_id draft in
        (other_batches id db' ≡ other_batches id db) × (other_items id db' ≡ other_items id db)
  unfolding open_batch
  open_batch-others env actor dto cs none db =
      (keep-append _ db.batches _ ∙ rw (==_refl db.next_batch_id) (append_nil _), refl)
  open_batch-others env actor dto cs (some draft) db =
      (others-update draft.id _ db.batches (λ b. refl), keep-twice _ db.items)

  pub write_calculations-others :
      (env : Env) (id : ℕ) (cs : List (Calculation W)) (s : State W)
      → let db' = (write_calculations N calendar env id cs s).db in
        (db'.batches ≡ s.db.batches) × (other_items id db' ≡ other_items id s.db)
  unfolding write_calculations
  write_calculations-others env id [] s = (refl, refl)
  write_calculations-others env id (c ∷ cs) s =
      let (bs, os) = write_calculations-others env id cs _ in
      (bs, os ∙ keep-append _ s.db.items _ ∙ rw (==_refl id) (append_nil _))

  pub adjust-Agrees :
      (id : ℕ) (ds : List Deduction) (cs : List (Calculation W)) (db : Db)
      → Agrees db (adjust N calendar id ds cs db).1
  unfolding adjust
  adjust-Agrees id [] cs db = (refl, refl)
  adjust-Agrees id (d ∷ ds) cs db =
      elim (Option-cases (find_where (is_calculation_of N calendar d.employee_id) cs)) [
        | inl missing ↦ rw (adjust, missing) (adjust-Agrees id ds cs db)
        | inr (c, found) ↦ rw (adjust, found) (adjust-Agrees id ds _ _)
      ]

  pub adjust_for_savings-others :
      (id : ℕ) (cs : List (Calculation W)) (s : State W)
      → let db' = (adjust_for_savings N calendar id cs s).db in
        (other_batches id db' ≡ other_batches id s.db) × (db'.items ≡ s.db.items)
  unfolding adjust_for_savings
  adjust_for_savings-others id cs s =
      let employees = map (λ (c : Calculation W). c.employee_id) cs in
      elim (List-cases (deduct_for_batch id employees s.savings).0) [
        | inl nothing ↦ rw (adjust_for_savings, nothing) (refl, refl)
        | inr (d, ds, some_taken) ↦
            let agrees = adjust-Agrees id (d ∷ ds) cs s.db in
            rw (adjust_for_savings, some_taken)
              (
                others-update id _ _ (λ b. refl)
                    ∙ ap (keep (λ (b : Batch). not (b.id == id))) agrees.0,
                agrees.1,
              )
      ]

  pub notify_unless_draft-Agrees :
      (actor : CurrentUser) (dto : CreateBatchDto W) (id : ℕ) (db : Db)
      → Agrees db (notify_unless_draft N calendar actor dto id db)
  unfolding notify_unless_draft notify
  notify_unless_draft-Agrees actor dto id db = elim (Option-cases (find_batch_id id db)) [
    | inl missing ↦ rw (notify_unless_draft, missing) (refl, refl)
    | inr (b, found) ↦ elim (Bool-cases (is_draft b.status)) [
      | inl draft ↦ rw (notify_unless_draft, found, draft) (refl, refl)
      | inr sent ↦ rw (notify_unless_draft, found, sent) (refl, refl)
    ]
  ]

  -- The writes of a creation leave the other batches and their items.
  pub write_batch-others :
      (env : Env) (actor : CurrentUser) (dto : CreateBatchDto W) (cs : List (Calculation W))
      (s : State W)
      → let db' = (write_batch N calendar env actor dto cs s).db in
        let id = id_or N calendar s.db.next_batch_id (find_draft dto s.db) in
        (other_batches id db' ≡ other_batches id s.db) × (other_items id db' ≡ other_items id s.db)
  unfolding write_batch audit clear_payroll_cache
  write_batch-others env actor dto cs s =
      let draft = find_draft dto s.db in
      let id = id_or N calendar s.db.next_batch_id draft in
      let start = record s { db = open_batch N calendar env actor dto cs draft s.db } in
      let filled = write_calculations N calendar env id cs start in
      let opened = open_batch-others env actor dto cs draft s.db in
      let wrote = write_calculations-others env id cs start in
      let took = adjust_for_savings-others id cs filled in
      let sent = notify_unless_draft-Agrees actor dto id _ in
      (
        ap (keep (λ (b : Batch). not (b.id == id))) sent.0
            ∙ took.0
            ∙ ap (keep (λ (b : Batch). not (b.id == id))) wrote.0
            ∙ opened.0,
        ap (keep (λ i. not (in_batch id i))) (sent.1 ∙ took.1) ∙ wrote.1 ∙ opened.1,
      )
