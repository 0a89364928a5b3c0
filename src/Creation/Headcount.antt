-- ===== src/Creation/Headcount.antt =====
-- The number of employees that `createBatch` of backend/src/payroll/payroll.service.ts writes to a
-- batch.
use mathlib.Core.Path.{subst}
use mathlib.Core.Option.{some-injective}
use reg_pay.Prelude.{
  ℕ, suc, ◌<◌, ◌≡◌, refl, sym, ap, ◌∙◌, arith, true, List, [], ◌∷◌, some, ◌==◌, ==_refl, any,
  any-append, map, length, All, All-append, All-imp, Bool, Bool-cases, Option-cases, inl, inr,
}
use reg_pay.Prelude.Int.{ℤ, pos}
use reg_pay.Permissions.{CurrentUser}
use reg_pay.Payroll.Schema.{Batch, Db, Env, Item, find_where, update_batch}
use reg_pay.Payroll.Log.{audit, clear_payroll_cache}
use reg_pay.Payroll.Review.Tables.{All-update_where}
use reg_pay.Savings.Handlers.{deduct_for_batch}
use reg_pay.Attendance.Calls.{List-cases}
use reg_pay.Creation.Number.{Number}
use reg_pay.Creation.Rows.{Calculation, Calendar, CreateBatchDto}
use reg_pay.Creation.Batch.{State, auto_pause_expired_contracts, created, find_draft}
use reg_pay.Creation.Writes.{
  adjust_for_savings, create_batch, id_or, open_batch, write_batch, write_calculations,
}
use reg_pay.Creation.Frame.{
  adjust-Agrees, items_of, notify_unless_draft-Agrees, write_calculations-others,
}
use reg_pay.Creation.Items.{IsNumbered, auto_pause-db, write_batch-items}
use reg_pay.Creation.Effects.{created-IsCreation}

-- A batch has the id, and each batch with it has the number of employees.
abbrev pub Counts : (batch : ℕ) → ℤ → List Batch → Type 0
Counts batch n bs =
    (any (λ (b : Batch). b.id == batch) bs ≡ true)
    × All (λ (b : Batch). b.id ≡ batch → b.total_employees ≡ n) bs

length-map {ℓ κ} :
    {A : Type ℓ} {B : Type κ} (f : A → B) (xs : List A) → length (map f xs) ≡ length xs
length-map f [] = refl
length-map f (x ∷ xs) = ap suc (length-map f xs)

-- An update of one batch that keeps the ids
any-update :
    (id : ℕ) (f : Batch → Batch) (bs : List Batch)
    → ((b : Batch) → (f b).id ≡ b.id)
    → any (λ (b : Batch). b.id == id) (update_batch id f bs) ≡ any (λ (b : Batch). b.id == id) bs
any-update id f [] kept = refl
any-update id f (b ∷ bs) kept = elim (Bool-cases (b.id == id)) [
  | inl hit ↦ rw (hit, kept b, hit) refl
  | inr miss ↦ rw (miss, miss) (any-update id f bs kept)
]

All-counted :
    (id : ℕ) (n : ℤ) (f : Batch → Batch) (bs : List Batch)
    → ((b : Batch) → (f b).total_employees ≡ n)
    → All (λ (b : Batch). b.id ≡ id → b.total_employees ≡ n) (update_batch id f bs)
All-counted id n f [] counts = tt
All-counted id n f (b ∷ bs) counts = elim (Bool-cases (b.id == id)) [
  | inl hit ↦ rw hit ((λ e. counts b), All-counted id n f bs counts)
  | inr miss ↦ rw miss ((λ e. absurd (ground arith)), All-counted id n f bs counts)
]

find-present :
    (p : Batch → Bool) (bs : List Batch) {b : Batch}
    → find_where p bs ≡ some b
    → any (λ (x : Batch). x.id == b.id) bs ≡ true
find-present p [] h = cc
find-present p (x ∷ xs) {b} h = elim (Bool-cases (p x)) [
  | inl hit ↦ let same : x ≡ b = some-injective _ _ (rw hit at h) in rw (same, ==_refl b.id) refl
  | inr miss ↦ let later = find-present p xs (rw miss at h) in ground arith
]

module _ {W : Type 0} (N : Number W) (calendar : Calendar) where
  open_batch-Counts :
      (env : Env) (actor : CurrentUser) (dto : CreateBatchDto W) (cs : List (Calculation W))
      (db : Db)
      → All (λ (b : Batch). b.id < db.next_batch_id) db.batches
      → let draft = find_draft dto db in
        Counts
          (id_or N calendar db.next_batch_id draft)
          (pos (length cs))
          (open_batch N calendar env actor dto cs draft db).batches
  unfolding open_batch
  open_batch-Counts env actor dto cs db below = elim (Option-cases (find_draft dto db)) [
    | inl nothing ↦
        rw (nothing, open_batch)
          (
            any-append (λ (b : Batch). b.id == db.next_batch_id) db.batches _
                ∙ rw (==_refl db.next_batch_id) (ground arith),
            All-append _ db.batches _
                (All-imp _ _ db.batches (λ b lower e. absurd (ground arith)) below)
                ((λ e. refl), tt),
          )
    | inr (draft, found) ↦
        rw (found, open_batch)
          (
            any-update draft.id _ db.batches (λ b. refl) ∙ find-present _ db.batches found,
            All-counted draft.id (pos (length cs)) _ db.batches (λ b. refl),
          )
  ]

  adjust_for_savings-Counts :
      (id : ℕ) (n : ℤ) (cs : List (Calculation W)) (s : State W)
      → Counts id n s.db.batches
      → Counts id n (adjust_for_savings N calendar id cs s).db.batches
  unfolding adjust_for_savings
  adjust_for_savings-Counts id n cs s h =
      let employees = map (λ (c : Calculation W). c.employee_id) cs in
      elim (List-cases (deduct_for_batch id employees s.savings).0) [
        | inl nothing ↦ rw (adjust_for_savings, nothing) h
        | inr (d, ds, some_taken) ↦
            let (here, counted) =
              subst (Counts id n) (sym (adjust-Agrees N calendar id (d ∷ ds) cs s.db).0) h in
            rw (adjust_for_savings, some_taken)
              (
                any-update id _ _ (λ b. refl) ∙ here,
                All-update_where _ (λ (b : Batch). b.id == id) _ _ (λ b _ c. c) counted,
              )
      ]

  write_batch-Counts :
      (env : Env) (actor : CurrentUser) (dto : CreateBatchDto W) (cs : List (Calculation W))
      (s : State W)
      → All (λ (b : Batch). b.id < s.db.next_batch_id) s.db.batches
      → Counts
          (id_or N calendar s.db.next_batch_id (find_draft dto s.db))
          (pos (length cs))
          (write_batch N calendar env actor dto cs s).db.batches
  unfolding write_batch audit clear_payroll_cache
  write_batch-Counts env actor dto cs s below =
      let draft = find_draft dto s.db in
      let id = id_or N calendar s.db.next_batch_id draft in
      let start = record s { db = open_batch N calendar env actor dto cs draft s.db } in
      let filled = write_calculations N calendar env id cs start in
      let wrote = write_calculations-others N calendar env id cs start in
      let took = adjust_for_savings-Counts id (pos (length cs)) cs filled (
        subst (Counts id (pos (length cs))) (sym wrote.0)
          (open_batch-Counts env actor dto cs s.db below)) in
      subst (Counts id (pos (length cs)))
        (sym (notify_unless_draft-Agrees N calendar actor dto id _).0) took

  -- If the ids of the batches, and those that the items name, are below the counter, a creation that
  -- goes through leaves a row of its batch, and each row with this id says as its number of employees
  -- how many items the batch has.
  pub create_batch-Counts :
      (env : Env) (today : ℕ) (actor : CurrentUser) (dto : CreateBatchDto W) (s : State W)
      (batch : ℕ)
      → All (λ (b : Batch). b.id < s.db.next_batch_id) s.db.batches
      → IsNumbered s.db
      → (create_batch N calendar env today actor dto s).1 ≡ created batch
      → let db' = (create_batch N calendar env today actor dto s).0.db in
        Counts batch (pos (length (items_of batch db'))) db'.batches
  create_batch-Counts env today actor dto s batch below n h =
      let started = auto_pause_expired_contracts today dto.working_location_id s in
      let c = created-IsCreation N calendar env today actor dto s batch h in
      let (paused, counter) = auto_pause-db N calendar today dto.working_location_id s in
      let numbered : IsNumbered started.db = rw (counter, paused.1) n in
      let below' : All (λ (b : Batch). b.id < started.db.next_batch_id) started.db.batches =
        rw (counter, paused.0) below in
      let items = write_batch-items N calendar env actor dto c.calculations started numbered in
      let id = id_or N calendar started.db.next_batch_id (find_draft dto started.db) in
      let db' = (write_batch N calendar env actor dto c.calculations started).db in
      let many : length c.calculations ≡ length (items_of id db') =
        sym (length-map (λ (d : Calculation W). d.employee_id) c.calculations)
        ∙ ap (λ (is : List ℕ). length is) (sym items)
        ∙ length-map (λ (i : Item). i.employee_id) (items_of id db') in
      let counted =
        subst (λ k. Counts id (pos k) db'.batches) many
          (write_batch-Counts env actor dto c.calculations started below') in
      let there =
        subst (λ (t : State W). Counts id (pos (length (items_of id t.db))) t.db.batches) c.written
          counted in
      let result = create_batch N calendar env today actor dto s in
      subst (λ k. Counts k (pos (length (items_of k result.0.db))) result.0.db.batches) c.named
        there
