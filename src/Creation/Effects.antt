-- ===== src/Creation/Effects.antt =====
-- Whom the items of a created batch are for, and what the other batches keep.
use mathlib.Core.Path.{subst}
use reg_pay.Prelude.{
  ℕ, ◌≡◌, refl, sym, ap, ◌∙◌, Bool, true, false, not, ◌==◌, keep, map, All, All-imp, inl, inr,
}
use reg_pay.Permissions.{CurrentUser}
use reg_pay.Payroll.Schema.{Batch, Env, Item, in_batch}
use reg_pay.Creation.Number.{Number}
use reg_pay.Creation.Rows.{Calendar, CreateBatchDto}
use reg_pay.Creation.Batch.{
  Answer, State, active_employees, auto_pause_expired_contracts, created, eligible_employees,
  find_draft, refused, is_processed,
}
use reg_pay.Creation.Writes.{create_batch, id_or}
use reg_pay.Creation.Outcome.{IsCreation, create_batch-Ends}
use reg_pay.Creation.Frame.{items_of, other_batches, other_items, write_batch-others}
use reg_pay.Creation.Items.{
  IsNumbered, All-passed, auto_pause-db, calculate_all-All, write_batch-items,
}

not_processed : (b : Bool) → not b ≡ true → b ≡ false
not_processed true h = cc
not_processed false h = refl

created-injective : {a b : ℕ} → created a ≡ created b → a ≡ b
created-injective e = cc

-- What the state was before the writes of a creation that went through, after the pause.
module _ {W : Type 0} (N : Number W) (calendar : Calendar) (env : Env) (today : ℕ)
    (actor : CurrentUser) (dto : CreateBatchDto W) (s : State W) where
  abbrev started : State W
  started = auto_pause_expired_contracts today dto.working_location_id s

  abbrev result : State W × Answer
  result = create_batch N calendar env today actor dto s

  pub created-IsCreation :
      (batch : ℕ)
      → result.1 ≡ created batch
      → IsCreation N calendar env actor dto started result.0 batch
  created-IsCreation batch h = elim (create_batch-Ends N calendar env actor dto today s) [
    | inl (e, stopped) ↦ absurd (
        let n : refused e ≡ created batch = sym (ap (λ (r : State W × Answer). r.1) stopped) ∙ h in
        cc)
    | inr (inl (e, stopped)) ↦ absurd (
        let n : refused e ≡ created batch = sym (ap (λ (r : State W × Answer). r.1) stopped) ∙ h in
        cc)
    | inr (inr (b, named, went)) ↦
        let same : b ≡ batch = created-injective (sym named ∙ h) in
        subst (IsCreation N calendar env actor dto started result.0) same went
  ]

  -- The creation of a batch that goes through, or fills a draft anew, leaves all other batches and
  -- their items.
  pub create_batch-others :
      (batch : ℕ)
      → result.1 ≡ created batch
      → (other_batches batch result.0.db ≡ other_batches batch s.db)
        × (other_items batch result.0.db ≡ other_items batch s.db)
  create_batch-others batch h =
      let c = created-IsCreation batch h in
      let others = write_batch-others N calendar env actor dto c.calculations started in
      let paused = (auto_pause-db N calendar today dto.working_location_id s).0 in
      let there =
        subst
          (λ (t : State W).
            let id = id_or N calendar started.db.next_batch_id (find_draft dto started.db) in
            (other_batches id t.db ≡ other_batches id started.db)
            × (other_items id t.db ≡ other_items id started.db))
          c.written others in
      let named =
        subst
          (λ id.
            (other_batches id result.0.db ≡ other_batches id started.db)
            × (other_items id result.0.db ≡ other_items id started.db))
          c.named there in
      (
        named.0 ∙ ap (keep (λ (b : Batch). not (b.id == batch))) paused.0,
        named.1 ∙ ap (keep (λ i. not (in_batch batch i))) paused.1,
      )

  -- If no item is of a batch still to come, the items of a batch that has been created, or filled
  -- anew, are for employees who had no item in a batch of the same month that was submitted, in
  -- review or approved.
  pub create_batch-eligible :
      (batch : ℕ)
      → IsNumbered s.db
      → result.1 ≡ created batch
      → All
          (λ id. is_processed dto s.db id ≡ false)
          (map (λ (i : Item). i.employee_id) (items_of batch result.0.db))
  create_batch-eligible batch n h =
      let c = created-IsCreation batch h in
      let (paused, counter) = auto_pause-db N calendar today dto.working_location_id s in
      let numbered : IsNumbered started.db = rw (counter, paused.1) n in
      let items = write_batch-items N calendar env actor dto c.calculations started numbered in
      let free =
        calculate_all-All N calendar (λ id. is_processed dto s.db id ≡ false) started.tables dto
          (eligible_employees dto started.db started.workers) c.calculations
          (All-imp _ _ (eligible_employees dto started.db started.workers)
            (λ e passed.
              not_processed (is_processed dto s.db e.id) (rw (paused.0, paused.1) at passed))
            (All-passed (λ e. not (is_processed dto started.db e.id))
              (active_employees dto started.workers)))
          c.eligible in
      let listed = subst (All (λ id. is_processed dto s.db id ≡ false)) (sym items) free in
      let there =
        subst
          (λ (t : State W).
            All (λ id. is_processed dto s.db id ≡ false)
              (map (λ (i : Item). i.employee_id)
                (items_of (id_or N calendar started.db.next_batch_id (find_draft dto started.db))
                  t.db)))
          c.written listed in
      subst
        (λ id.
          All (λ k. is_processed dto s.db k ≡ false)
            (map (λ (i : Item). i.employee_id) (items_of id result.0.db)))
        c.named there
