-- ===== src/Creation/Outcome.antt =====
-- What the creation of a batch has established when it ends, on each of its branches.
use mathlib.Core.Path.{subst}
use reg_pay.Prelude.{
  ℕ, ◌≡◌, ◌⊎◌, refl, sym, ap, ◌∙◌, not, ◌&&◌, List, ◌∷◌, some, ◌==◌, any, Bool-cases, Option-cases,
  inl, inr,
}
use reg_pay.Permissions.{CurrentUser}
use reg_pay.Payroll.Schema.{Env, WorkingLocation}
use reg_pay.Payroll.Access.{Error, Result, err, ok, ensure_actor_can_use_working_location}
use reg_pay.Attendance.Calls.{List-cases}
use reg_pay.Creation.Number.{Number}
use reg_pay.Creation.Rows.{Calculation, Calendar, CreateBatchDto}
use reg_pay.Creation.Batch.{
  Answer, CreationError, State, active_employees, auto_pause_expired_contracts, created,
  eligible_employees, find_draft, refused,
}
use reg_pay.Creation.Writes.{
  calculate_all, create_batch, create_from, id_or, is_finalized, write_batch,
}

Result-cases {ℓ} :
    {A : Type ℓ} (r : Result A) → ((e : Error) × (r ≡ err e)) ⊎ ((a : A) × (r ≡ ok a))
Result-cases (err e) = inl (e, refl)
Result-cases (ok a) = inr (a, refl)

module _ {W : Type 0} (N : Number W) (calendar : Calendar) (env : Env) (actor : CurrentUser)
    (dto : CreateBatchDto W) where
  -- A creation from a state went through.
  pub record IsCreation (s s' : State W) (batch : ℕ) : Type 0 where
    pub calculations : List (Calculation W)
    pub eligible :
        calculate_all N calendar s.tables dto (eligible_employees dto s.db s.workers)
        ≡ some calculations
    pub written : write_batch N calendar env actor dto calculations s ≡ s'
    pub named : id_or N calendar s.db.next_batch_id (find_draft dto s.db) ≡ batch

  -- It was refused, and changed nothing.
  abbrev pub IsRefusal : State W → State W × Answer → Type 0
  IsRefusal s result = (e : CreationError) × (result ≡ (s, refused e))

  abbrev pub Ends : State W → State W × Answer → Type 0
  Ends s result =
      IsRefusal s result ⊎ ((batch : ℕ) × (result.1 ≡ created batch) × IsCreation s result.0 batch)

  create_from-Ends : (s : State W) → Ends s (create_from N calendar env actor dto s)
  unfolding create_from
  create_from-Ends s = elim (List-cases (active_employees dto s.workers)) [
    | inl idle ↦ inl (CreationError.no_active_employees, rw (create_from, idle) refl)
    | inr (a, others, busy) ↦ elim (List-cases (eligible_employees dto s.db s.workers)) [
      | inl processed ↦ inl (CreationError.all_processed, rw (create_from, busy, processed) refl)
      | inr (e, es, some_left) ↦
          elim (Option-cases (calculate_all N calendar s.tables dto (e ∷ es))) [
            | inl thrown ↦
                inl (CreationError.period_reversed, rw (create_from, busy, some_left, thrown) refl)
            | inr (cs, all) ↦ elim (List-cases cs) [
              | inl nobody ↦
                  inl (
                    CreationError.no_structures,
                    rw (create_from, busy, some_left, all, nobody) refl,
                  )
              | inr (c, rest, somebody) ↦
                  elim (Bool-cases (is_finalized N calendar (find_draft dto s.db))) [
                    | inl final ↦ inl (
                      CreationError.finalized,
                      rw (create_from, busy, some_left, all, somebody, final) refl,
                    )
                    | inr draft ↦
                        let went : create_from N calendar env actor dto s ≡ (
                          write_batch N calendar env actor dto (c ∷ rest) s,
                          created (id_or N calendar s.db.next_batch_id (find_draft dto s.db)),
                        ) =
                          rw (create_from, busy, some_left, all, somebody, draft) refl in
                        subst (Ends s) (sym went) (
                          inr (
                            _,
                            refl,
                            record {
                              calculations = c ∷ rest;
                              eligible =
                                  ap (calculate_all N calendar s.tables dto) some_left
                                  ∙ all
                                  ∙ ap some somebody;
                              written = refl;
                              named = refl;
                            },
                          ))
                  ]
            ]
          ]
    ]
  ]

  -- Whatever comes of a creation, it has either been refused before the pause of expired contracts,
  -- and changed nothing, or after it, and changed nothing else, or it has written a batch of
  -- calculations of all eligible employees.
  pub create_batch-Ends :
      (today : ℕ) (s : State W)
      → let paused = auto_pause_expired_contracts today dto.working_location_id s in
        let result = create_batch N calendar env today actor dto s in
        IsRefusal s result ⊎ Ends paused result
  unfolding create_batch
  create_batch-Ends today s =
      elim (Bool-cases (
        any (λ (l : WorkingLocation). (l.id == dto.working_location_id) && not l.is_deleted)
          s.db.working_locations)) [
            | inr missing ↦ inl (CreationError.location_missing, rw (create_batch, missing) refl)
            | inl there ↦
                elim (Result-cases
                  (ensure_actor_can_use_working_location actor dto.working_location_id)) [
                    | inl (e, denied) ↦
                        inl (CreationError.other_location, rw (create_batch, there, denied) refl)
                    | inr (u, allowed) ↦ inr (
                        rw (create_batch, there, allowed)
                          (create_from-Ends
                            (auto_pause_expired_contracts today dto.working_location_id s)))
                  ]
          ]
