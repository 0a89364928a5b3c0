-- ===== src/Savings/Deductions.antt =====
-- `deductForBatch` of backend/src/ikimina/ikimina.service.ts: what it returns is what the table
-- holds, and a second call takes nothing more.
use reg_pay.Prelude.{
  All-zip, ℕ, ◌≡◌, sym, ap, ◌∙◌, List, [], ◌++◌, Option, some, map, map-eq_of_All, All, All-imp,
  inl, inr, Option-cases,
}
use reg_pay.Payroll.Review.Tables.{UniqueBy}
use reg_pay.Savings.Rows.{Savings, Membership, Contribution}
use reg_pay.Savings.Handlers.{
  Deduction, find_last, contribution, deduct, active_memberships, existing_contributions,
  deduct_for_batch,
}
use reg_pay.Savings.Settled.{append_nil, invalidate_all-contributions}
use reg_pay.Savings.Lookup.{
  of_batch, amount_or, entry, find_last-append-some, find_last-append-none,
}
use reg_pay.Savings.Loop.{
  held_of, created, deduct-map, find_last-held, find_last-created, created-nothing,
  invalidate_all-memberships, find_last-existing, UniqueBy-keep, among,
}

-- The contribution of an employee to a batch, as the table holds it.
abbrev pub held_in : Savings → ℕ → ℕ → Option Contribution
held_in s batch e = find_last (of_batch batch e) s.contributions

-- A deduction of an active membership, by what the table holds for its employee.
abbrev pub entry_in : Savings → ℕ → Membership → Deduction
entry_in s batch = entry (held_in s batch)

module _ (batch : ℕ) (employees : List ℕ) (s : Savings)
    (unique : UniqueBy (λ (m : Membership). m.employee_id) s.memberships) where
  abbrev active : List Membership
  active = active_memberships employees s.memberships

  abbrev fetched : List Contribution
  fetched = existing_contributions batch active s.contributions

  abbrev next : List Contribution
  next = s.contributions ++ created batch fetched active

  -- The table after the call has a contribution of every active membership, with the amount that
  -- was there, or else the monthly one.
  held-next :
      All
        (λ m.
          (c : Contribution) × (find_last (of_batch batch m.employee_id) next ≡ some c)
          × (amount_or m.monthly_amount (held_of batch fetched m.employee_id) ≡ c.amount))
        active
  held-next =
      All-zip _ _ _ active
        (λ m listed fresh. elim (Option-cases (held_of batch fetched m.employee_id)) [
          | inr (c, held) ↦ (
            c,
            find_last-append-none _ s.contributions _
                  (find_last-held batch fetched m.employee_id active held)
                ∙ sym (find_last-existing batch m.employee_id active s.contributions listed)
                ∙ held,
            ap (amount_or m.monthly_amount) held,
          )
          | inl free ↦ (
            contribution batch m,
            find_last-append-some _ s.contributions _ (fresh free),
            ap (amount_or m.monthly_amount) free,
          )
        ])
        (among active)
        (find_last-created batch fetched active (UniqueBy-keep _ s.memberships unique))

  abbrev fetched_again : List Contribution
  fetched_again = existing_contributions batch active next

  -- A second run of the loop finds everything there.
  held-again :
      All
        (λ m.
          (c : Contribution) × (held_of batch fetched_again m.employee_id ≡ some c)
          × (amount_or m.monthly_amount (held_of batch fetched m.employee_id) ≡ c.amount))
        active
  held-again =
      All-zip _ _ _ active
        (λ m listed there.
          (there.0, find_last-existing batch m.employee_id active next listed ∙ there.1, there.2))
        (among active) held-next

  deduct-again : deduct batch fetched_again active ≡ ((deduct batch fetched active).0, [])
  deduct-again =
      let same_amounts =
        deduct-map batch fetched_again active
        ∙ map-eq_of_All _ _ active (
            All-imp _ _ active
              (λ m there.
                ap
                  (λ o. record {
                    employee_id = m.employee_id;
                    amount = amount_or m.monthly_amount o;
                  })
                  there.1
                ∙ ap (λ a. record { employee_id = m.employee_id; amount = a }) (sym there.2))
              held-again)
        ∙ sym (deduct-map batch fetched active) in
      let nothing =
        created-nothing batch fetched_again active
          (All-imp _ _ active (λ m there. (there.0, there.1)) held-again) in
      λ k. (same_amounts k, nothing k)

  -- The tables after the call.
  abbrev once : List Deduction × Savings
  once = deduct_for_batch batch employees s

  once-contributions : once.1.contributions ≡ next
  unfolding deduct_for_batch
  once-contributions = invalidate_all-contributions (deduct batch fetched active).0 _

  once-memberships : once.1.memberships ≡ s.memberships
  unfolding deduct_for_batch
  once-memberships = invalidate_all-memberships (deduct batch fetched active).0 _

  holds :
      All
        (λ m.
          (c : Contribution) × (held_in once.1 batch m.employee_id ≡ some c)
          × (amount_or m.monthly_amount (held_of batch fetched m.employee_id) ≡ c.amount))
        active
  holds =
      All-imp _ _ active
        (λ m there. (
          there.0,
          ap (find_last (of_batch batch m.employee_id)) once-contributions ∙ there.1,
          there.2,
        ))
        held-next

  entries : (deduct batch fetched active).0 ≡ map (entry_in once.1 batch) active
  entries =
      deduct-map batch fetched active
      ∙ map-eq_of_All _ _ active (
          All-imp _ _ active
            (λ m there.
              ap (λ a. record { employee_id = m.employee_id; amount = a })
                (there.2 ∙ sym (ap (amount_or m.monthly_amount) there.1)))
            holds)

  -- The second run of the loop, on the tables after the call.
  second_run : List Deduction × List Contribution
  second_run =
      deduct batch
        (existing_contributions batch (active_memberships employees once.1.memberships)
          once.1.contributions)
        (active_memberships employees once.1.memberships)

  second_run-nothing : second_run ≡ ((deduct batch fetched active).0, [])
  unfolding second_run
  second_run-nothing =
      (λ k.
        deduct batch
          (existing_contributions batch (active_memberships employees (once-memberships k))
            (once-contributions k))
          (active_memberships employees (once-memberships k)))
      ∙ deduct-again

-- Where no employee has two memberships, every active membership among the employees has a
-- contribution to the batch after the call, and the call returns the amounts that the table then
-- holds.
pub deduct_for_batch-entry :
    (batch : ℕ) (employees : List ℕ) (s : Savings)
    → UniqueBy (λ (m : Membership). m.employee_id) s.memberships
    → ((deduct_for_batch batch employees s).0
        ≡ map
            (entry_in (deduct_for_batch batch employees s).1 batch)
            (active_memberships employees s.memberships))
      × All
          (λ m.
            (c : Contribution) × (held_in (deduct_for_batch batch employees s).1 batch m.employee_id
              ≡ some c))
          (active_memberships employees s.memberships)
unfolding deduct_for_batch
deduct_for_batch-entry batch employees s unique = (
  entries batch employees s unique,
  All-imp _ _ _ (λ m there. (there.0, there.1)) (holds batch employees s unique),
)

-- Where no employee has two memberships, a second call for the same batch and employees takes
-- nothing: it returns the same deductions and leaves the contributions as they are.
pub deduct_for_batch-twice :
    (batch : ℕ) (employees : List ℕ) (s : Savings)
    → UniqueBy (λ (m : Membership). m.employee_id) s.memberships
    → let once = deduct_for_batch batch employees s in
      ((deduct_for_batch batch employees once.1).0 ≡ once.0)
      × ((deduct_for_batch batch employees once.1).1.contributions ≡ once.1.contributions)
unfolding deduct_for_batch second_run
deduct_for_batch-twice batch employees s unique =
    let once = deduct_for_batch batch employees s in
    let nothing = second_run-nothing batch employees s unique in
    (
      ap (λ r. r.0) nothing,
      invalidate_all-contributions (second_run batch employees s unique).0 _
          ∙ ap (λ r. once.1.contributions ++ r.1) nothing
          ∙ append_nil once.1.contributions,
    )
