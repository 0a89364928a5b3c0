-- ===== src/Savings/Tests.antt =====
-- Sample members, and the theorems about the savings service at calls on them.
use reg_pay.Prelude.{◌+◌, ℕ, ◌≡◌, refl, Bool, true, false, [], ◌∷◌, none, some, arith, map, All}
use reg_pay.Prelude.Int.{ℤ, pos}
use reg_pay.Savings.Rows.{
  frequency_of, Savings, Employee, EmployeeStatus, Membership, Contribution, Frequency, Outcome,
  done, refused, Refusal, digits, invalidate_membership_caches, all_memberships, membership_of,
}
use reg_pay.Savings.Handlers.{
  Call, call, create, remove, deduct_batch, enrol, create_for, create_membership, save_membership,
  update_membership, drop_membership, remove_membership, deduct, deduct_for_batch, invalidate_all,
  find_last, active_memberships,
}
use reg_pay.Savings.Settled.{Extends, call-settled}
use reg_pay.Savings.Members.{IsOneEach, call-IsOneEach}
use reg_pay.Savings.Deductions.{held_in, entry_in, deduct_for_batch-entry, deduct_for_batch-twice}

abbrev employee : ℕ → Frequency → Employee
employee id frequency = record {
  id = id;
  status = EmployeeStatus.active;
  is_deleted = false;
  payment_structures = [];
  category_frequency = some frequency;
  working_location_id = some 10;
  department_id = none;
}

abbrev member : ℕ → ℕ → ℤ → Bool → Membership
member id employee_id amount active = record {
  id = id;
  uuid = 50 + id;
  employee_id = employee_id;
  monthly_amount = amount;
  is_active = active;
  created_by = 1;
  working_location_id = some 10;
  department_id = none;
}

-- Two active members, one with a contribution to batch 7 already, and one who is not active.
abbrev sample : Savings
sample = record {
  employees =
      employee 1 Frequency.monthly ∷ employee 4 Frequency.monthly ∷ employee 5 Frequency.daily ∷ [];
  memberships =
      member 1 1 (pos 5000) true ∷ member 2 2 (pos 3000) true ∷ member 3 3 (pos 9) false ∷ [];
  contributions =
      record { employee_id = 2; membership_id = 2; payroll_batch_id = some 7; amount = pos 2500 }
      ∷ record { employee_id = 3; membership_id = 3; payroll_batch_id = none; amount = pos 100 }
      ∷ [];
  next_membership_id = 4;
  audit_logs = [];
  cache_keys = all_memberships ∷ membership_of 1 ∷ membership_of 9 ∷ [];
}

-- Opens the service for the evaluations below.
service : Unit {0}
unfolding call create_membership create_for enrol update_membership save_membership
    remove_membership drop_membership deduct_for_batch deduct invalidate_all
    invalidate_membership_caches find_last frequency_of
service = tt

-- The state after a call, or as it was if it is refused.
abbrev after_call : Outcome → Savings → Savings
after_call (done s) old = s
after_call (refused e) old = old

abbrev deducted : Savings
deducted = after_call (call (deduct_batch 7 (1 ∷ 2 ∷ 3 ∷ [])) sample) sample

deducted_amounts :
    map {B = ℤ} (λ c. c.amount) deducted.contributions ≡ pos 2500 ∷ pos 100 ∷ pos 5000 ∷ []
unfolding service
deducted_amounts = refl

-- Who is paid by the day may not join; who has settled contributions may not leave.
refusals :
    (call
        (create 60 1 (record { employee_id = digits 5; monthly_amount = pos 10; is_active = none }))
        sample
      ≡ refused Refusal.not_monthly)
    × (call (remove 52 1) sample ≡ refused Refusal.has_processed_contributions)
unfolding service
refusals = (refl, refl)

-- The third member, whose only contribution is not settled, leaves.
abbrev left : Savings
left = after_call (call (remove 53 1) sample) sample

leaves : call (remove 53 1) sample ≡ done left
unfolding service
leaves = refl

call-settled_example : Extends sample.contributions left.contributions
call-settled_example = call-settled (remove 53 1) sample left leaves

-- The fourth employee joins.
abbrev join : Call
join = create 60 1 (record { employee_id = digits 4; monthly_amount = pos 700; is_active = none })

abbrev joined : Savings
joined = after_call (call join sample) sample

joins : call join sample ≡ done joined
unfolding service
joins = refl

call-IsOneEach_example : IsOneEach joined.memberships
unfolding service
call-IsOneEach_example = call-IsOneEach join sample joined (ground arith) joins

deduct_for_batch-entry_example :
    ((deduct_for_batch 7 (1 ∷ 2 ∷ []) sample).0
      ≡ map
          (entry_in (deduct_for_batch 7 (1 ∷ 2 ∷ []) sample).1 7)
          (active_memberships (1 ∷ 2 ∷ []) sample.memberships))
    × All
        (λ (m : Membership).
          (c : Contribution) × (held_in (deduct_for_batch 7 (1 ∷ 2 ∷ []) sample).1 7 m.employee_id
            ≡ some c))
        (active_memberships (1 ∷ 2 ∷ []) sample.memberships)
deduct_for_batch-entry_example = deduct_for_batch-entry 7 (1 ∷ 2 ∷ []) sample (ground arith)

deduct_for_batch-twice_example :
    let once = deduct_for_batch 7 (1 ∷ 2 ∷ []) sample in
    ((deduct_for_batch 7 (1 ∷ 2 ∷ []) once.1).0 ≡ once.0)
    × ((deduct_for_batch 7 (1 ∷ 2 ∷ []) once.1).1.contributions ≡ once.1.contributions)
deduct_for_batch-twice_example = deduct_for_batch-twice 7 (1 ∷ 2 ∷ []) sample (ground arith)
