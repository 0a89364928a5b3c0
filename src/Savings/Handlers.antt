-- ===== src/Savings/Handlers.antt =====
-- The operations of backend/src/ikimina/ikimina.service.ts that change its state.
use reg_pay.Prelude.{
  ℕ, suc, Bool, true, false, not, ◌&&◌, List, [], ◌∷◌, ◌++◌, Option, none, some, ◌==◌, any, keep,
  if◌then◌else◌,
}
use reg_pay.Prelude.Int.{ℤ}
use reg_pay.Users.{is_id}
use reg_pay.Payroll.Schema.{AuditVerb, update_where, find_where}
use reg_pay.Savings.Rows.{
  Contribution, CreateMembershipDto, Employee, Membership, Outcome, Savings, already_member, digits,
  done, employee_not_found, empty, fields_required, find_membership, find_membership_of,
  frequency_of, has_processed_contributions, invalid_employee_id, invalidate_membership_caches,
  is_monthly, is_zero, logged, membership_not_found, not_digits, not_monthly, or_default, refused,
}

-- The writes of `createMembership`.
unfoldable pub enrol : (uuid actor : ℕ) → Employee → CreateMembershipDto → Savings → Savings
unfolding invalidate_membership_caches
enrol uuid actor employee dto s = invalidate_membership_caches employee.id (record s {
  memberships =
      s.memberships
      ++ record {
        id = s.next_membership_id;
        uuid = uuid;
        employee_id = employee.id;
        monthly_amount = dto.monthly_amount;
        is_active = or_default dto.is_active true;
        created_by = actor;
        working_location_id = employee.working_location_id;
        department_id = employee.department_id;
      }
        ∷ [];
  next_membership_id = suc s.next_membership_id;
  audit_logs = logged actor s.next_membership_id AuditVerb.created s.audit_logs;
})

-- `createMembership` once the employee id is a number.
unfoldable pub create_for : (uuid actor : ℕ) → CreateMembershipDto → ℕ → Savings → Outcome
create_for uuid actor dto id s = elim (find_where (λ (e : Employee). e.id == id) s.employees) [
  | none ↦ refused employee_not_found
  | some employee ↦
      if employee.is_deleted
      then refused employee_not_found
      else if not (is_monthly (frequency_of employee))
      then refused not_monthly
      else elim (find_membership_of id s) [
        | some existing ↦ refused already_member
        | none ↦ done (enrol uuid actor employee dto s)
      ]
]

-- `createMembership`
unfoldable pub create_membership : (uuid actor : ℕ) → CreateMembershipDto → Savings → Outcome
create_membership uuid actor dto s = elim dto.employee_id [
  | empty ↦ refused fields_required
  | not_digits ↦
      if is_zero dto.monthly_amount then refused fields_required else refused invalid_employee_id
  | digits id ↦
      if is_zero dto.monthly_amount then refused fields_required else create_for uuid actor dto id s
]

-- The row that `updateMembership` saves.
abbrev pub updated_row : Option ℤ → Option Bool → Membership → Membership → Membership
updated_row amount active membership m = record m {
  monthly_amount = or_default amount membership.monthly_amount;
  is_active = or_default active membership.is_active;
}

-- The writes of `updateMembership`.
unfoldable pub save_membership :
    (actor : ℕ) → Option ℤ → Option Bool → Membership → Savings → Savings
unfolding invalidate_membership_caches
save_membership actor amount active membership s =
    invalidate_membership_caches membership.employee_id (record s {
      memberships =
          update_where (λ m. m.id == membership.id) (updated_row amount active membership)
            s.memberships;
      audit_logs = logged actor membership.id AuditVerb.updated s.audit_logs;
    })

-- `updateMembership`
unfoldable pub update_membership : (uuid actor : ℕ) → Option ℤ → Option Bool → Savings → Outcome
update_membership uuid actor amount active s = elim (find_membership uuid s) [
  | none ↦ refused membership_not_found
  | some membership ↦ done (save_membership actor amount active membership s)
]

-- `payroll_batch_id !== null`
abbrev pub is_processed : Contribution → Bool
is_processed c = elim c.payroll_batch_id [ none ↦ false | some batch ↦ true ]

-- The writes of `removeMembership`.
unfoldable pub drop_membership : (actor : ℕ) → Membership → Savings → Savings
unfolding invalidate_membership_caches
drop_membership actor membership s = invalidate_membership_caches membership.employee_id (record s {
  contributions = keep (λ c. not (c.membership_id == membership.id)) s.contributions;
  memberships = keep (λ m. not (m.id == membership.id)) s.memberships;
  audit_logs = logged actor membership.id AuditVerb.deleted s.audit_logs;
})

-- `removeMembership`
unfoldable pub remove_membership : (uuid actor : ℕ) → Savings → Outcome
remove_membership uuid actor s = elim (find_membership uuid s) [
  | none ↦ refused membership_not_found
  | some membership ↦
      if any (λ c. (c.membership_id == membership.id) && is_processed c) s.contributions
      then refused has_processed_contributions
      else done (drop_membership actor membership s)
]

-- A deduction that `deductForBatch` returns.
pub record Deduction : Type 0 where
  pub employee_id : ℕ
  pub amount : ℤ

abbrev pub active_memberships : List ℕ → List Membership → List Membership
active_memberships employees = keep (λ m. any (λ e. m.employee_id == e) employees && m.is_active)

-- The contributions of the batch that were fetched before the loop.
abbrev pub existing_contributions : ℕ → List Membership → List Contribution → List Contribution
existing_contributions batch active =
    keep (λ c. is_id c.payroll_batch_id batch && any (λ m. m.employee_id == c.employee_id) active)

-- `existingMap.get`: of two entries with one key a `Map` keeps the later one.
unfoldable pub find_last {ℓ} : {A : Type ℓ} → (A → Bool) → List A → Option A
find_last p [] = none
find_last p (x ∷ xs) = elim (find_last p xs) [
  | some y ↦ some y
  | none ↦ if p x then some x else none
]

abbrev pub contribution : ℕ → Membership → Contribution
contribution batch m = record {
  employee_id = m.employee_id;
  membership_id = m.id;
  payroll_batch_id = some batch;
  amount = m.monthly_amount;
}

-- A turn of the loop of `deductForBatch`, on what the map holds for the employee: the deduction,
-- and the contribution that it creates, in front of those of the later turns.
abbrev pub deduct_one :
    ℕ
    → Option Contribution
    → Membership
    → List Deduction × List Contribution
    → List Deduction × List Contribution
deduct_one batch (some c) m rest =
    (record { employee_id = m.employee_id; amount = c.amount } ∷ rest.0, rest.1)
deduct_one batch none m rest = (
  record { employee_id = m.employee_id; amount = m.monthly_amount } ∷ rest.0,
  contribution batch m ∷ rest.1,
)

unfoldable pub deduct : ℕ → List Contribution → List Membership → List Deduction × List Contribution
unfolding find_last
deduct batch existing [] = ([], [])
deduct batch existing (m ∷ ms) =
    deduct_one batch (find_last (λ c. c.employee_id == m.employee_id) existing) m
      (deduct batch existing ms)

unfoldable pub invalidate_all : List Deduction → Savings → Savings
unfolding invalidate_membership_caches
invalidate_all [] s = s
invalidate_all (d ∷ ds) s = invalidate_all ds (invalidate_membership_caches d.employee_id s)

-- `deductForBatch`; its early returns are those of the empty lists.
unfoldable pub deduct_for_batch : ℕ → List ℕ → Savings → List Deduction × Savings
unfolding deduct invalidate_all
deduct_for_batch batch employees s =
    let active = active_memberships employees s.memberships in
    let result = deduct batch (existing_contributions batch active s.contributions) active in
    (result.0, invalidate_all result.0 (record s { contributions = s.contributions ++ result.1 }))

-- A call of the service that changes its state.
pub data Call : Type 0 where
  create : (uuid actor : ℕ) → CreateMembershipDto → Call
  update : (uuid actor : ℕ) → Option ℤ → Option Bool → Call
  remove : (uuid actor : ℕ) → Call
  deduct_batch : ℕ → List ℕ → Call

unfoldable pub call : Call → Savings → Outcome
call (create uuid actor dto) s = create_membership uuid actor dto s
call (update uuid actor amount active) s = update_membership uuid actor amount active s
call (remove uuid actor) s = remove_membership uuid actor s
call (deduct_batch batch employees) s = done (deduct_for_batch batch employees s).1
