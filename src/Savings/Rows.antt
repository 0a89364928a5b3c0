-- ===== src/Savings/Rows.antt =====
-- The rows and the cache keys of the savings service, and its lookups
-- (backend/src/ikimina/ikimina.service.ts, backend/prisma/schema.prisma).
use reg_pay.Prelude.{
  ℕ, Bool, true, false, not, List, [], ◌∷◌, ◌++◌, Option, none, some, ◌==◌, leb, keep,
  if◌then◌else◌,
}
use reg_pay.Prelude.Int.{ℤ, pos, negsuc}
use reg_pay.Payroll.Schema.{AuditVerb, AuditLog, find_where}

pub data Frequency : Type 0 where
  daily monthly custom : Frequency

pub record PaymentStructure : Type 0 where
  pub effective_from : ℕ
  pub payroll_frequency : Frequency

-- `employees_status`
pub data EmployeeStatus : Type 0 where
  active inactive suspended pending rejected paused : EmployeeStatus

abbrev pub is_active : EmployeeStatus → Bool
is_active active = true
is_active _ = false

pub record Employee : Type 0 where
  pub id : ℕ
  pub status : EmployeeStatus
  pub is_deleted : Bool
  pub payment_structures : List PaymentStructure
  pub category_frequency : Option Frequency
  pub working_location_id : Option ℕ
  pub department_id : Option ℕ

pub record Membership : Type 0 where
  pub id : ℕ
  pub uuid : ℕ
  pub employee_id : ℕ
  pub monthly_amount : ℤ
  pub is_active : Bool
  pub created_by : ℕ
  pub working_location_id : Option ℕ
  pub department_id : Option ℕ

pub record Contribution : Type 0 where
  pub employee_id : ℕ
  pub membership_id : ℕ
  pub payroll_batch_id : Option ℕ
  pub amount : ℤ

pub data CacheKey : Type 0 where
  all_memberships : CacheKey
  membership_of : ℕ → CacheKey

pub record Savings : Type 0 where
  pub employees : List Employee
  pub memberships : List Membership
  pub contributions : List Contribution
  pub next_membership_id : ℕ
  pub audit_logs : List AuditLog
  pub cache_keys : List CacheKey

pub data Refusal : Type 0 where
  fields_required invalid_employee_id employee_not_found : Refusal
  not_monthly already_member membership_not_found has_processed_contributions : Refusal

pub data Outcome : Type 0 where
  done : Savings → Outcome
  refused : Refusal → Outcome

-- `invalidateMembershipCaches`
abbrev pub is_stale : ℕ → CacheKey → Bool
is_stale employee all_memberships = true
is_stale employee (membership_of e) = e == employee

unfoldable pub invalidate_membership_caches : ℕ → Savings → Savings
invalidate_membership_caches employee s = record s {
  cache_keys = keep (λ k. not (is_stale employee k)) s.cache_keys;
}

-- `tx.audit_logs.create`
abbrev pub logged : ℕ → ℕ → AuditVerb → List AuditLog → List AuditLog
logged actor id verb logs =
    logs
    ++ record {
      user_id = actor;
      entity_table = "ikimina_memberships";
      entity_id = id;
      action = verb;
    }
      ∷ []

-- The text of an employee id in a request, as the checks of `createMembership` and `toBigInt` read
-- it: empty, not a row of digits, or the number.
pub data IdText : Type 0 where
  empty not_digits : IdText
  digits : ℕ → IdText

pub record CreateMembershipDto : Type 0 where
  pub employee_id : IdText
  pub monthly_amount : ℤ
  pub is_active : Option Bool

abbrev pub or_default {ℓ} : {A : Type ℓ} → Option A → A → A
or_default none a = a
or_default (some x) a = x

-- `orderBy: { effective_from: 'desc' }, take: 1`
latest : List PaymentStructure → Option PaymentStructure
latest [] = none
latest (p ∷ ps) = elim (latest ps) [
  | none ↦ some p
  | some q ↦ if leb q.effective_from p.effective_from then some p else some q
]

unfoldable pub frequency_of : Employee → Option Frequency
unfolding latest
frequency_of e = elim (latest e.payment_structures) [
  | none ↦ e.category_frequency
  | some p ↦ some p.payroll_frequency
]

abbrev pub is_monthly : Option Frequency → Bool
is_monthly (some Frequency.monthly) = true
is_monthly _ = false

abbrev pub is_zero : ℤ → Bool
is_zero (pos n) = n == 0
is_zero (negsuc n) = false

abbrev pub find_membership_of : ℕ → Savings → Option Membership
find_membership_of employee s = find_where (λ m. m.employee_id == employee) s.memberships

abbrev pub find_membership : ℕ → Savings → Option Membership
find_membership uuid s = find_where (λ m. m.uuid == uuid) s.memberships
