-- ===== src/Savings/Members.antt =====
-- Who is a member: what the calls of the savings service keep of the memberships.
use mathlib.Core.Path.{subst}
use reg_pay.Prelude.{
  ℕ, ◌≡◌, refl, sym, false, not, List, [], ◌∷◌, none, ◌==◌, All, Bool-cases, inl, inr,
}
use reg_pay.Payroll.Schema.{find_where}
use reg_pay.Payroll.Review.Tables.{UniqueBy, UniqueBy-update_where, UniqueBy-concat}
use reg_pay.Savings.Rows.{Savings, Membership, done, invalidate_membership_caches}
use reg_pay.Savings.Handlers.{
  updated_row, Call, call, enrol, save_membership, drop_membership, deduct_for_batch, deduct,
  existing_contributions, active_memberships,
}
use reg_pay.Savings.Changes.{Change, enrols, updates, removes, deducts, call-Change}
use reg_pay.Savings.Loop.{UniqueBy-keep, invalidate_all-memberships}

-- No employee has two memberships.
abbrev pub IsOneEach : List Membership → Type 0
IsOneEach = UniqueBy (λ (m : Membership). m.employee_id)

no_other :
    (employee : ℕ) (ms : List Membership)
    → find_where (λ (m : Membership). m.employee_id == employee) ms ≡ none
    → All (λ (m : Membership). (m.employee_id == employee) ≡ false) ms
no_other employee [] h = tt
no_other employee (m ∷ ms) h = elim (Bool-cases (m.employee_id == employee)) [
  | inl here ↦ absurd (let e = rw here at h in cc)
  | inr there ↦ (there, no_other employee ms (rw there at h))
]

Change-IsOneEach :
    {s s' : Savings} → Change s s' → IsOneEach s.memberships → IsOneEach s'.memberships
unfolding enrol save_membership drop_membership deduct_for_batch invalidate_membership_caches
Change-IsOneEach {s} (enrols uuid actor employee dto free) u =
    UniqueBy-concat (λ (m : Membership). m.employee_id) s.memberships _
      (no_other employee.id s.memberships free) u
Change-IsOneEach {s} (updates actor amount active m) u =
    UniqueBy-update_where (λ (x : Membership). x.employee_id) (λ x. x.id == m.id)
      (updated_row amount active m) s.memberships (λ x. refl) u
Change-IsOneEach {s} (removes actor m open_only) u =
    UniqueBy-keep (λ x. not (x.id == m.id)) s.memberships u
Change-IsOneEach {s} (deducts batch employees) u =
    let active = active_memberships employees s.memberships in
    subst IsOneEach
      (sym (
        invalidate_all-memberships
          (deduct batch (existing_contributions batch active s.contributions) active).0 _))
      u

-- Where no employee has two memberships, none has two after a call that goes through.
pub call-IsOneEach :
    (c : Call) (s s' : Savings)
    → IsOneEach s.memberships
    → call c s ≡ done s'
    → IsOneEach s'.memberships
call-IsOneEach c s s' u h = Change-IsOneEach (call-Change c s s' h) u
