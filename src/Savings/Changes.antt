-- ===== src/Savings/Changes.antt =====
-- A call of the savings service that goes through is one of four changes, with what its checks have
-- established.
use mathlib.Core.Path.{subst}
use reg_pay.Prelude.{
  ℕ, ◌⊎◌, ◌≡◌, refl, ap, ◌∙◌, Bool, false, ◌&&◌, List, Option, none, ◌==◌, ==_iff, any, Bool-cases,
  inl, inr, Option-cases,
}
use reg_pay.Prelude.Int.{ℤ}
use reg_pay.Payroll.Schema.{find_where}
use reg_pay.Payroll.Review.Tables.{find-passes}
use reg_pay.Savings.Rows.{
  IdText, is_zero, Savings, Membership, done, CreateMembershipDto, find_membership,
  find_membership_of, Employee, is_monthly, frequency_of, empty, not_digits, digits,
}
use reg_pay.Savings.Handlers.{
  Call, create, update, remove, deduct_batch, call, create_membership, create_for, enrol,
  update_membership, save_membership, drop_membership, remove_membership, deduct_for_batch,
  is_processed,
}

pub data Change (s : Savings) : Savings → Type 0 where
  enrols :
      (uuid actor : ℕ) (employee : Employee) (dto : CreateMembershipDto)
      → find_membership_of employee.id s ≡ none
      → Change s (enrol uuid actor employee dto s)
  updates :
      (actor : ℕ) (amount : Option ℤ) (active : Option Bool) (membership : Membership)
      → Change s (save_membership actor amount active membership s)
  removes :
      (actor : ℕ) (membership : Membership)
      → any (λ c. (c.membership_id == membership.id) && is_processed c) s.contributions ≡ false
      → Change s (drop_membership actor membership s)
  deducts : (batch : ℕ) (employees : List ℕ) → Change s (deduct_for_batch batch employees s).1

done-injective : {a b : Savings} → done a ≡ done b → a ≡ b
done-injective e = cc

update-Change :
    (uuid actor : ℕ) (amount : Option ℤ) (active : Option Bool) (s s' : Savings)
    → update_membership uuid actor amount active s ≡ done s'
    → Change s s'
unfolding update_membership
update-Change uuid actor amount active s s' h = elim (Option-cases (find_membership uuid s)) [
  | inl missing ↦ absurd (let e = rw (update_membership, missing) at h in cc)
  | inr (m, found) ↦
      subst (Change s) (done-injective (rw (update_membership, found) at h))
        (updates actor amount active m)
]

remove-Change :
    (uuid actor : ℕ) (s s' : Savings) → remove_membership uuid actor s ≡ done s' → Change s s'
unfolding remove_membership
remove-Change uuid actor s s' h = elim (Option-cases (find_membership uuid s)) [
  | inl missing ↦ absurd (let e = rw (remove_membership, missing) at h in cc)
  | inr (m, found) ↦
      elim (Bool-cases (any (λ c. (c.membership_id == m.id) && is_processed c) s.contributions)) [
        | inl processed ↦ absurd (let e = rw (remove_membership, found, processed) at h in cc)
        | inr open_only ↦
            subst (Change s) (done-injective (rw (remove_membership, found, open_only) at h))
              (removes actor m open_only)
      ]
]

create_for-Change :
    (uuid actor : ℕ) (dto : CreateMembershipDto) (id : ℕ) (s s' : Savings)
    → create_for uuid actor dto id s ≡ done s'
    → Change s s'
unfolding create_for frequency_of
create_for-Change uuid actor dto id s s' h =
    elim (Option-cases (find_where (λ (e : Employee). e.id == id) s.employees)) [
      | inl missing ↦ absurd (let e = rw (create_for, missing) at h in cc)
      | inr (e, found) ↦ elim (Bool-cases e.is_deleted) [
        | inl deleted ↦ absurd (let e = rw (create_for, found, deleted) at h in cc)
        | inr kept ↦ elim (Bool-cases (is_monthly (frequency_of e))) [
          | inr other ↦ absurd (let e = rw (create_for, found, kept, other) at h in cc)
          | inl monthly ↦ elim (Option-cases (find_membership_of id s)) [
            | inr (m, member) ↦
                absurd (let e = rw (create_for, found, kept, monthly, member) at h in cc)
            | inl free ↦
                let same : e.id ≡ id = (==_iff e.id id).0 (find-passes _ s.employees found) in
                subst (Change s) (done-injective (rw (create_for, found, kept, monthly, free) at h))
                  (enrols uuid actor e dto (ap (λ k. find_membership_of k s) same ∙ free))
          ]
        ]
      ]
    ]

IdText-cases : (k : IdText) → (k ≡ empty) ⊎ (k ≡ not_digits) ⊎ ((n : ℕ) × (k ≡ digits n))
IdText-cases empty = inl refl
IdText-cases not_digits = inr (inl refl)
IdText-cases (digits n) = inr (inr (n, refl))

create-Change :
    (uuid actor : ℕ) (dto : CreateMembershipDto) (s s' : Savings)
    → create_membership uuid actor dto s ≡ done s'
    → Change s s'
unfolding create_membership
create-Change uuid actor dto s s' h = elim (IdText-cases dto.employee_id) [
  | inl blank ↦ absurd (let e = rw (create_membership, blank) at h in cc)
  | inr (inl letters) ↦ elim (Bool-cases (is_zero dto.monthly_amount)) [
    | inl zero ↦ absurd (let e = rw (create_membership, letters, zero) at h in cc)
    | inr some_amount ↦ absurd (let e = rw (create_membership, letters, some_amount) at h in cc)
  ]
  | inr (inr (id, number)) ↦ elim (Bool-cases (is_zero dto.monthly_amount)) [
    | inl zero ↦ absurd (let e = rw (create_membership, number, zero) at h in cc)
    | inr some_amount ↦
        create_for-Change uuid actor dto id s s' (rw (create_membership, number, some_amount) at h)
  ]
]

-- Every call that goes through is a change.
pub call-Change : (c : Call) (s s' : Savings) → call c s ≡ done s' → Change s s'
unfolding call
call-Change (create uuid actor dto) s s' h = create-Change uuid actor dto s s' h
call-Change (update uuid actor amount active) s s' h = update-Change uuid actor amount active s s' h
call-Change (remove uuid actor) s s' h = remove-Change uuid actor s s' h
call-Change (deduct_batch batch employees) s s' h =
    subst (Change s) (done-injective h) (deducts batch employees)
