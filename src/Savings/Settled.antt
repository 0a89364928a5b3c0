-- ===== src/Savings/Settled.antt =====
-- Contributions that belong to a payroll batch are settled: what the calls of the savings service
-- leave of them.
use reg_pay.Prelude.{
  ℕ, ◌≡◌, refl, sym, ap, ◌∙◌, Bool, false, not, ◌&&◌, List, [], ◌∷◌, ◌++◌, arith, ◌==◌, any, keep,
  Bool-cases, inl, inr,
}
use reg_pay.Savings.Rows.{Savings, Contribution, done, invalidate_membership_caches}
use reg_pay.Savings.Handlers.{
  Deduction, Call, call, enrol, deduct_for_batch, is_processed, invalidate_all, deduct,
  existing_contributions, active_memberships, save_membership, drop_membership,
}
use reg_pay.Savings.Changes.{Change, enrols, updates, removes, deducts, call-Change}

keep-append {ℓ} :
    {A : Type ℓ} (p : A → Bool) (xs ys : List A) → keep p (xs ++ ys) ≡ keep p xs ++ keep p ys
keep-append p [] ys = refl
keep-append p (x ∷ xs) ys = elim (Bool-cases (p x)) [
  | inl here ↦ rw here (ap (λ zs. x ∷ zs) (keep-append p xs ys))
  | inr there ↦ rw there (keep-append p xs ys)
]

pub append_nil {ℓ} : {A : Type ℓ} (xs : List A) → xs ++ [] ≡ xs
append_nil [] = refl
append_nil (x ∷ xs) = ap (λ ys. x ∷ ys) (append_nil xs)

-- A removal of unprocessed rows keeps the processed ones.
keep-unprocessed :
    (id : ℕ) (cs : List Contribution)
    → any (λ c. (c.membership_id == id) && is_processed c) cs ≡ false
    → keep is_processed (keep (λ c. not (c.membership_id == id)) cs) ≡ keep is_processed cs
keep-unprocessed id [] h = refl
keep-unprocessed id (c ∷ cs) h = ground (arith, keep-unprocessed id cs)

-- The settled contributions after a call: those of before, with more behind them at most.
abbrev pub Extends : List Contribution → List Contribution → Type 0
Extends old new =
    (added : List Contribution) × (keep is_processed new ≡ keep is_processed old ++ added)

same_Extends :
    (old new : List Contribution) → keep is_processed new ≡ keep is_processed old → Extends old new
same_Extends old new e = ([], e ∙ sym (append_nil _))

pub invalidate_all-contributions :
    (ds : List Deduction) (s : Savings) → (invalidate_all ds s).contributions ≡ s.contributions
unfolding invalidate_all invalidate_membership_caches
invalidate_all-contributions [] s = refl
invalidate_all-contributions (d ∷ ds) s =
    invalidate_all-contributions ds (invalidate_membership_caches d.employee_id s)

Change-settled : {s s' : Savings} → Change s s' → Extends s.contributions s'.contributions
unfolding enrol save_membership drop_membership deduct_for_batch invalidate_membership_caches
Change-settled {s} (enrols uuid actor employee dto free) =
    same_Extends s.contributions s.contributions refl
Change-settled {s} (updates actor amount active m) =
    same_Extends s.contributions s.contributions refl
Change-settled {s} (removes actor m open_only) =
    same_Extends s.contributions (keep (λ c. not (c.membership_id == m.id)) s.contributions)
      (keep-unprocessed m.id s.contributions open_only)
Change-settled {s} (deducts batch employees) =
    let active = active_memberships employees s.memberships in
    let result = deduct batch (existing_contributions batch active s.contributions) active in
    (
      keep is_processed result.1,
      ap (keep is_processed) (invalidate_all-contributions result.0 _)
          ∙ keep-append is_processed s.contributions result.1,
    )

-- No call that goes through changes or removes a settled contribution: those of before are still
-- there, as they were and in their order, and new ones stand behind them.
pub call-settled :
    (c : Call) (s s' : Savings) → call c s ≡ done s' → Extends s.contributions s'.contributions
call-settled c s s' h = Change-settled (call-Change c s s' h)
