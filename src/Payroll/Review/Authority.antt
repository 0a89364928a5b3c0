-- ===== src/Payroll/Review/Authority.antt =====
-- Who can bring a batch to its final approval, and what the first of two approvals does.
use reg_pay.Prelude.{
  ℕ, ◌≡◌, refl, sym, ◌∙◌, ◌⊎◌, inl, inr, true, Option, some, String, arith, Bool-cases,
}
use mathlib.Core.Option.{some-injective}
use mathlib.Core.Path.{subst}
use reg_pay.Keys.{includes}
use reg_pay.Permissions.{CurrentUser}
use reg_pay.Users.{is_id}
use reg_pay.Payroll.Schema.{Batch, Db, Env, find_batch}
use reg_pay.Payroll.Access.{
  ok, >>=-eq-ok, is_super_admin, Authority, hq_hr, super_admins, final_approval,
  resolve_final_approval_authority, holds_final_permission, ensure_actor_can_approve_batch,
}
use reg_pay.Payroll.Batches.{is_final, batch_for_review, approve_batch}
use reg_pay.Payroll.Review.Checks.{batch_for_review-IsChecked}

-- The holder of the final authority over a batch.
abbrev pub HasFinalAuthority : CurrentUser → Db → Type 0
HasFinalAuthority actor db =
    (is_super_admin actor ≡ true)
    ⊎ ((hq : ℕ) × (resolve_final_approval_authority db ≡ hq_hr hq)
        × (holds_final_permission actor ≡ true)
        × (includes actor.roles "HR" ≡ true)
        × (is_id actor.working_location_id hq ≡ true))

final_approval_lem :
    (actor : CurrentUser) (authority : Authority)
    → final_approval actor authority ≡ ok tt
    → (hq : ℕ) × (authority ≡ hq_hr hq)
      × (holds_final_permission actor ≡ true)
      × (includes actor.roles "HR" ≡ true)
      × (is_id actor.working_location_id hq ≡ true)
final_approval_lem actor (hq_hr hq) h = (hq, refl, ground arith, ground arith, ground arith)
final_approval_lem actor super_admins h = cc

allowed_final :
    (actor : CurrentUser) (db : Db) (batch : Batch)
    → ensure_actor_can_approve_batch db actor batch.working_location_id batch.current_approval_step
      ≡ ok tt
    → is_final db batch ≡ true
    → HasFinalAuthority actor db
unfolding ensure_actor_can_approve_batch
allowed_final actor db batch h final = elim (Bool-cases (is_super_admin actor)) [
  | inl super ↦ inl super
  | inr plain ↦ inr (final_approval_lem actor (resolve_final_approval_authority db) (ground arith))
]

-- The final approval of a batch is given by a super admin, or by a user who has the role HR, works
-- at the headquarters, where an active user has that role, and holds a permission for the final
-- approval.
pub final_approval_needs :
    (env : Env) (actor : CurrentUser) (uuid : ℕ) (comment : Option String) (db db' : Db)
    (batch : Batch)
    → find_batch uuid db ≡ some batch
    → is_final db batch ≡ true
    → approve_batch env actor uuid comment db ≡ ok db'
    → HasFinalAuthority actor db
unfolding approve_batch
final_approval_needs env actor uuid comment db db' batch found final h =
    let (b, e, _) = >>=-eq-ok (batch_for_review actor uuid db) _ h in
    let (found', checked) = batch_for_review-IsChecked actor uuid db b e in
    let same = some-injective batch b (sym found ∙ found') in
    allowed_final actor db b checked.allowed (subst (λ x. is_final db x ≡ true) same final)
