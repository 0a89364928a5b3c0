-- ===== src/Payroll/Access.antt =====
-- Who may review a batch: the guards and lookups of authority in
-- backend/src/payroll/payroll.service.ts.
use reg_pay.Prelude.{
  ◌≡◌, refl, ℕ, Bool, true, false, not, ◌&&◌, ◌||◌, List, Option, none, some, String, str_eq, ◌==◌,
  any, if◌then◌else◌,
}
use reg_pay.Keys.{includes}
use reg_pay.Permissions.{UserRole, CurrentUser, build_raw_permission_keys, has_effective_permission}
use reg_pay.Users.{UserRow, is_active_status, is_id, relations}
use reg_pay.Payroll.Schema.{
  BatchStatus, BranchManager, WorkingLocation, Db, is_approved, is_rejected, find_where,
}

pub data Error : Type 0 where
  batch_not_found item_not_found : Error
  already_approved not_submittable : Error
  terminal_batch not_submitted : Error
  no_initial_permission hq_hr_only super_admin_only : Error
  no_attachment read_only_batch other_location : Error
  null_dereference : Error

-- What a method that may throw comes to.
pub data Result {ℓ} (Answer : Type ℓ) : Type ℓ where
  err : Error → Result Answer
  ok : Answer → Result Answer

infixl 5 ◌>>=◌ ◌>>◌
abbrev pub ◌>>=◌ {ℓ κ} :
    {Row : Type ℓ} {Answer : Type κ} → (query : Result Row) → (Row → Result Answer) → Result Answer
err thrown >>= next = err thrown
ok row >>= next = next row

abbrev pub ◌>>◌ {ℓ} :
    {Answer : Type ℓ} → (check : Result (Unit {0})) → (rest : Result Answer) → Result Answer
check >> rest = check >>= λ _. rest

-- A chain that ends well reached its second part, with the row that the first part found.
pub >>=-eq-ok {ℓ κ} :
    {Row : Type ℓ} {Answer : Type κ} (query : Result Row) (next : Row → Result Answer)
    {answer : Answer} (ended : query >>= next ≡ ok answer)
    → (row : Row) × (query ≡ ok row) × (next row ≡ ok answer)
>>=-eq-ok (err thrown) next ended = cc
>>=-eq-ok (ok row) next ended = (row, refl, ended)

-- `if (c) throw e`
abbrev pub throw_if : Bool → Error → Result (Unit {0})
throw_if true e = err e
throw_if false e = ok tt

abbrev pub or_throw {ℓ} : {A : Type ℓ} → Option A → Error → Result A
or_throw none e = err e
or_throw (some a) e = ok a

abbrev pub is_super_admin : CurrentUser → Bool
is_super_admin actor = includes actor.roles "SUPER_ADMIN"

abbrev approves_initially : List String → Bool
approves_initially keys = includes keys "payroll.approve_initial" || includes keys "payroll.approve"

-- An active user of a working location.
abbrev active_at : ℕ → UserRow → Bool
active_at wl u = is_id u.working_location_id wl && is_active_status u.status

-- `hasInitialApprover`: its three queries in turn.
unfoldable pub has_initial_approver : Db → ℕ → Bool
has_initial_approver db wl =
    any (λ (m : BranchManager). m.working_location_id == wl && m.is_active) db.branch_managers
    || (any (λ u. active_at wl u && approves_initially u.user_permissions) db.users
        || any (λ u. active_at wl u && approves_initially (build_raw_permission_keys (relations u)))
            db.users)

abbrev is_hr : UserRole → Bool
is_hr r = elim r.roles [ none ↦ false | some role ↦ str_eq role.name "HR" ]

-- `hasActiveHrAt`
unfoldable pub has_active_hr_at : Db → ℕ → Bool
has_active_hr_at db wl = any (λ u. active_at wl u && any is_hr u.user_roles) db.users

pub data Authority : Type 0 where
  hq_hr : ℕ → Authority
  super_admins : Authority

-- `resolveFinalApprovalAuthority`: the kind, with the id of the headquarters where it is used.
unfoldable pub resolve_final_approval_authority : Db → Authority
unfolding has_active_hr_at
resolve_final_approval_authority db =
    elim (find_where (λ (w : WorkingLocation). w.is_hq && not w.is_deleted) db.working_locations) [
      | none ↦ super_admins
      | some hq ↦ if has_active_hr_at db hq.id then hq_hr hq.id else super_admins
    ]

abbrev pub can_initial_approve : CurrentUser → ℕ → Bool
can_initial_approve actor wl =
    has_effective_permission actor "payroll.approve_initial"
    || (has_effective_permission actor "payroll.approve"
        || (includes actor.roles "BRANCH_MANAGER" && is_id actor.working_location_id wl))

abbrev pub holds_final_permission : CurrentUser → Bool
holds_final_permission actor =
    has_effective_permission actor "payroll.approve_final"
    || has_effective_permission actor "payroll.approve"

abbrev pub final_approval : CurrentUser → Authority → Result (Unit {0})
final_approval actor (hq_hr hq) =
    if holds_final_permission actor
      && (includes actor.roles "HR" && is_id actor.working_location_id hq)
    then ok tt
    else err hq_hr_only
final_approval actor super_admins = err super_admin_only

-- `ensureActorCanApproveBatch`
unfoldable pub ensure_actor_can_approve_batch :
    Db → CurrentUser → (working_location_id current_approval_step : ℕ) → Result (Unit {0})
ensure_actor_can_approve_batch db actor wl step =
    if is_super_admin actor
    then ok tt
    else if step == 1 && has_initial_approver db wl
    then throw_if (not (can_initial_approve actor wl)) no_initial_permission
    else final_approval actor (resolve_final_approval_authority db)

abbrev is_reviewable : BatchStatus → Bool
is_reviewable BatchStatus.pending = true
is_reviewable BatchStatus.in_review = true
is_reviewable BatchStatus.manager_approved = true
is_reviewable _ = false

-- `ensureBatchCanStillBeReviewed`
unfoldable pub ensure_batch_can_still_be_reviewed : BatchStatus → Result (Unit {0})
ensure_batch_can_still_be_reviewed status = do
  throw_if (is_approved status || is_rejected status) terminal_batch
  throw_if (not (is_reviewable status)) not_submitted

-- `ensureActorCanUseWorkingLocation`
unfoldable pub ensure_actor_can_use_working_location : CurrentUser → ℕ → Result (Unit {0})
ensure_actor_can_use_working_location actor wl =
    throw_if (not (is_super_admin actor || is_id actor.working_location_id wl)) other_location
