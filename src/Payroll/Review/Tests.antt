-- ===== src/Payroll/Review/Tests.antt =====
-- The theorems about the handlers of the payroll service, at calls on the sample.
use reg_pay.Prelude.{ℕ, ◌≡◌, refl, [], ◌∷◌, map, none, some, arith, All, keep}
use reg_pay.Prelude.Int.{ℤ, pos, ◌+ℤ◌, ◌-ℤ◌}
use reg_pay.Permissions.{
  has_effective_permission, compute_effective_permissions, build_raw_permission_keys, implied_by,
}
use reg_pay.Constants.{lookup}
use reg_pay.Keys.{add, add_all, delete}
use reg_pay.Payroll.Schema.{BatchStatus, Batch, Db, find_batch, find_batch_id, in_batch}
use reg_pay.Payroll.Access.{
  Result, ok, err, has_initial_approver, resolve_final_approval_authority,
  ensure_actor_can_approve_batch, ensure_batch_can_still_be_reviewed,
}
use reg_pay.Payroll.Drafts.{submit_batch}
use reg_pay.Payroll.Items.{item_for_review, approve_item, reject_item, accept, deny}
use reg_pay.Payroll.Split.{reduce, move_items, handle_partial_rejection_split, split_rejected}
use reg_pay.Payroll.Batches.{batch_for_review, approve_batch, conclude, reject_batch, turn_down}
use reg_pay.Payroll.Review.{handle, accept_batch}
use reg_pay.Payroll.Review.Totals.{employees, IsSoundDb}
use reg_pay.Payroll.Review.Money.{handle-IsSound}
use reg_pay.Payroll.Review.Steps.{IsOnStep, handle-IsOnStep}
use reg_pay.Payroll.Review.Payment.{IsPaid, approve_batch-IsPaid, approve_batch-waits}
use reg_pay.Payroll.Review.Resubmission.{reject_batch-resubmits}
use reg_pay.Payroll.Review.Frozen.{handle-approved}
use reg_pay.Payroll.Review.Authority.{HasFinalAuthority, final_approval_needs}
use reg_pay.Payroll.Review.Sample.{env, admin, hr, manager, batch, sample}

-- The tables after a call, or as they were if it fails.
abbrev after_call : Result Db → Db → Db
after_call (ok db) old = db
after_call (err e) old = old

-- Opens the handlers for the evaluations below.
handlers : Unit {0}
unfolding handle submit_batch approve_item reject_item item_for_review accept deny approve_batch
    batch_for_review conclude handle_partial_rejection_split split_rejected reduce move_items
    reject_batch turn_down ensure_actor_can_approve_batch ensure_batch_can_still_be_reviewed
    has_initial_approver resolve_final_approval_authority has_effective_permission
    compute_effective_permissions build_raw_permission_keys implied_by lookup add add_all delete
    ◌+ℤ◌ ◌-ℤ◌
handlers = tt

-- The final approval by HR of the headquarters: the rejected item is split off, the other is paid.
abbrev approved_db : Db
approved_db = after_call (handle env hr (accept_batch 71 none) sample) sample

approval_goes_through : handle env hr (accept_batch 71 none) sample ≡ ok approved_db
unfolding handlers
approval_goes_through = refl

sample-IsSound : IsSoundDb sample
unfolding ◌+ℤ◌
sample-IsSound = record {
  unique_batches = ground arith;
  unique_items = ground arith;
  batches_numbered = omega arith;
  items_placed = omega arith;
  totals = (
    elim [ employees ↦ refl | _ ↦ refl ],
    (elim [ employees ↦ refl | _ ↦ refl ], (elim [ employees ↦ refl | _ ↦ refl ], tt)),
  );
}

-- What the approval has done to the batches: number, status, step and total amount.
approval_results :
    map {B = ℕ × BatchStatus × ℕ × ℤ}
      (λ b. (b.id, b.status, b.current_approval_step, b.total_amount))
      approved_db.batches
    ≡ (1, BatchStatus.approved, 2, pos 100)
      ∷ (2, BatchStatus.approved, 2, pos 500)
      ∷ (3, BatchStatus.pending, 1, pos 700)
      ∷ (4, BatchStatus.draft, 1, pos 200)
      ∷ []
unfolding handlers
approval_results = refl

handle-IsSound_example : IsSoundDb approved_db
handle-IsSound_example =
    handle-IsSound env hr (accept_batch 71 none) sample approved_db sample-IsSound
      approval_goes_through

handle-IsOnStep_example : All IsOnStep approved_db.batches
handle-IsOnStep_example =
    handle-IsOnStep env hr (accept_batch 71 none) sample approved_db (ground arith)
      approval_goes_through

final_approval_needs_example : HasFinalAuthority hr sample
unfolding handlers
final_approval_needs_example =
    final_approval_needs env hr 71 none sample approved_db (batch 1 2 300 BatchStatus.in_review 2)
      refl refl approval_goes_through

handle-approved_example :
    (find_batch_id 2 approved_db ≡ some (batch 2 1 500 BatchStatus.approved 2))
    × (keep (in_batch 2) approved_db.items ≡ keep (in_batch 2) sample.items)
handle-approved_example =
    handle-approved env hr (accept_batch 71 none) sample approved_db 2
      (batch 2 1 500 BatchStatus.approved 2) sample-IsSound refl refl approval_goes_through

approve_batch-IsPaid_example : IsPaid hr 1 sample.transactions approved_db
unfolding handlers
approve_batch-IsPaid_example =
    approve_batch-IsPaid env hr 71 none sample approved_db (batch 1 2 300 BatchStatus.in_review 2)
      sample-IsSound refl refl approval_goes_through

-- The approval of the third batch by the manager of its branch.
abbrev passed_on : Db
passed_on = after_call (handle env manager (accept_batch 73 none) sample) sample

first_approval_goes_through : handle env manager (accept_batch 73 none) sample ≡ ok passed_on
unfolding handlers
first_approval_goes_through = refl

approve_batch-waits_example :
    (passed_on.transactions ≡ sample.transactions)
    × ((row : Batch) × (find_batch_id 3 passed_on ≡ some row)
        × (row.status ≡ BatchStatus.manager_approved)
        × (row.current_approval_step ≡ 2))
unfolding handlers
approve_batch-waits_example =
    approve_batch-waits env manager 73 none sample passed_on (batch 3 1 700 BatchStatus.pending 1)
      sample-IsSound (ground arith) refl refl first_approval_goes_through

-- A super admin rejects the first batch.
abbrev turned_down : Db
turned_down = after_call (reject_batch env admin 71 "wrong bank accounts" sample) sample

rejection_goes_through : reject_batch env admin 71 "wrong bank accounts" sample ≡ ok turned_down
unfolding handlers
rejection_goes_through = refl

reject_batch-resubmits_example :
    (db : Db) × (submit_batch env manager 71 turned_down ≡ ok db)
    × ((row : Batch) × (find_batch 71 db ≡ some row)
        × (row.status ≡ BatchStatus.pending)
        × (row.current_approval_step ≡ 1))
reject_batch-resubmits_example =
    reject_batch-resubmits env admin 71 "wrong bank accounts" sample turned_down env manager
      rejection_goes_through
