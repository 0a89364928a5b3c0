-- ===== src/Payroll/Review/Money.antt =====
-- Where the totals of every batch are the sums over its items, the handlers of Payroll/Review keep
-- them so.
use mathlib.Core.Path.{subst}
use reg_pay.Prelude.{ℕ, ◌≡◌, refl, sym, Bool, true, false, Option, String, Bool-cases, inl, inr}
use reg_pay.Permissions.{CurrentUser}
use reg_pay.Payroll.Schema.{Batch, Db, Env}
use reg_pay.Payroll.Access.{ok, is_super_admin}
use reg_pay.Payroll.Drafts.{attach, put_forward}
use reg_pay.Payroll.Items.{recalculate_batch_status, accept, deny}
use reg_pay.Payroll.Batches.{is_final, advance, conclude, turn_down}
use reg_pay.Payroll.Review.{Request, handle}
use reg_pay.Payroll.Review.Effects.{
  in_review, recalculate-cases, paid, paid_item, rejected_row, draft_row, pending_item,
}
use reg_pay.Payroll.Review.Step.{
  Step, attaches, submits, accepts, denies, approves, splits, turns_down, handle-Step,
}
use reg_pay.Payroll.Review.Totals.{
  Column, employees, total, IsSoundDb, IsSound-batches, IsSound-items, IsSound-transactions,
}
use reg_pay.Payroll.Review.SplitTotals.{split-IsSound}

recalculate-IsSound : (id : ℕ) (db : Db) → IsSoundDb db → IsSoundDb (recalculate_batch_status id db)
recalculate-IsSound id db h = elim (recalculate-cases id db) [
  | inl same ↦ subst IsSoundDb (sym same) h
  | inr moved_on ↦ subst IsSoundDb (sym moved_on) (
      IsSound-batches db.batches db.items db.transactions db.next_batch_id _ in_review (λ b. refl)
        (λ b. elim [ employees ↦ refl | _ ↦ refl ]) h)
]

total-advance :
    (env : Env) (actor : CurrentUser) (final : Bool) (batch b : Batch) (c : Column)
    → total c (advance env actor final batch b) ≡ total c b
unfolding advance
total-advance env actor true batch b employees = refl
total-advance env actor true batch b _ = refl
total-advance env actor false batch b employees = refl
total-advance env actor false batch b _ = refl

pub id-advance :
    (env : Env) (actor : CurrentUser) (final : Bool) (batch b : Batch)
    → (advance env actor final batch b).id ≡ b.id
unfolding advance
id-advance env actor true batch b = refl
id-advance env actor false batch b = refl

conclude-IsSound :
    (env : Env) (actor : CurrentUser) (comment : Option String) (final : Bool) (batch : Batch)
    (db : Db)
    → IsSoundDb db
    → IsSoundDb (conclude env actor comment final batch db)
unfolding conclude
conclude-IsSound env actor comment true batch db h =
    IsSound-batches db.batches _ _ _ _ (advance env actor true batch)
      (id-advance env actor true batch) (total-advance env actor true batch)
      (IsSound-items db.batches db.items _ _ _ (paid_item env actor) (λ i. refl) (λ i. refl)
        (λ i. refl)
        (IsSound-transactions db.batches db.items db.transactions _ _ (paid actor) (λ t. refl)
          (λ t. elim [ employees ↦ refl | _ ↦ refl ]) h))
conclude-IsSound env actor comment false batch db h =
    IsSound-batches db.batches db.items db.transactions db.next_batch_id _
      (advance env actor false batch) (id-advance env actor false batch)
      (total-advance env actor false batch) h

turn_down-IsSound :
    (env : Env) (actor : CurrentUser) (reason : String) (batch : Batch) (db : Db)
    → IsSoundDb db
    → IsSoundDb (turn_down env actor reason batch db)
unfolding turn_down
turn_down-IsSound env actor reason batch db h = elim (Bool-cases (is_super_admin actor)) [
  | inl super ↦ rw super (
      IsSound-batches db.batches db.items db.transactions db.next_batch_id _
        (rejected_row env actor reason) (λ b. refl) (λ b. elim [ employees ↦ refl | _ ↦ refl ]) h)
  | inr plain ↦ rw plain (
      IsSound-batches db.batches _ db.transactions db.next_batch_id _ (draft_row reason) (λ b. refl)
        (λ b. elim [ employees ↦ refl | _ ↦ refl ])
        (IsSound-items db.batches db.items db.transactions db.next_batch_id _ pending_item
          (λ i. refl) (λ i. refl) (λ i. refl) h))
]

Step-IsSound :
    {env : Env} {actor : CurrentUser} {db db' : Db}
    → Step env actor db db'
    → IsSoundDb db
    → IsSoundDb db'
unfolding attach put_forward accept deny
Step-IsSound {env} {actor} {db} (attaches uuid batch files found open_batch) h =
    IsSound-batches db.batches db.items db.transactions db.next_batch_id _ _ (λ b. refl)
      (λ r. elim [ employees ↦ refl | _ ↦ refl ]) h
Step-IsSound {env} {actor} {db} (submits uuid batch found open_batch) h =
    IsSound-batches db.batches db.items db.transactions db.next_batch_id _ _ (λ b. refl)
      (λ r. elim [ employees ↦ refl | _ ↦ refl ]) h
Step-IsSound {env} {actor} {db} (accepts uuid item batch found by_id checked) h =
    recalculate-IsSound item.payment_batch_id _ (
      IsSound-items db.batches db.items db.transactions db.next_batch_id _ _ (λ i. refl) (λ i. refl)
        (λ i. refl) h)
Step-IsSound {env} {actor} {db} (denies uuid item batch reason found by_id checked) h =
    recalculate-IsSound item.payment_batch_id _ (
      IsSound-transactions db.batches _ db.transactions db.next_batch_id _ _ (λ t. refl)
        (λ r. elim [ employees ↦ refl | _ ↦ refl ])
        (IsSound-items db.batches db.items db.transactions db.next_batch_id _ _ (λ i. refl)
          (λ i. refl) (λ i. refl) h))
Step-IsSound {env} {actor} {db} (approves uuid batch comment found checked whole) h =
    conclude-IsSound env actor comment (is_final db batch) batch db h
Step-IsSound {env} {actor} {db} (splits uuid batch row comment found checked by_id) h =
    conclude-IsSound env actor comment (is_final db batch) batch _
      (split-IsSound env actor batch.id row db by_id h)
Step-IsSound {env} {actor} {db} (turns_down uuid batch reason found checked) h =
    turn_down-IsSound env actor reason batch db h

-- The six handlers of batches that exist (attachments, submission, approval or rejection of an item
-- or a batch; `createBatch` is not among them) keep sound tables sound when they go through: the ids
-- of batches and of items stay unique, the next number stays free, and if each total of each batch
-- (its number of employees and its five sums of money) was the sum over its items, it still is, also
-- over a split of the rejected items.
pub handle-IsSound :
    (env : Env) (actor : CurrentUser) (request : Request) (db db' : Db)
    → IsSoundDb db
    → handle env actor request db ≡ ok db'
    → IsSoundDb db'
handle-IsSound env actor request db db' h e =
    Step-IsSound (handle-Step env actor request db db' e) h
