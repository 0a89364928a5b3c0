-- ===== src/Payroll/Review/Steps.antt =====
-- Status and approval step of a batch: what the handlers of Payroll/Review keep.
use reg_pay.Prelude.{
  ℕ, ◌≤◌, ◌≡◌, sym, List, [], ◌∷◌, ◌++◌, Option, String, arith, ◌==◌, Bool-cases, inl, inr, All,
  All-append,
}
use reg_pay.Permissions.{CurrentUser}
use reg_pay.Payroll.Schema.{BatchStatus, Item, Batch, Db, Env, update_batch}
use reg_pay.Payroll.Access.{ok, is_super_admin}
use reg_pay.Payroll.Drafts.{attach, put_forward}
use reg_pay.Payroll.Items.{recalculate_batch_status, accept, deny}
use reg_pay.Payroll.Split.{rejected_items, rejected_batch, subtract_totals, split_rejected}
use reg_pay.Payroll.Batches.{is_final, advance, conclude, turn_down}
use reg_pay.Payroll.Review.{Request, handle}
use mathlib.Core.Path.{subst}
use reg_pay.Payroll.Review.Effects.{
  in_review, recalculate-cases, conclude-batches, rejected_row, draft_row, turn_down-rejects,
  turn_down-returns,
}
use reg_pay.Payroll.Review.Tables.{All-find, All-update_where}
use reg_pay.Payroll.Review.Step.{
  Step, attaches, submits, accepts, denies, approves, splits, turns_down, handle-Step,
}

-- A batch stands at step 1 or 2. At step 1 while it is a draft or newly submitted, at step 2 once
-- the manager has approved it.
pub record IsOnStep (b : Batch) : Type 0 where
  pub lower : 1 ≤ b.current_approval_step
  pub upper : b.current_approval_step ≤ 2
  pub draft_first : b.status ≡ BatchStatus.draft → b.current_approval_step ≡ 1
  pub pending_first : b.status ≡ BatchStatus.pending → b.current_approval_step ≡ 1
  pub manager_second : b.status ≡ BatchStatus.manager_approved → b.current_approval_step ≡ 2

-- An update of one batch keeps the invariant, if it does so on each row.
update-IsOnStep :
    (id : ℕ) (f : Batch → Batch) (batches : List Batch)
    → ((b : Batch) → IsOnStep b → IsOnStep (f b))
    → All IsOnStep batches
    → All IsOnStep (update_batch id f batches)
update-IsOnStep id f batches k h =
    All-update_where IsOnStep (λ b. b.id == id) f batches (λ b _ on. k b on) h

recalculate-IsOnStep :
    (id : ℕ) (db : Db)
    → All IsOnStep db.batches
    → All IsOnStep (recalculate_batch_status id db).batches
recalculate-IsOnStep id db h = elim (recalculate-cases id db) [
  | inl same ↦ subst (λ (d : Db). All IsOnStep d.batches) (sym same) h
  | inr moved ↦
      subst (λ (d : Db). All IsOnStep d.batches) (sym moved)
        (update-IsOnStep id in_review db.batches (λ b on. ground arith) h)
]

advance-IsOnStep :
    (env : Env) (actor : CurrentUser) (db : Db) (batch b : Batch)
    → IsOnStep batch
    → IsOnStep (advance env actor (is_final db batch) batch b)
unfolding advance
advance-IsOnStep env actor db batch b h = ground arith

conclude-IsOnStep :
    (env : Env) (actor : CurrentUser) (comment : Option String) (db split : Db) (batch : Batch)
    → IsOnStep batch
    → All IsOnStep split.batches
    → All IsOnStep (conclude env actor comment (is_final db batch) batch split).batches
conclude-IsOnStep env actor comment db split batch h hs =
    subst (All IsOnStep) (sym (conclude-batches env actor comment batch split (is_final db batch)))
      (update-IsOnStep batch.id _ split.batches (λ b _. advance-IsOnStep env actor db batch b h) hs)

split-IsOnStep :
    (env : Env) (actor : CurrentUser) (row : Batch) (rejected : List Item) (db : Db)
    → All IsOnStep db.batches
    → All IsOnStep (split_rejected env actor row rejected db).batches
unfolding split_rejected
split-IsOnStep env actor row rejected db h =
    update-IsOnStep row.id (subtract_totals db.transactions rejected)
      (db.batches ++ rejected_batch env db row rejected ∷ []) (λ b on. ground arith)
      (All-append IsOnStep db.batches _ h (ground arith, tt))

turn_down-IsOnStep :
    (env : Env) (actor : CurrentUser) (reason : String) (batch : Batch) (db : Db)
    → All IsOnStep db.batches
    → All IsOnStep (turn_down env actor reason batch db).batches
turn_down-IsOnStep env actor reason batch db h = elim (Bool-cases (is_super_admin actor)) [
  | inl super ↦
      subst (All IsOnStep) (sym (turn_down-rejects env actor reason batch db super).0) (
        update-IsOnStep batch.id (rejected_row env actor reason) db.batches (λ b on. ground arith)
          h)
  | inr plain ↦
      subst (All IsOnStep) (sym (turn_down-returns env actor reason batch db plain).0)
        (update-IsOnStep batch.id (draft_row reason) db.batches (λ b on. ground arith) h)
]

Step-IsOnStep :
    {env : Env} {actor : CurrentUser} {db db' : Db}
    → Step env actor db db'
    → All IsOnStep db.batches
    → All IsOnStep db'.batches
unfolding attach put_forward accept deny
Step-IsOnStep {db} (attaches uuid batch files found open_batch) h =
    update-IsOnStep batch.id _ db.batches (λ b on. ground arith) h
Step-IsOnStep {db} (submits uuid batch found open_batch) h =
    update-IsOnStep batch.id _ db.batches (λ b on. ground arith) h
Step-IsOnStep (accepts uuid item batch found by_id checked) h =
    recalculate-IsOnStep item.payment_batch_id _ h
Step-IsOnStep (denies uuid item batch reason found by_id checked) h =
    recalculate-IsOnStep item.payment_batch_id _ h
Step-IsOnStep {env} {actor} {db} (approves uuid batch comment found checked whole) h =
    conclude-IsOnStep env actor comment db db batch (All-find IsOnStep _ db.batches h found) h
Step-IsOnStep {env} {actor} {db} (splits uuid batch row comment found checked by_id) h =
    conclude-IsOnStep env actor comment db _ batch (All-find IsOnStep _ db.batches h found)
      (split-IsOnStep env actor row (rejected_items batch.id db.items) db h)
Step-IsOnStep {env} {actor} {db} (turns_down uuid batch reason found checked) h =
    turn_down-IsOnStep env actor reason batch db h

-- Each of the six handlers of batches that exist (attachments, submission, approval or rejection of an
-- item or a batch) that goes through keeps the rule of status and step for all batches: a batch stands
-- at step 1 or 2, a draft or a pending one at step 1, and one that the manager has approved at
-- step 2.
pub handle-IsOnStep :
    (env : Env) (actor : CurrentUser) (request : Request) (db db' : Db)
    → All IsOnStep db.batches
    → handle env actor request db ≡ ok db'
    → All IsOnStep db'.batches
handle-IsOnStep env actor request db db' h e =
    Step-IsOnStep (handle-Step env actor request db db' e) h
