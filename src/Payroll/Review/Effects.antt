-- ===== src/Payroll/Review/Effects.antt =====
-- What the writes of each handler do to the tables of batches, items and transactions.
use reg_pay.Prelude.{
  ℕ, ◌≡◌, refl, ◌⊎◌, inl, inr, Bool, true, false, Option, none, some, String, ◌==◌, ◌||◌, length,
  any, if◌then◌else◌, Bool-cases, keep,
}
use reg_pay.Permissions.{CurrentUser}
use reg_pay.Payroll.Schema.{
  BatchStatus, TransactionStatus, Transaction, Item, Batch, Db, Env, update_where, update_batch,
  in_batch, is_pending,
}
use reg_pay.Payroll.Access.{is_super_admin}
use reg_pay.Payroll.Items.{recalculate_batch_status}
use reg_pay.Payroll.Batches.{is_payable, advance, conclude, turn_down}

abbrev pub in_review : Batch → Batch
in_review b = record b { status = BatchStatus.in_review }

-- The row of an item and of a transaction that is paid.
abbrev pub paid_item : Env → CurrentUser → Item → Item
paid_item env actor i = record i {
  status = BatchStatus.approved;
  approved_by = some actor.user_id;
  approved_at = some env.now;
}

abbrev pub paid : CurrentUser → Transaction → Transaction
paid actor t = record t {
  transaction_status = TransactionStatus.paid;
  approved_by = some actor.user_id;
}

abbrev pub pending_item : Item → Item
pending_item i = record i { status = BatchStatus.pending; rejection_reason = none }

-- Either nothing changes, or the batch comes to be in review.
pub recalculate-cases :
    (id : ℕ) (db : Db)
    → (recalculate_batch_status id db ≡ db)
      ⊎ (recalculate_batch_status id db
          ≡ record db { batches = update_batch id in_review db.batches })
unfolding recalculate_batch_status
recalculate-cases id db =
    let items = keep (in_batch id) db.items in
    elim (Bool-cases (length items == 0 || any (λ i. is_pending i.status) items)) [
      | inl waits ↦ inl (rw waits)
      | inr done ↦ inr (rw done)
    ]

module _ (env : Env) (actor : CurrentUser) (comment : Option String) (batch : Batch)
    (split : Db) where
  pub conclude-batches :
      (final : Bool)
      → (conclude env actor comment final batch split).batches
        ≡ update_batch batch.id (advance env actor final batch) split.batches
  unfolding conclude
  conclude-batches true = refl
  conclude-batches false = refl

  pub conclude-items :
      (final : Bool)
      → (conclude env actor comment final batch split).items ≡ (
          if final
          then update_where (is_payable batch.id) (paid_item env actor) split.items
          else split.items)
  unfolding conclude
  conclude-items true = refl
  conclude-items false = refl

  pub conclude-transactions :
      (final : Bool)
      → (conclude env actor comment final batch split).transactions ≡ (
          if final
          then update_where
              (λ t. any (λ i. i.transaction_id == t.id) (keep (is_payable batch.id) split.items))
              (paid actor)
              split.transactions
          else split.transactions)
  unfolding conclude
  conclude-transactions true = refl
  conclude-transactions false = refl

  pub conclude-next_batch_id :
      (final : Bool)
      → (conclude env actor comment final batch split).next_batch_id ≡ split.next_batch_id
  unfolding conclude
  conclude-next_batch_id true = refl
  conclude-next_batch_id false = refl

-- The row of a batch that is turned down.
abbrev pub rejected_row : Env → CurrentUser → String → Batch → Batch
rejected_row env actor reason b = record b {
  status = BatchStatus.rejected;
  rejected_reason = some reason;
  approved_by = some actor.user_id;
  approved_at = some env.now;
}

abbrev pub draft_row : String → Batch → Batch
draft_row reason b = record b {
  status = BatchStatus.draft;
  rejected_reason = some reason;
  current_approval_step = 1;
  approved_by = none;
  approved_at = none;
}

module _ (env : Env) (actor : CurrentUser) (reason : String) (batch : Batch) (db : Db) where
  pub turn_down-rejects :
      is_super_admin actor ≡ true
      → ((turn_down env actor reason batch db).batches
          ≡ update_batch batch.id (rejected_row env actor reason) db.batches)
        × ((turn_down env actor reason batch db).items ≡ db.items)
        × ((turn_down env actor reason batch db).transactions ≡ db.transactions)
        × ((turn_down env actor reason batch db).next_batch_id ≡ db.next_batch_id)
  unfolding turn_down
  turn_down-rejects super = (rw super, rw super, rw super, rw super)

  pub turn_down-returns :
      is_super_admin actor ≡ false
      → ((turn_down env actor reason batch db).batches
          ≡ update_batch batch.id (draft_row reason) db.batches)
        × ((turn_down env actor reason batch db).items
            ≡ update_where (in_batch batch.id) pending_item db.items)
        × ((turn_down env actor reason batch db).transactions ≡ db.transactions)
        × ((turn_down env actor reason batch db).next_batch_id ≡ db.next_batch_id)
  unfolding turn_down
  turn_down-returns plain = (rw plain, rw plain, rw plain, rw plain)
