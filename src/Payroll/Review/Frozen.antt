-- ===== src/Payroll/Review/Frozen.antt =====
-- An approved batch is read-only: what no handler of Payroll/Review does to
-- it and to its items.
use mathlib.Core.Path.{subst}
use mathlib.Core.Option.{some-injective}
use reg_pay.Prelude.{
  ℕ, ◌<◌, ◌≡◌, ◌≢◌, refl, sym, ap, ◌∙◌, Bool, true, false, ◌&&◌, List, Option, some, String, arith,
  ◌==◌, ==_iff, keep, All-imp, Bool-cases, inl, inr, if◌then◌else◌,
}
use reg_pay.Permissions.{CurrentUser}
use reg_pay.Payroll.Schema.{
  BatchStatus, Item, Batch, Db, Env, is_approved, is_rejected, update_where, update_batch,
  find_where, find_batch_id, in_batch,
}
use reg_pay.Payroll.Access.{ok, is_super_admin, ensure_batch_can_still_be_reviewed}
use reg_pay.Payroll.Drafts.{attach, put_forward}
use reg_pay.Payroll.Items.{recalculate_batch_status, accept, deny}
use reg_pay.Payroll.Split.{rejected_items, subtract_totals, split_rejected}
use reg_pay.Payroll.Batches.{is_payable, is_final, conclude, turn_down}
use reg_pay.Payroll.Review.{Request, handle}
use reg_pay.Payroll.Review.Effects.{
  in_review, recalculate-cases, paid_item, rejected_row, draft_row, pending_item, conclude-batches,
  conclude-items, turn_down-rejects, turn_down-returns,
}
use reg_pay.Payroll.Review.Tables.{
  All-find, find_by_key, find-update_ne, find-passes, find-concat, keep-update_where, every,
  only_row,
}
use reg_pay.Payroll.Review.Step.{
  Step, attaches, submits, accepts, denies, approves, splits, turns_down, handle-Step,
}
use reg_pay.Payroll.Review.Sums.{moved, move_items_lem}
use reg_pay.Payroll.Review.Totals.{IsSoundDb}
use reg_pay.Payroll.Review.Money.{id-advance}

reviewable-is_approved :
    (status : BatchStatus)
    → ensure_batch_can_still_be_reviewed status ≡ ok tt
    → is_approved status ≡ false
unfolding ensure_batch_can_still_be_reviewed
reviewable-is_approved BatchStatus.approved h = cc
reviewable-is_approved _ h = refl

-- What stays of a batch: its row, and the rows of its items.
record IsKept (id : ℕ) (old : List Item) (b : Batch) (bs : List Batch) (is : List Item)
    : Type 0 where
  row : find_where (λ (x : Batch). x.id == id) bs ≡ some b
  items : keep (in_batch id) is ≡ keep (in_batch id) old

abbrev IsKeptIn : ℕ → Db → Db → Batch → Type 0
IsKeptIn id db db' b = IsKept id db.items b db'.batches db'.items

module _ (db : Db) (h : IsSoundDb db) (id : ℕ) (b : Batch) (found : find_batch_id id db ≡ some b)
    (approved : b.status ≡ BatchStatus.approved) where
  -- A batch that is not approved is another one.
  another :
      (p : Batch → Bool) (batch : Batch)
      → find_where p db.batches ≡ some batch
      → is_approved batch.status ≡ false
      → batch.id ≢ id
  another p batch e open_batch same =
      let by_id = find_by_key (λ (x : Batch). x.id) p db.batches h.unique_batches e in
      let eq = some-injective batch b (sym by_id ∙ rw same found) in
      ground (arith, ap (λ (x : Batch). x.status) eq)

  update_row :
      (k : ℕ) (f : Batch → Batch)
      → ((x : Batch) → (f x).id ≡ x.id)
      → k ≢ id
      → find_where (λ (x : Batch). x.id == id) (update_batch k f db.batches) ≡ some b
  update_row k f kept ne = find-update_ne (λ (x : Batch). x.id) k id f db.batches kept ne ∙ found

  recalculate_row :
      (k : ℕ) (db' : Db)
      → k ≢ id
      → IsKeptIn id db db' b
      → IsKeptIn id db (recalculate_batch_status k db') b
  recalculate_row k db' ne kept = elim (recalculate-cases k db') [
    | inl same ↦ subst (λ d. IsKeptIn id db d b) (sym same) kept
    | inr moved_on ↦
        subst (λ d. IsKeptIn id db d b) (sym moved_on)
          (record {
            row =
                find-update_ne (λ (x : Batch). x.id) k id in_review db'.batches (λ x. refl) ne
                ∙ kept.row;
            items = kept.items;
          })
  ]

  -- An update of the item that a query found.
  update_one :
      (p : Item → Bool) (item : Item) (f : Item → Item)
      → find_where p db.items ≡ some item
      → item.payment_batch_id ≢ id
      → ((i : Item) → (f i).payment_batch_id ≡ i.payment_batch_id)
      → keep (in_batch id) (update_where (λ i. i.id == item.id) f db.items)
        ≡ keep (in_batch id) db.items
  update_one p item f e ne kept =
      keep-update_where (in_batch id) (λ i. i.id == item.id) f db.items
        (All-imp _ _ db.items
          (λ i only eq. ground (arith, ap (λ (x : Item). x.payment_batch_id) (only eq), kept i))
          (only_row (λ (i : Item). i.id) p db.items h.unique_items e))

  -- An update of items of another batch, which stay in it or leave for a third one.
  update_others :
      (p : Item → Bool) (f : Item → Item)
      → ((i : Item) → p i ≡ true → i.payment_batch_id ≢ id)
      → ((i : Item) → p i ≡ true → (f i).payment_batch_id ≢ id)
      → (items : List Item) → keep (in_batch id) (update_where p f items) ≡ keep (in_batch id) items
  update_others p f outside leaves items = keep-update_where (in_batch id) p f items (
      every (λ i picked. (ground (arith, outside i picked), ground (arith, leaves i picked))) items)

  -- The batch of an item under review.
  item_elsewhere :
      (item : Item) (batch : Batch)
      → find_batch_id item.payment_batch_id db ≡ some batch
      → ensure_batch_can_still_be_reviewed batch.status ≡ ok tt
      → item.payment_batch_id ≢ id
  item_elsewhere item batch by_id reviewable =
      let ne = another _ batch by_id (reviewable-is_approved batch.status reviewable) in
      let same : batch.id ≡ item.payment_batch_id =
        (==_iff batch.id _).0 (find-passes _ db.batches by_id) in
      ground arith

  split_kept :
      (env : Env) (actor : CurrentUser) (k : ℕ) (row : Batch)
      → find_batch_id k db ≡ some row
      → k ≢ id
      → IsKeptIn id db (split_rejected env actor row (rejected_items k db.items) db) b
  unfolding split_rejected subtract_totals
  split_kept env actor k row e ne =
      let same : row.id ≡ k = (==_iff row.id k).0 (find-passes _ db.batches e) in
      let below : b.id < db.next_batch_id =
        All-find (λ (x : Batch). x.id < db.next_batch_id) _ db.batches h.batches_numbered found in
      let its : b.id ≡ id = (==_iff b.id id).0 (find-passes _ db.batches found) in
      record {
        row =
            find-update_ne (λ (x : Batch). x.id) row.id id
              (subtract_totals db.transactions (rejected_items k db.items)) _ (λ x. refl)
              (ground arith)
            ∙ find-concat _ db.batches _ found;
        items =
            ap (keep (in_batch id)) (move_items_lem k db.next_batch_id db.items h.unique_items)
            ∙ update_others (λ i. in_batch k i && is_rejected i.status) (moved db.next_batch_id)
                (λ i picked. ground arith) (λ i picked. omega arith) db.items;
      }

  conclude_kept :
      (env : Env) (actor : CurrentUser) (comment : Option String) (final : Bool) (batch : Batch)
      (split : Db)
      → batch.id ≢ id
      → IsKeptIn id db split b
      → IsKeptIn id db (conclude env actor comment final batch split) b
  conclude_kept env actor comment final batch split ne kept = record {
    row =
        ap (find_where (λ (x : Batch). x.id == id))
          (conclude-batches env actor comment batch split final)
        ∙ find-update_ne (λ (x : Batch). x.id) batch.id id _ split.batches
            (id-advance env actor final batch) ne
        ∙ kept.row;
    items =
        ap (keep (in_batch id)) (conclude-items env actor comment batch split final)
        ∙ paid_others final
        ∙ kept.items;
  }
    where
      paid_others :
          (f : Bool)
          → keep (in_batch id) (
              if f
              then update_where (is_payable batch.id) (paid_item env actor) split.items
              else split.items)
            ≡ keep (in_batch id) split.items
      paid_others true =
          update_others (is_payable batch.id) (paid_item env actor) (λ i picked. ground arith)
            (λ i picked. ground arith) split.items
      paid_others false = refl

  turn_down_kept :
      (env : Env) (actor : CurrentUser) (reason : String) (batch : Batch)
      → batch.id ≢ id
      → IsKeptIn id db (turn_down env actor reason batch db) b
  turn_down_kept env actor reason batch ne = elim (Bool-cases (is_super_admin actor)) [
    | inl super ↦
        let (batches, items, _, _) = turn_down-rejects env actor reason batch db super in
        record {
          row =
              ap (find_where (λ (x : Batch). x.id == id)) batches
              ∙ update_row batch.id (rejected_row env actor reason) (λ x. refl) ne;
          items = ap (keep (in_batch id)) items;
        }
    | inr plain ↦
        let (batches, items, _, _) = turn_down-returns env actor reason batch db plain in
        record {
          row =
              ap (find_where (λ (x : Batch). x.id == id)) batches
              ∙ update_row batch.id (draft_row reason) (λ x. refl) ne;
          items =
              ap (keep (in_batch id)) items
              ∙ update_others (in_batch batch.id) pending_item (λ i picked. ground arith)
                  (λ i picked. ground arith) db.items;
        }
  ]

  Step-kept :
      {env : Env} {actor : CurrentUser} {db' : Db} → Step env actor db db' → IsKeptIn id db db' b
  unfolding attach put_forward accept deny
  Step-kept (attaches uuid batch files e open_batch) = record {
    row = update_row batch.id _ (λ x. refl) (another _ batch e open_batch);
    items = refl;
  }
  Step-kept (submits uuid batch e open_batch) = record {
    row = update_row batch.id _ (λ x. refl) (another _ batch e open_batch);
    items = refl;
  }
  Step-kept (accepts uuid item batch e by_id checked) =
      let ne = item_elsewhere item batch by_id checked.reviewable in
      recalculate_row item.payment_batch_id _ ne
        (record { row = found; items = update_one _ item _ e ne (λ i. refl) })
  Step-kept (denies uuid item batch reason e by_id checked) =
      let ne = item_elsewhere item batch by_id checked.reviewable in
      recalculate_row item.payment_batch_id _ ne
        (record { row = found; items = update_one _ item _ e ne (λ i. refl) })
  Step-kept {env} {actor} (approves uuid batch comment e checked whole) =
      conclude_kept env actor comment (is_final db batch) batch db
        (another _ batch e (reviewable-is_approved batch.status checked.reviewable))
        (record { row = found; items = refl })
  Step-kept {env} {actor} (splits uuid batch row comment e checked by_id) =
      let ne = another _ batch e (reviewable-is_approved batch.status checked.reviewable) in
      conclude_kept env actor comment (is_final db batch) batch _ ne
        (split_kept env actor batch.id row by_id ne)
  Step-kept {env} {actor} (turns_down uuid batch reason e checked) =
      turn_down_kept env actor reason batch
        (another _ batch e (reviewable-is_approved batch.status checked.reviewable))

-- In sound tables an approved batch is frozen: each of the six handlers of batches that exist, where
-- it goes through, leaves its row as it is, and changes, adds or removes none of its items.
pub handle-approved :
    (env : Env) (actor : CurrentUser) (request : Request) (db db' : Db) (id : ℕ) (batch : Batch)
    → IsSoundDb db
    → find_batch_id id db ≡ some batch
    → batch.status ≡ BatchStatus.approved
    → handle env actor request db ≡ ok db'
    → (find_batch_id id db' ≡ some batch)
      × (keep (in_batch id) db'.items ≡ keep (in_batch id) db.items)
handle-approved env actor request db db' id batch h found approved e =
    let kept = Step-kept db h id batch found approved (handle-Step env actor request db db' e) in
    (kept.row, kept.items)
