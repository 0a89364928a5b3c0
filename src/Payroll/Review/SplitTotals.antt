-- ===== src/Payroll/Review/SplitTotals.antt =====
-- The split of the rejected items moves their share of every total to the new batch.
use mathlib.Core.Path.{subst}
use reg_pay.Prelude.{
  ℕ, suc, ◌<◌, ◌≡◌, refl, sym, ap, ◌∙◌, true, false, ◌&&◌, List, [], ◌∷◌, ◌++◌, some, arith, ◌==◌,
  ==_iff, if◌then◌else◌, All-append, All-imp, All-zip, All-map, Bool-cases, inl, inr,
}
use reg_pay.Prelude.Int.{◌-ℤ◌}
use reg_pay.Permissions.{CurrentUser}
use reg_pay.Payroll.Schema.{
  Transaction, Item, Batch, Db, Env, update_where, update_batch, find_where, in_batch, is_rejected,
}
use reg_pay.Payroll.Split.{
  amount_of, rejected_items, rejected_batch, subtract_totals, split_rejected,
}
use reg_pay.Payroll.Review.Tables.{
  All-find, All-update_where, UniqueBy-update_where, UniqueBy-concat, find-passes,
}
use reg_pay.Payroll.Review.Sums.{
  sum_all, sum_in, reduce_lem, length-sum_all, moved, move_items_lem, sum_in-left, sum_in-entered,
  sum_in-other,
}
use reg_pay.Payroll.Review.Totals.{
  Column, employees, total, field, share, share_by_id, Agrees, IsSound, IsSoundDb,
}

total-subtract :
    (ts : List Transaction) (rejected : List Item) (b : Batch) (c : Column)
    → total c (subtract_totals ts rejected b) ≡ total c b -ℤ sum_all (share c ts) rejected
unfolding subtract_totals
total-subtract ts rejected b employees = rw (length-sum_all rejected)
total-subtract ts rejected b c = rw (reduce_lem (amount_of (field c) ts) rejected)

total-rejected_batch :
    (env : Env) (db : Db) (row : Batch) (rejected : List Item) (c : Column)
    → total c (rejected_batch env db row rejected) ≡ sum_all (share c db.transactions) rejected
unfolding rejected_batch
total-rejected_batch env db row rejected employees = length-sum_all rejected
total-rejected_batch env db row rejected c =
    reduce_lem (amount_of (field c) db.transactions) rejected

share-moved :
    (c : Column) (ts : List Transaction) (new_id : ℕ) (i : Item)
    → share c ts (moved new_id i) ≡ share c ts i
share-moved c ts new_id i = share_by_id c ts (moved new_id i) i refl

-- The items after the split of the rejected items of a batch.
abbrev after : ℕ → ℕ → List Item → List Item
after id next = update_where (λ i. in_batch id i && is_rejected i.status) (moved next)

module _ (env : Env) (row : Batch) (db : Db) (h : IsSoundDb db)
    (small : row.id < db.next_batch_id) where
  abbrev ts : List Transaction
  ts = db.transactions

  abbrev rejected : List Item
  rejected = rejected_items row.id db.items

  left-Agrees :
      (b : Batch)
      → (b.id == row.id) ≡ true
      → Agrees db.items ts b
      → Agrees (after row.id db.next_batch_id db.items) ts (subtract_totals ts rejected b)
  unfolding subtract_totals
  left-Agrees b same agrees c =
      let e : b.id ≡ row.id = (==_iff b.id row.id).0 same in
      total-subtract ts rejected b c
      ∙ ap (λ t. t -ℤ sum_all (share c ts) rejected)
          (agrees c ∙ ap (λ k. sum_in (share c ts) k db.items) e)
      ∙ sym (
          sum_in-left (share c ts) row.id db.next_batch_id (share-moved c ts db.next_batch_id)
            db.items (omega arith))
      ∙ ap (λ k. sum_in (share c ts) k (after row.id db.next_batch_id db.items)) (sym e)

  other-Agrees :
      (b : Batch)
      → (b.id == row.id) ≡ false
      → b.id < db.next_batch_id
      → Agrees db.items ts b
      → Agrees (after row.id db.next_batch_id db.items) ts b
  other-Agrees b other below agrees c =
      agrees c
      ∙ sym (
          sum_in-other (share c ts) row.id db.next_batch_id (share-moved c ts db.next_batch_id) b.id
            db.items (ground arith) (omega arith))

  entered-Agrees :
      Agrees (after row.id db.next_batch_id db.items) ts (rejected_batch env db row rejected)
  unfolding rejected_batch
  entered-Agrees c =
      total-rejected_batch env db row rejected c
      ∙ sym (
          sum_in-entered (share c ts) row.id db.next_batch_id (share-moved c ts db.next_batch_id)
            db.items (omega arith) (All-imp _ _ db.items (λ i below. ground arith) h.items_placed))

  Agrees-after :
      (b : Batch)
      → b.id < db.next_batch_id
      → Agrees db.items ts b
      → Agrees
          (after row.id db.next_batch_id db.items)
          ts
          (if b.id == row.id then subtract_totals ts rejected b else b)
  Agrees-after b below agrees = elim (Bool-cases (b.id == row.id)) [
    | inl same ↦ rw same (left-Agrees b same agrees)
    | inr other ↦ rw other (other-Agrees b other below agrees)
  ]

  split_tables-IsSound :
      IsSound
        (update_batch row.id
          (subtract_totals ts rejected)
          (db.batches ++ rejected_batch env db row rejected ∷ []))
        (after row.id db.next_batch_id db.items)
        ts
        (suc db.next_batch_id)
  unfolding subtract_totals rejected_batch
  split_tables-IsSound = record {
    unique_batches =
        UniqueBy-update_where (λ (b : Batch). b.id) _ (subtract_totals ts rejected) _ (λ b. refl)
          (UniqueBy-concat (λ (b : Batch). b.id) db.batches (rejected_batch env db row rejected)
            (All-imp _ _ db.batches (λ b below. ground arith) h.batches_numbered) h.unique_batches);
    unique_items =
        UniqueBy-update_where (λ (i : Item). i.id) _ (moved db.next_batch_id) db.items (λ i. refl)
          h.unique_items;
    batches_numbered =
        All-update_where _ _ (subtract_totals ts rejected) _ (λ b _ below. below)
          (All-append _ db.batches _
            (All-imp _ _ db.batches (λ b below. omega arith) h.batches_numbered) (omega arith, tt));
    items_placed =
        All-update_where _ _ (moved db.next_batch_id) db.items (λ i _ _. omega arith)
          (All-imp _ _ db.items (λ i below. omega arith) h.items_placed);
    totals = All-map (Agrees (after row.id db.next_batch_id db.items) ts) _ _ (
        All-append _ db.batches _
          (All-zip _ _ _ db.batches Agrees-after h.batches_numbered h.totals)
          (rw apart entered-Agrees, tt));
  }
    where
      apart : (db.next_batch_id == row.id) ≡ false
      apart = ground arith

pub split-IsSound :
    (env : Env) (actor : CurrentUser) (id : ℕ) (row : Batch) (db : Db)
    → find_where (λ (b : Batch). b.id == id) db.batches ≡ some row
    → IsSoundDb db
    → IsSoundDb (split_rejected env actor row (rejected_items id db.items) db)
unfolding split_rejected
split-IsSound env actor id row db found h =
    let e : row.id ≡ id = (==_iff row.id id).0 (find-passes _ db.batches found) in
    let small =
      All-find (λ (b : Batch). b.id < db.next_batch_id) _ db.batches h.batches_numbered found in
    subst (λ k. IsSoundDb (split_rejected env actor row (rejected_items k db.items) db)) e
      (subst
        (λ items.
          IsSound
            (update_batch row.id (subtract_totals db.transactions (rejected_items row.id db.items))
              (db.batches ++ rejected_batch env db row (rejected_items row.id db.items) ∷ []))
            items db.transactions (suc db.next_batch_id))
        (sym (move_items_lem row.id db.next_batch_id db.items h.unique_items))
        (split_tables-IsSound env row db h small))
