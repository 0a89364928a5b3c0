-- ===== src/Payroll/Review/SplitRows.antt =====
-- What the split of a batch leaves: its row, its items and the transactions.
use mathlib.Core.Path.{subst}
use reg_pay.Prelude.{
  ℕ, ◌<◌, ◌≡◌, refl, sym, ap, ◌∙◌, Bool, false, ◌&&◌, List, [], ◌∷◌, ◌++◌, some, arith, ◌==◌,
  ==_iff, keep, All, Bool-cases, inl, inr,
}
use reg_pay.Permissions.{CurrentUser}
use reg_pay.Payroll.Schema.{
  Item, Batch, Db, Env, is_rejected, update_where, update_batch, find_where, find_batch_id,
  in_batch,
}
use reg_pay.Payroll.Access.{ok}
use reg_pay.Payroll.Split.{
  rejected_items, rejected_batch, subtract_totals, split_rejected, handle_partial_rejection_split,
}
use reg_pay.Payroll.Review.Step.{split-cases}
use reg_pay.Payroll.Review.Sums.{moved, move_items_lem}
use reg_pay.Payroll.Review.Tables.{All-find, find-passes, find-concat, find-update_eq}
use reg_pay.Payroll.Review.Totals.{IsSoundDb}

abbrev pub is_rejected_in : ℕ → Item → Bool
is_rejected_in id i = in_batch id i && is_rejected i.status

nothing_kept :
    {A : Type 0} (p : A → Bool) (xs : List A) → keep p xs ≡ [] → All (λ x. p x ≡ false) xs
nothing_kept p [] h = tt
nothing_kept p (x ∷ xs) h = elim (Bool-cases (p x)) [
  | inl here ↦ absurd (let e : x ∷ keep p xs ≡ [] = rw here at h in cc)
  | inr there ↦ (there, nothing_kept p xs (rw there at h))
]

-- The items that leave are no more in the batch.
moved_away :
    (id next : ℕ) (items : List Item)
    → id < next
    → All (λ i. is_rejected_in id i ≡ false) (update_where (is_rejected_in id) (moved next) items)
moved_away id next [] below = tt
moved_away id next (i ∷ items) below = (ground arith, moved_away id next items below)

-- After the split no item of the batch is rejected, and the transactions are those of before.
pub split-clean :
    (env : Env) (actor : CurrentUser) (id : ℕ) (batch : Batch) (db split : Db)
    → IsSoundDb db
    → find_batch_id id db ≡ some batch
    → handle_partial_rejection_split env actor id db ≡ ok split
    → All (λ i. is_rejected_in id i ≡ false) split.items × (split.transactions ≡ db.transactions)
unfolding split_rejected
split-clean env actor id batch db split h found e = elim (split-cases env actor id db split e) [
  | inl whole ↦
      subst
        (λ (s : Db).
          All (λ i. is_rejected_in id i ≡ false) s.items × (s.transactions ≡ db.transactions))
        whole.1 (nothing_kept _ db.items whole.0, refl)
  | inr (row, by_id, parted) ↦
      let below =
        All-find (λ (b : Batch). b.id < db.next_batch_id) _ db.batches h.batches_numbered found in
      let same : batch.id ≡ id = (==_iff batch.id id).0 (find-passes _ db.batches found) in
      let small : id < db.next_batch_id = omega (arith, same, below) in
      subst
        (λ (s : Db).
          All (λ i. is_rejected_in id i ≡ false) s.items × (s.transactions ≡ db.transactions))
        parted
        (
          subst (All (λ i. is_rejected_in id i ≡ false))
              (sym (move_items_lem id db.next_batch_id db.items h.unique_items))
              (moved_away id db.next_batch_id db.items small),
          refl,
        )
]

-- The batch is still there after the split.
pub split-row :
    (env : Env) (actor : CurrentUser) (id : ℕ) (batch : Batch) (db split : Db)
    → find_batch_id id db ≡ some batch
    → handle_partial_rejection_split env actor id db ≡ ok split
    → (row : Batch) × (find_batch_id id split ≡ some row)
unfolding split_rejected subtract_totals
split-row env actor id batch db split found e = elim (split-cases env actor id db split e) [
  | inl whole ↦ (batch, ap (find_batch_id id) (sym whole.1) ∙ found)
  | inr (row, by_id, parted) ↦
      let same : row.id ≡ id = (==_iff row.id id).0 (find-passes _ db.batches by_id) in
      let reduced = subtract_totals db.transactions (rejected_items id db.items) in
      (
        reduced batch,
        ap (find_batch_id id) (sym parted)
            ∙ subst
                (λ k.
                  find_where (λ (b : Batch). b.id == id)
                    (update_batch k reduced
                      (db.batches ++ rejected_batch env db row (rejected_items id db.items) ∷ []))
                  ≡ some (reduced batch))
                (sym same)
                (find-update_eq (λ (b : Batch). b.id) id reduced _ (λ b. refl)
                  (find-concat _ db.batches _ found)),
      )
]
