-- ===== src/Payroll/Review/Totals.antt =====
-- The totals of a batch as sums over its items, and the updates that keep them.
use reg_pay.Prelude.{ℕ, ◌<◌, ◌≡◌, refl, sym, ap, ◌∙◌, Bool, List, none, some, ◌==◌, All, All-imp}
use reg_pay.Prelude.Int.{ℤ, pos}
use reg_pay.Payroll.Schema.{Transaction, Item, Batch, Db, update_where, find_where}
use reg_pay.Payroll.Split.{amount_of}
use reg_pay.Payroll.Review.Tables.{All-update_where, UniqueBy, UniqueBy-update_where}
use reg_pay.Payroll.Review.Sums.{sum_in, sum_in-cong, sum_in-update_where, amount_of-update_where}

-- The totals that a batch carries.
pub data Column : Type 0 where
  employees amount gross allowances deductions tax : Column

abbrev pub total : Column → Batch → ℤ
total employees b = b.total_employees
total amount b = b.total_amount
total gross b = b.total_gross
total allowances b = b.total_allowances
total deductions b = b.total_deductions
total tax b = b.total_tax

abbrev pub field : Column → Transaction → ℤ
field employees t = pos 1
field amount t = t.net_amount
field gross t = t.gross_amount
field allowances t = t.allowance_amount
field deductions t = t.total_deductions
field tax t = t.tax_amount

-- What an item adds to a total: one employee, or an amount of its transaction.
abbrev pub share : Column → List Transaction → Item → ℤ
share employees transactions i = pos 1
share column transactions i = amount_of (field column) transactions i

abbrev pub Agrees : List Item → List Transaction → Batch → Type 0
Agrees items transactions b = (c : Column) → total c b ≡ sum_in (share c transactions) b.id items

-- Ids are unique, items and batches have numbers below the next one, and the totals agree.
pub record IsSound (batches : List Batch) (items : List Item) (transactions : List Transaction)
    (next : ℕ) : Type 0 where
  pub unique_batches : UniqueBy (λ (b : Batch). b.id) batches
  pub unique_items : UniqueBy (λ (i : Item). i.id) items
  pub batches_numbered : All (λ (b : Batch). b.id < next) batches
  pub items_placed : All (λ (i : Item). i.payment_batch_id < next) items
  pub totals : All (Agrees items transactions) batches

abbrev pub IsSoundDb : Db → Type 0
IsSoundDb db = IsSound db.batches db.items db.transactions db.next_batch_id

-- The share of an item depends on the transaction that it names, and on the amounts there.
pub share_by_id :
    (c : Column) (ts : List Transaction) (i j : Item)
    → i.transaction_id ≡ j.transaction_id
    → share c ts i ≡ share c ts j
share_by_id employees ts i j e = refl
share_by_id c ts i j e =
    ap
      (λ k. elim (find_where (λ (t : Transaction). t.id == k) ts) [
        | none ↦ pos 0
        | some t ↦ field c t
      ])
      e

share-update_where :
    (c : Column) (p : Transaction → Bool) (f : Transaction → Transaction) (ts : List Transaction)
    (i : Item)
    → ((t : Transaction) → (f t).id ≡ t.id)
    → ((t : Transaction) (c' : Column) → field c' (f t) ≡ field c' t)
    → share c (update_where p f ts) i ≡ share c ts i
share-update_where employees p f ts i id_kept kept = refl
share-update_where c p f ts i id_kept kept =
    amount_of-update_where (field c) p f ts i id_kept (λ t. kept t c)

module _ (bs : List Batch) (is : List Item) (ts : List Transaction) (n : ℕ) where
  pub IsSound-batches :
      (p : Batch → Bool) (f : Batch → Batch)
      → ((b : Batch) → (f b).id ≡ b.id)
      → ((b : Batch) (c : Column) → total c (f b) ≡ total c b)
      → IsSound bs is ts n
      → IsSound (update_where p f bs) is ts n
  IsSound-batches p f id_kept kept h = record {
    unique_batches = UniqueBy-update_where (λ (b : Batch). b.id) p f bs id_kept h.unique_batches;
    unique_items = h.unique_items;
    batches_numbered =
        All-update_where _ p f bs (λ b _ small. rw (id_kept b) small) h.batches_numbered;
    items_placed = h.items_placed;
    totals =
        All-update_where (Agrees is ts) p f bs (λ b _ agrees c. rw (kept b c, id_kept b) (agrees c))
          h.totals;
  }

  pub IsSound-items :
      (p : Item → Bool) (f : Item → Item)
      → ((i : Item) → (f i).id ≡ i.id)
      → ((i : Item) → (f i).payment_batch_id ≡ i.payment_batch_id)
      → ((i : Item) → (f i).transaction_id ≡ i.transaction_id)
      → IsSound bs is ts n
      → IsSound bs (update_where p f is) ts n
  IsSound-items p f id_kept batch_kept transaction_kept h = record {
    unique_batches = h.unique_batches;
    unique_items = UniqueBy-update_where (λ (i : Item). i.id) p f is id_kept h.unique_items;
    batches_numbered = h.batches_numbered;
    items_placed = All-update_where _ p f is (λ i _ small. rw (batch_kept i) small) h.items_placed;
    totals =
        All-imp (Agrees is ts) _ bs
          (λ b agrees c.
            agrees c
            ∙ sym (
                sum_in-update_where (share c ts) b.id p f is batch_kept
                  (λ i. share_by_id c ts (f i) i (transaction_kept i))))
          h.totals;
  }

  pub IsSound-transactions :
      (p : Transaction → Bool) (f : Transaction → Transaction)
      → ((t : Transaction) → (f t).id ≡ t.id)
      → ((t : Transaction) (c : Column) → field c (f t) ≡ field c t)
      → IsSound bs is ts n
      → IsSound bs is (update_where p f ts) n
  IsSound-transactions p f id_kept kept h = record {
    unique_batches = h.unique_batches;
    unique_items = h.unique_items;
    batches_numbered = h.batches_numbered;
    items_placed = h.items_placed;
    totals =
        All-imp (Agrees is ts) _ bs
          (λ b agrees c.
            agrees c
            ∙ sym (
                sum_in-cong (share c (update_where p f ts)) (share c ts) b.id is
                  (λ i. share-update_where c p f ts i id_kept kept)))
          h.totals;
  }
