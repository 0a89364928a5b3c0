-- ===== src/Payroll/Review/Sums.antt =====
-- Sums over the items of a batch, and what the move of the rejected items does to them.
use reg_pay.Prelude.{
  ℕ, ◌≡◌, refl, ap, ◌∙◌, ◌≢◌, Bool, false, ◌&&◌, ◌||◌, List, [], ◌∷◌, arith, ◌==◌, ==_refl,
  if◌then◌else◌, All, All-zip, any, keep, length,
}
use reg_pay.Prelude.Int.{ℤ, pos, ◌+ℤ◌, ◌-ℤ◌, int_laws}
use reg_pay.Payroll.Schema.{BatchStatus, Transaction, Item, update_where, in_batch, is_rejected}
use reg_pay.Payroll.Split.{amount_of, reduce, move_items, rejected_items}
use reg_pay.Payroll.Review.Tables.{UniqueBy}

abbrev pub sum_all : (Item → ℤ) → List Item → ℤ
sum_all amount [] = pos 0
sum_all amount (i ∷ items) = amount i +ℤ sum_all amount items

-- The sum over the items of one batch.
abbrev pub sum_in : (Item → ℤ) → ℕ → List Item → ℤ
sum_in amount id [] = pos 0
sum_in amount id (i ∷ items) =
    if in_batch id i then amount i +ℤ sum_in amount id items else sum_in amount id items

reduce_from :
    (amount : Item → ℤ) (acc : ℤ) (items : List Item)
    → reduce amount acc items ≡ acc +ℤ sum_all amount items
unfolding reduce
reduce_from amount acc [] = omega int_laws
reduce_from amount acc (i ∷ items) =
    rw (reduce_from amount (acc +ℤ amount i) items) (omega int_laws)

pub reduce_lem :
    (amount : Item → ℤ) (items : List Item) → reduce amount (pos 0) items ≡ sum_all amount items
reduce_lem amount items = rw (reduce_from amount (pos 0) items) (omega int_laws)

pub length-sum_all : (items : List Item) → pos (length items) ≡ sum_all (λ _. pos 1) items
length-sum_all [] = refl
length-sum_all (i ∷ items) = rw (← length-sum_all items) (omega int_laws)

pub sum_in-cong :
    (f g : Item → ℤ) (id : ℕ) (items : List Item)
    → ((i : Item) → f i ≡ g i)
    → sum_in f id items ≡ sum_in g id items
sum_in-cong f g id [] h = refl
sum_in-cong f g id (i ∷ items) h = rw (h i, sum_in-cong f g id items h)

-- An update that keeps the batch and the amount of each item keeps the sums.
pub sum_in-update_where :
    (amount : Item → ℤ) (id : ℕ) (p : Item → Bool) (f : Item → Item) (items : List Item)
    → ((i : Item) → (f i).payment_batch_id ≡ i.payment_batch_id)
    → ((i : Item) → amount (f i) ≡ amount i)
    → sum_in amount id (update_where p f items) ≡ sum_in amount id items
sum_in-update_where amount id p f [] same_batch same = refl
sum_in-update_where amount id p f (i ∷ items) same_batch same =
    ground (arith, sum_in-update_where amount id p f items same_batch same, same_batch i, same i)

-- An update of transactions that keeps ids and amounts keeps the amounts of the items.
pub amount_of-update_where :
    (amount : Transaction → ℤ) (p : Transaction → Bool) (f : Transaction → Transaction)
    (transactions : List Transaction) (i : Item)
    → ((t : Transaction) → (f t).id ≡ t.id)
    → ((t : Transaction) → amount (f t) ≡ amount t)
    → amount_of amount (update_where p f transactions) i ≡ amount_of amount transactions i
amount_of-update_where amount p f [] i same_id same = refl
amount_of-update_where amount p f (t ∷ transactions) i same_id same =
    ground (arith, amount_of-update_where amount p f transactions i same_id same, same_id t, same t)

abbrev pub moved : ℕ → Item → Item
moved new_id i = record i { payment_batch_id = new_id; status = BatchStatus.pending }

-- Two updates by one function are one.
update-twice :
    (p q : Item → Bool) (new_id : ℕ) (items : List Item)
    → ((i : Item) → p (moved new_id i) ≡ p i)
    → update_where p (moved new_id) (update_where q (moved new_id) items)
      ≡ update_where (λ i. q i || p i) (moved new_id) items
update-twice p q new_id [] h = refl
update-twice p q new_id (i ∷ items) h = ground (arith, update-twice p q new_id items h, h i)

update-none : (f : Item → Item) (items : List Item) → items ≡ update_where (λ _. false) f items
update-none f [] = refl
update-none f (i ∷ items) = ap (λ is. i ∷ is) (update-none f items)

move_items-update :
    (new_id : ℕ) (rs items : List Item)
    → move_items new_id rs items
      ≡ update_where (λ i. any (λ (r : Item). i.id == r.id) rs) (moved new_id) items
unfolding move_items
move_items-update new_id [] items = update-none (moved new_id) items
move_items-update new_id (r ∷ rs) items =
    move_items-update new_id rs _
    ∙ update-twice (λ i. any (λ (r' : Item). i.id == r'.id) rs) (λ i. i.id == r.id) new_id items
        (λ i. refl)

update-cong :
    (p q : Item → Bool) (f : Item → Item) (items : List Item)
    → All (λ i. p i ≡ q i) items
    → update_where p f items ≡ update_where q f items
update-cong p q f [] h = refl
update-cong p q f (i ∷ items) h = rw (h.0, update-cong p q f items h.1)

any-keep-false :
    (p q : Item → Bool) (items : List Item)
    → All (λ i. q i ≡ false) items
    → any q (keep p items) ≡ false
any-keep-false p q [] h = refl
any-keep-false p q (i ∷ items) h = ground (arith, any-keep-false p q items h.1)

-- An item is among the kept items, by its id, exactly when it passes the test.
among_kept :
    (p : Item → Bool) (items : List Item)
    → UniqueBy (λ i. i.id) items
    → All (λ i. any (λ (r : Item). i.id == r.id) (keep p items) ≡ p i) items
among_kept p [] u = tt
among_kept p (x ∷ items) u = (
  ground (arith, any-keep-false p (λ (r : Item). x.id == r.id) items u.0, ==_refl x.id),
  All-zip _ _ _ items (λ i apart ih. ground arith) u.0 (among_kept p items u.1),
)

-- The loop moves exactly the rejected items of the batch.
pub move_items_lem :
    (id new_id : ℕ) (items : List Item)
    → UniqueBy (λ i. i.id) items
    → move_items new_id (rejected_items id items) items
      ≡ update_where (λ i. in_batch id i && is_rejected i.status) (moved new_id) items
move_items_lem id new_id items u =
    move_items-update new_id (rejected_items id items) items
    ∙ update-cong _ _ (moved new_id) items
        (among_kept (λ i. in_batch id i && is_rejected i.status) items u)

cancel : (a b c : ℤ) → a +ℤ b -ℤ (a +ℤ c) ≡ b -ℤ c
cancel a b c = omega int_laws

regroup : (a b c : ℤ) → a +ℤ (b -ℤ c) ≡ a +ℤ b -ℤ c
regroup a b c = omega int_laws

-- The sums after the move, of the batch that the items leave, of the batch that they enter, and of
-- any other.
module _ (amount : Item → ℤ) (id new_id : ℕ)
    (same : (i : Item) → amount (moved new_id i) ≡ amount i) where
  abbrev after : List Item → List Item
  after = update_where (λ i. in_batch id i && is_rejected i.status) (moved new_id)

  pub sum_in-left :
      (items : List Item)
      → id ≢ new_id
      → sum_in amount id (after items)
        ≡ sum_in amount id items -ℤ sum_all amount (rejected_items id items)
  sum_in-left [] ne = omega int_laws
  sum_in-left (i ∷ items) ne =
      let all = sum_in amount id items in
      let gone = sum_all amount (rejected_items id items) in
      ground (arith, sum_in-left items ne, cancel (amount i) all gone, regroup (amount i) all gone)

  pub sum_in-entered :
      (items : List Item)
      → id ≢ new_id
      → All (λ i. in_batch new_id i ≡ false) items
      → sum_in amount new_id (after items) ≡ sum_all amount (rejected_items id items)
  sum_in-entered [] ne h = refl
  sum_in-entered (i ∷ items) ne h = ground (arith, sum_in-entered items ne h.1, same i)

  pub sum_in-other :
      (other : ℕ) (items : List Item)
      → other ≢ id
      → other ≢ new_id
      → sum_in amount other (after items) ≡ sum_in amount other items
  sum_in-other other [] ne ne' = refl
  sum_in-other other (i ∷ items) ne ne' = ground (arith, sum_in-other other items ne ne', same i)
