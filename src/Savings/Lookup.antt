-- ===== src/Savings/Lookup.antt =====
-- Lookups of the latest entry, as `Map` answers them.
use reg_pay.Prelude.{
  ℕ, ◌≡◌, refl, sym, ap, ◌∙◌, Bool, false, ◌&&◌, List, [], ◌∷◌, ◌++◌, Option, none, some, ◌==◌,
  if◌then◌else◌, inl, inr, Option-cases,
}
use reg_pay.Prelude.Int.{ℤ}
use reg_pay.Users.{is_id}
use reg_pay.Savings.Rows.{Membership, Contribution}
use reg_pay.Savings.Handlers.{Deduction, find_last}

abbrev pub of_employee : ℕ → Contribution → Bool
of_employee e c = c.employee_id == e

-- The contribution of an employee to a batch.
abbrev pub of_batch : ℕ → ℕ → Contribution → Bool
of_batch batch e c = is_id c.payroll_batch_id batch && (c.employee_id == e)

abbrev pub amount_or : ℤ → Option Contribution → ℤ
amount_or amount none = amount
amount_or amount (some c) = c.amount

-- The deduction of a membership, by what a list of contributions holds for its employee.
abbrev pub entry : (ℕ → Option Contribution) → Membership → Deduction
entry held m = record {
  employee_id = m.employee_id;
  amount = amount_or m.monthly_amount (held m.employee_id);
}

pub find_last-later :
    (p : Contribution → Bool) (x : Contribution) (xs : List Contribution) {y : Contribution}
    → find_last p xs ≡ some y
    → find_last p (x ∷ xs) ≡ some y
unfolding find_last
find_last-later p x xs e =
    ap (λ o. elim o [ some y ↦ some y | none ↦ if p x then some x else none ]) e

pub find_last-here :
    (p : Contribution → Bool) (x : Contribution) (xs : List Contribution)
    → find_last p xs ≡ none
    → find_last p (x ∷ xs) ≡ (if p x then some x else none)
unfolding find_last
find_last-here p x xs e =
    ap (λ o. elim o [ some y ↦ some y | none ↦ if p x then some x else none ]) e

pub find_last-skip :
    (p : Contribution → Bool) (x : Contribution) (xs : List Contribution)
    → p x ≡ false
    → find_last p (x ∷ xs) ≡ find_last p xs
find_last-skip p x xs off = elim (Option-cases (find_last p xs)) [
  | inl missing ↦ find_last-here p x xs missing ∙ rw off refl ∙ sym missing
  | inr (y, found) ↦ find_last-later p x xs found ∙ sym found
]

pub find_last-both :
    (p q : Contribution → Bool) (x : Contribution) (xs ys : List Contribution)
    → p x ≡ q x
    → find_last p xs ≡ find_last q ys
    → find_last p (x ∷ xs) ≡ find_last q (x ∷ ys)
find_last-both p q x xs ys same rest = elim (Option-cases (find_last q ys)) [
  | inl missing ↦
      find_last-here p x xs (rest ∙ missing)
      ∙ ap (λ b. if b then some x else none) same
      ∙ sym (find_last-here q x ys missing)
  | inr (y, found) ↦ find_last-later p x xs (rest ∙ found) ∙ sym (find_last-later q x ys found)
]

-- In a list that goes on, what is found behind is found, else what is found in front.
pub find_last-append-some :
    (p : Contribution → Bool) (xs ys : List Contribution) {y : Contribution}
    → find_last p ys ≡ some y
    → find_last p (xs ++ ys) ≡ some y
find_last-append-some p [] ys e = e
find_last-append-some p (x ∷ xs) ys e =
    find_last-later p x (xs ++ ys) (find_last-append-some p xs ys e)

pub find_last-append-none :
    (p : Contribution → Bool) (xs ys : List Contribution)
    → find_last p ys ≡ none
    → find_last p (xs ++ ys) ≡ find_last p xs
unfolding find_last
find_last-append-none p [] ys e = e
find_last-append-none p (x ∷ xs) ys e =
    ap (λ o. elim o [ some y ↦ some y | none ↦ if p x then some x else none ])
      (find_last-append-none p xs ys e)
