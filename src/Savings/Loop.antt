-- ===== src/Savings/Loop.antt =====
-- The loop of `deductForBatch` in backend/src/ikimina/ikimina.service.ts: what it returns and what it
-- creates.
use mathlib.Core.Path.{subst}
use reg_pay.Prelude.{
  ℕ, ◌≡◌, refl, sym, ap, ◌∙◌, Bool, true, false, ◌&&◌, List, [], ◌∷◌, Option, none, some, arith,
  ◌==◌, ==_iff, any, keep, map, All, All-imp, Bool-cases, inl, inr, Option-cases,
}
use reg_pay.Users.{is_id}
use reg_pay.Payroll.Review.Tables.{UniqueBy}
use reg_pay.Savings.Rows.{Savings, Membership, Contribution, invalidate_membership_caches}
use reg_pay.Savings.Handlers.{
  Deduction, find_last, contribution, deduct_one, deduct, existing_contributions, invalidate_all,
}
use reg_pay.Savings.Lookup.{
  of_employee, of_batch, amount_or, entry, find_last-later, find_last-here, find_last-skip,
  find_last-both,
}

module _ (batch : ℕ) (existing : List Contribution) where
  abbrev pub held_of : ℕ → Option Contribution
  held_of e = find_last (of_employee e) existing

  abbrev pub created : List Membership → List Contribution
  created ms = (deduct batch existing ms).1

  pub deduct_one-map :
      (o : Option Contribution) (m : Membership) (rest : List Deduction × List Contribution)
      {ds : List Deduction}
      → rest.0 ≡ ds
      → (deduct_one batch o m rest).0
        ≡ record { employee_id = m.employee_id; amount = amount_or m.monthly_amount o } ∷ ds
  deduct_one-map none m rest e = ap (λ ds. entry (λ _. none) m ∷ ds) e
  deduct_one-map (some c) m rest e = ap (λ ds. entry (λ _. some c) m ∷ ds) e

  pub deduct-map : (ms : List Membership) → (deduct batch existing ms).0 ≡ map (entry held_of) ms
  unfolding deduct
  deduct-map [] = refl
  deduct-map (m ∷ ms) = deduct_one-map (held_of m.employee_id) m _ (deduct-map ms)

  pub created-held :
      (m : Membership) (ms : List Membership) {c : Contribution}
      → held_of m.employee_id ≡ some c
      → created (m ∷ ms) ≡ created ms
  unfolding deduct
  created-held m ms held = ap (λ o. (deduct_one batch o m (deduct batch existing ms)).1) held

  pub created-new :
      (m : Membership) (ms : List Membership)
      → held_of m.employee_id ≡ none
      → created (m ∷ ms) ≡ contribution batch m ∷ created ms
  unfolding deduct
  created-new m ms free = ap (λ o. (deduct_one batch o m (deduct batch existing ms)).1) free

  -- A turn for another employee.
  pub find_last-turn :
      (e : ℕ) (m : Membership) (ms : List Membership)
      → (m.employee_id == e) ≡ false
      → find_last (of_batch batch e) (created ms) ≡ none
      → find_last (of_batch batch e) (created (m ∷ ms)) ≡ none
  find_last-turn e m ms other rest = elim (Option-cases (held_of m.employee_id)) [
    | inr (c, held) ↦ ap (find_last (of_batch batch e)) (created-held m ms held) ∙ rest
    | inl free ↦
        ap (find_last (of_batch batch e)) (created-new m ms free)
        ∙ find_last-here (of_batch batch e) (contribution batch m) (created ms) rest
        ∙ ground arith
  ]

  -- The loop creates nothing for an employee with a contribution.
  pub find_last-held :
      (e : ℕ) (ms : List Membership) {c : Contribution}
      → held_of e ≡ some c
      → find_last (of_batch batch e) (created ms) ≡ none
  unfolding deduct find_last
  find_last-held e [] held = refl
  find_last-held e (m ∷ ms) held = elim (Bool-cases (m.employee_id == e)) [
    | inl same ↦
        let eq : m.employee_id ≡ e = (==_iff m.employee_id e).0 same in
        ap (find_last (of_batch batch e)) (created-held m ms (ap held_of eq ∙ held))
        ∙ find_last-held e ms held
    | inr other ↦ find_last-turn e m ms other (find_last-held e ms held)
  ]

  -- Nor for one without a membership.
  pub find_last-others :
      (e : ℕ) (ms : List Membership)
      → All (λ m. (e == m.employee_id) ≡ false) ms
      → find_last (of_batch batch e) (created ms) ≡ none
  unfolding deduct find_last
  find_last-others e [] h = refl
  find_last-others e (m ∷ ms) h = find_last-turn e m ms (ground arith) (find_last-others e ms h.1)

  pub find_last-created :
      (ms : List Membership)
      → UniqueBy (λ (m : Membership). m.employee_id) ms
      → All
          (λ m.
            held_of m.employee_id ≡ none
            → find_last (of_batch batch m.employee_id) (created ms) ≡ some (contribution batch m))
          ms
  find_last-created [] u = tt
  find_last-created (m ∷ ms) u = (
    λ free.
        ap (find_last (of_batch batch m.employee_id)) (created-new m ms free)
        ∙ find_last-here _ (contribution batch m) (created ms)
            (find_last-others m.employee_id ms u.0)
        ∙ ground arith,
    All-imp _ _ ms (λ m' later free. still m' (later free)) (find_last-created ms u.1),
  )
    where
      still :
          (m' : Membership)
          → find_last (of_batch batch m'.employee_id) (created ms) ≡ some (contribution batch m')
          → find_last (of_batch batch m'.employee_id) (created (m ∷ ms))
            ≡ some (contribution batch m')
      still m' found = elim (Option-cases (held_of m.employee_id)) [
        | inr (c, held) ↦
            ap (find_last (of_batch batch m'.employee_id)) (created-held m ms held) ∙ found
        | inl free ↦
            ap (find_last (of_batch batch m'.employee_id)) (created-new m ms free)
            ∙ find_last-later _ _ (created ms) found
      ]

-- A loop that finds a contribution for every employee creates none.
pub created-nothing :
    (batch : ℕ) (existing : List Contribution) (ms : List Membership)
    → All (λ m. (c : Contribution) × (held_of batch existing m.employee_id ≡ some c)) ms
    → created batch existing ms ≡ []
unfolding deduct
created-nothing batch existing [] h = refl
created-nothing batch existing (m ∷ ms) h =
    created-held batch existing m ms h.0.1 ∙ created-nothing batch existing ms h.1

pub invalidate_all-memberships :
    (ds : List Deduction) (s : Savings) → (invalidate_all ds s).memberships ≡ s.memberships
unfolding invalidate_all invalidate_membership_caches
invalidate_all-memberships [] s = refl
invalidate_all-memberships (d ∷ ds) s =
    invalidate_all-memberships ds (invalidate_membership_caches d.employee_id s)

-- What was fetched before the loop holds the contributions of each active employee to the batch.
pub find_last-existing :
    (batch e : ℕ) (active : List Membership) (cs : List Contribution)
    → any (λ m. m.employee_id == e) active ≡ true
    → find_last (of_employee e) (existing_contributions batch active cs)
      ≡ find_last (of_batch batch e) cs
unfolding find_last
find_last-existing batch e active [] h = refl
find_last-existing batch e active (c ∷ cs) h =
    let rest = find_last-existing batch e active cs h in
    elim (Bool-cases
      (is_id c.payroll_batch_id batch && any (λ m. m.employee_id == c.employee_id) active)) [
        | inl picked ↦ rw picked (
            find_last-both (of_employee e) (of_batch batch e) c
              (existing_contributions batch active cs) cs (ground arith) rest)
        | inr skipped ↦
            rw skipped (rest ∙ sym (find_last-skip (of_batch batch e) c cs (not_of_batch skipped)))
      ]
  where
    not_of_batch :
        (is_id c.payroll_batch_id batch && any (λ m. m.employee_id == c.employee_id) active) ≡ false
        → of_batch batch e c ≡ false
    not_of_batch skipped = elim (Bool-cases (c.employee_id == e)) [
      | inl same ↦
          let eq : c.employee_id ≡ e = (==_iff c.employee_id e).0 same in
          let listed = subst (λ k. any (λ m. m.employee_id == k) active ≡ true) (sym eq) h in
          ground arith
      | inr other ↦ ground arith
    ]

-- A list and the parts of it that are kept.
pub All-keep :
    (P : Membership → Type 0) (p : Membership → Bool) (ms : List Membership)
    → All P ms
    → All P (keep p ms)
All-keep P p [] h = tt
All-keep P p (m ∷ ms) h = elim (Bool-cases (p m)) [
  | inl here ↦ rw here (h.0, All-keep P p ms h.1)
  | inr there ↦ rw there (All-keep P p ms h.1)
]

pub UniqueBy-keep :
    (p : Membership → Bool) (ms : List Membership)
    → UniqueBy (λ (m : Membership). m.employee_id) ms
    → UniqueBy (λ (m : Membership). m.employee_id) (keep p ms)
UniqueBy-keep p [] u = tt
UniqueBy-keep p (m ∷ ms) u = elim (Bool-cases (p m)) [
  | inl here ↦ rw here (All-keep _ p ms u.0, UniqueBy-keep p ms u.1)
  | inr there ↦ rw there (UniqueBy-keep p ms u.1)
]

pub among :
    (ms : List Membership) → All (λ m. any (λ m'. m'.employee_id == m.employee_id) ms ≡ true) ms
among [] = tt
among (m ∷ ms) = (ground arith, All-imp _ _ ms (λ m' h. ground arith) (among ms))
