-- ===== src/Payroll/Review/Tables.antt =====
-- Tables as lists of rows: rows found, rows updated, and rows that a key tells apart.
use reg_pay.Prelude.{
  ℕ, ◌≡◌, refl, ap, sym, ◌≢◌, ◌∙◌, Bool, true, false, List, [], ◌∷◌, ◌++◌, some, arith, ◌==◌,
  if◌then◌else◌, All, All-append, All-imp, Bool-cases, inl, inr, keep,
}
use mathlib.Core.Path.{subst}
use mathlib.Core.Option.{some-injective}
use reg_pay.Payroll.Schema.{update_where, find_where}

module _ {ℓ} {A : Type ℓ} where
  -- What holds of every row holds of the row that a query finds.
  pub All-find {κ} :
      (P : A → Type κ) (p : A → Bool) (xs : List A) {x : A}
      → All P xs
      → find_where p xs ≡ some x
      → P x
  All-find P p [] h e = absurd (ground arith)
  All-find P p (y ∷ xs) h e = elim (Bool-cases (p y)) [
    | inl here ↦ subst P (some-injective _ _ (rw here at e)) h.0
    | inr there ↦ All-find P p xs h.1 (rw there at e)
  ]

  pub find-passes : (p : A → Bool) (xs : List A) {x : A} → find_where p xs ≡ some x → p x ≡ true
  find-passes p [] e = cc
  find-passes p (y ∷ xs) e = elim (Bool-cases (p y)) [
    | inl here ↦ ap p (sym (some-injective _ _ (rw here at e))) ∙ here
    | inr there ↦ find-passes p xs (rw there at e)
  ]

  -- An update keeps what it keeps of each row that it changes.
  pub All-update_where {κ} :
      (P : A → Type κ) (p : A → Bool) (f : A → A) (xs : List A)
      → ((x : A) → p x ≡ true → P x → P (f x))
      → All P xs
      → All P (update_where p f xs)
  All-update_where P p f [] k h = tt
  All-update_where P p f (x ∷ xs) k h = elim (Bool-cases (p x)) [
    | inl here ↦ rw here (k x here h.0, All-update_where P p f xs k h.1)
    | inr there ↦ rw there (h.0, All-update_where P p f xs k h.1)
  ]

  -- The rows have different keys.
  abbrev pub UniqueBy : (A → ℕ) → List A → Type 0
  UniqueBy key [] = Unit
  UniqueBy key (x ∷ xs) = All (λ y. (key x == key y) ≡ false) xs × UniqueBy key xs

  -- A row that any query finds is the row that its key finds.
  pub find_by_key :
      (key : A → ℕ) (p : A → Bool) (xs : List A) {x : A}
      → UniqueBy key xs
      → find_where p xs ≡ some x
      → find_where (λ y. key y == key x) xs ≡ some x
  find_by_key key p [] u e = cc
  find_by_key key p (y ∷ xs) {x} u e = elim (Bool-cases (p y)) [
    | inl here ↦ let same = some-injective y x (rw here at e) in ground (arith, ap key same)
    | inr there ↦
        let later : find_where p xs ≡ some x = rw there at e in
        let other = All-find (λ z. (key y == key z) ≡ false) p xs u.0 later in
        rw other (find_by_key key p xs u.1 later)
  ]

  -- An update of rows with another key, which keeps the keys, does not change what a key finds.
  pub find-update_ne :
      (key : A → ℕ) (j k : ℕ) (f : A → A) (xs : List A)
      → ((x : A) → key (f x) ≡ key x)
      → j ≢ k
      → find_where (λ x. key x == k) (update_where (λ x. key x == j) f xs)
        ≡ find_where (λ x. key x == k) xs
  find-update_ne key j k f [] kept ne = refl
  find-update_ne key j k f (x ∷ xs) kept ne =
      ground (arith, find-update_ne key j k f xs kept ne, kept x)

  -- An update by key, which keeps the keys, of the row that the key finds.
  pub find-update_eq :
      (key : A → ℕ) (k : ℕ) (f : A → A) (xs : List A) {row : A}
      → ((x : A) → key (f x) ≡ key x)
      → find_where (λ x. key x == k) xs ≡ some row
      → find_where (λ x. key x == k) (update_where (λ x. key x == k) f xs) ≡ some (f row)
  find-update_eq key k f [] kept e = cc
  find-update_eq key k f (x ∷ xs) kept e = elim (Bool-cases (key x == k)) [
    | inl here ↦
        let still : (key (f x) == k) ≡ true = rw (kept x) here in
        rw (here, still) (ap some (ap f (some-injective _ _ (rw here at e))))
    | inr there ↦ rw (there, there) (find-update_eq key k f xs kept (rw there at e))
  ]

  All-keys :
      (key : A → ℕ) (p : A → Bool) (f : A → A) (k : ℕ) (xs : List A)
      → ((x : A) → key (f x) ≡ key x)
      → All (λ y. (k == key y) ≡ false) xs
      → All (λ y. (k == key y) ≡ false) (update_where p f xs)
  All-keys key p f k [] kept h = tt
  All-keys key p f k (x ∷ xs) kept h = ground (arith, kept x, All-keys key p f k xs kept h.1)

  pub UniqueBy-update_where :
      (key : A → ℕ) (p : A → Bool) (f : A → A) (xs : List A)
      → ((x : A) → key (f x) ≡ key x)
      → UniqueBy key xs
      → UniqueBy key (update_where p f xs)
  UniqueBy-update_where key p f [] kept u = tt
  UniqueBy-update_where key p f (x ∷ xs) kept u =
      let same : key (if p x then f x else x) ≡ key x = ground (arith, kept x) in
      (rw same (All-keys key p f (key x) xs kept u.0), UniqueBy-update_where key p f xs kept u.1)

  -- A row with a new key may be added.
  pub UniqueBy-concat :
      (key : A → ℕ) (xs : List A) (x : A)
      → All (λ y. (key y == key x) ≡ false) xs
      → UniqueBy key xs
      → UniqueBy key (xs ++ x ∷ [])
  UniqueBy-concat key [] x h u = (tt, tt)
  UniqueBy-concat key (y ∷ xs) x h u =
      (All-append _ xs (x ∷ []) u.0 (h.0, tt), UniqueBy-concat key xs x h.1 u.1)

  pub find-concat :
      (p : A → Bool) (xs ys : List A) {x : A}
      → find_where p xs ≡ some x
      → find_where p (xs ++ ys) ≡ some x
  find-concat p [] ys e = cc
  find-concat p (y ∷ xs) ys e = elim (Bool-cases (p y)) [
    | inl here ↦ rw here (rw here at e)
    | inr there ↦ rw there (find-concat p xs ys (rw there at e))
  ]

  -- An update outside the rows of a query, which moves no row into it, does not change its answer.
  pub keep-update_where :
      (q p : A → Bool) (f : A → A) (xs : List A)
      → All (λ x. p x ≡ true → (q x ≡ false) × (q (f x) ≡ false)) xs
      → keep q (update_where p f xs) ≡ keep q xs
  keep-update_where q p f [] h = refl
  keep-update_where q p f (x ∷ xs) h = elim (Bool-cases (p x)) [
    | inl here ↦ rw (here, (h.0 here).0, (h.0 here).1) (keep-update_where q p f xs h.1)
    | inr there ↦
        rw there (ap (λ rest. if q x then x ∷ rest else rest) (keep-update_where q p f xs h.1))
  ]

  pub every {κ} : {P : A → Type κ} → ((x : A) → P x) → (xs : List A) → All P xs
  every f [] = tt
  every f (x ∷ xs) = (f x, every f xs)

  -- A row found is the only one with its key.
  pub only_row :
      (key : A → ℕ) (p : A → Bool) (xs : List A) {x : A}
      → UniqueBy key xs
      → find_where p xs ≡ some x
      → All (λ y. (key y == key x) ≡ true → y ≡ x) xs
  only_row key p [] u e = tt
  only_row key p (y ∷ xs) {x} u e = elim (Bool-cases (p y)) [
    | inl here ↦
        let same = some-injective y x (rw here at e) in
        (λ _. same, All-imp _ _ xs (λ z apart eq. absurd (ground (arith, ap key same))) u.0)
    | inr there ↦
        let later : find_where p xs ≡ some x = rw there at e in
        let other = All-find (λ z. (key y == key z) ≡ false) p xs u.0 later in
        (λ eq. absurd (ground arith), only_row key p xs u.1 later)
  ]
