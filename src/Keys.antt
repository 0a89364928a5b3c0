-- ===== src/Keys.antt =====
-- A `Set<string>` of the source, as the list of its entries in the order of insertion, and
-- `Array.prototype.includes`.
use reg_pay.Prelude.{
  ◌≡◌, refl, Bool, true, not, ◌&&◌, ◌||◌, List, [], ◌∷◌, ◌++◌, String, arith, str_eq, eq_iff,
  if◌then◌else◌, any-append, any, all, Bool-cases, inl, inr,
}

abbrev pub includes : List String → String → Bool
includes keys key = any (λ k. str_eq k key) keys

-- `Set.add`
unfoldable pub add : String → List String → List String
add key keys = if includes keys key then keys else keys ++ key ∷ []

-- `Set.delete`
unfoldable pub delete : String → List String → List String
delete key [] = []
delete key (k ∷ keys) = let rest = delete key keys in if str_eq k key then rest else k ∷ rest

-- A loop `for (const k of ks) keys.add(k)`; `new Set(ks)` is `add_all ks []`.
unfoldable pub add_all : List String → List String → List String
add_all [] keys = keys
add_all (k ∷ ks) keys = add_all ks (add k keys)

pub includes-append :
    (xs ys : List String) (k : String) → includes (xs ++ ys) k ≡ (includes xs k || includes ys k)
includes-append xs ys k = any-append (λ j. str_eq j k) xs ys

pub includes-add :
    (j : String) (keys : List String) (k : String)
    → includes (add j keys) k ≡ (includes keys k || str_eq j k)
unfolding add
includes-add j keys k = elim (Bool-cases (includes keys j)) [
  | inl old ↦ rw old (elim (Bool-cases (str_eq j k)) [
    | inl same ↦ rw (same, ← (eq_iff j k).0 same, old)
    | inr other ↦ rw other (ground arith)
  ])
  | inr new ↦ rw new (ground (arith, includes-append keys (j ∷ []) k))
]

pub includes-add_all :
    (ks keys : List String) (k : String)
    → includes (add_all ks keys) k ≡ (includes keys k || includes ks k)
unfolding add_all
includes-add_all [] keys k = ground arith
includes-add_all (j ∷ ks) keys k =
    ground (arith, includes-add_all ks (add j keys) k, includes-add j keys k)

pub includes-delete :
    (j : String) (keys : List String) (k : String)
    → includes (delete j keys) k ≡ (includes keys k && not (str_eq j k))
unfolding delete
includes-delete j [] k = refl
includes-delete j (i ∷ keys) k =
    ground (arith, includes-delete j keys k, eq_iff i j, eq_iff i k, eq_iff j k)

-- What holds of an entry holds of some entry.
pub any_of_includes :
    (p : String → Bool) (keys : List String) (k : String)
    → includes keys k ≡ true
    → p k ≡ true
    → any p keys ≡ true
any_of_includes p [] k h q = h
any_of_includes p (j ∷ keys) k h q = elim (Bool-cases (str_eq j k)) [
  | inl same ↦ rw ((eq_iff j k).0 same, q)
  | inr other ↦ ground (arith, any_of_includes p keys k)
]

-- The entry that passes a test.
pub witness_of_any :
    (p : String → Bool) (keys : List String)
    → any p keys ≡ true
    → (k : String) × (includes keys k ≡ true) × (p k ≡ true)
witness_of_any p [] h = cc
witness_of_any p (j ∷ keys) h = elim (Bool-cases (p j)) [
  | inl here ↦ (j, ground (arith, eq_iff j j), here)
  | inr later ↦
      let (k, held, passed) = witness_of_any p keys (ground arith) in (k, ground arith, passed)
]

any-add :
    (p : String → Bool) (j : String) (keys : List String) → any p (add j keys) ≡ (any p keys || p j)
unfolding add
any-add p j keys = elim (Bool-cases (includes keys j)) [
  | inl old ↦ ground (arith, any_of_includes p keys j)
  | inr new ↦ ground (arith, any-append p keys (j ∷ []))
]

pub any-add_all :
    (p : String → Bool) (ks keys : List String) → any p (add_all ks keys) ≡ (any p keys || any p ks)
unfolding add_all
any-add_all p [] keys = ground arith
any-add_all p (j ∷ ks) keys = ground (arith, any-add_all p ks (add j keys), any-add p j keys)

-- What all entries pass, an entry passes.
pub all-includes :
    (p : String → Bool) (xs : List String) (x : String)
    → all p xs ≡ true
    → includes xs x ≡ true
    → p x ≡ true
all-includes p [] x h i = cc
all-includes p (y ∷ xs) x h i = elim (Bool-cases (str_eq y x)) [
  | inl same ↦ rw (← (eq_iff y x).0 same) (ground arith)
  | inr other ↦ all-includes p xs x (ground arith) (ground arith)
]
