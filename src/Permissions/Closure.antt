-- ===== src/Permissions/Closure.antt =====
-- `IMPLIED_PERMISSIONS` is closed under implication, so that one pass of the expansion suffices.
use reg_pay.Prelude.{
  ◌≡◌, refl, sym, ◌∙◌, Bool, true, List, [], ◌∷◌, String, arith, str_eq, any, all, Bool-cases, inl,
  inr,
}
use reg_pay.Keys.{includes, all-includes, any_of_includes, witness_of_any}
use reg_pay.Constants.{lookup, implied_permissions}
use reg_pay.Permissions.{or_empty, implied_by, expand}
use reg_pay.Permissions.Effective.{granted, includes-expand}

abbrev Table : Type 0
Table = List (String × List String)

-- Every key of the first list is in the second.
abbrev pub subset : List String → List String → Bool
subset xs ys = all (λ x. includes ys x) xs

abbrev is_closed : Table → Bool
is_closed table = all (λ e. all (λ b. subset (implied_by b) e.1) e.1) table

implied_permissions-is_closed : is_closed implied_permissions ≡ true
unfolding implied_by lookup
implied_permissions-is_closed = refl

all-lookup :
    (p : List String → Bool) (table : Table) (a : String)
    → p [] ≡ true
    → all (λ e. p e.1) table ≡ true
    → p (or_empty (lookup a table)) ≡ true
unfolding lookup
all-lookup p [] a none_ok h = none_ok
all-lookup p ((k, v) ∷ table) a none_ok h = elim (Bool-cases (str_eq k a)) [
  | inl same ↦ rw same (ground arith)
  | inr other ↦ rw other (all-lookup p table a none_ok (ground arith))
]

implied_by-is_closed :
    (a : String) → all (λ y. subset (implied_by y) (implied_by a)) (implied_by a) ≡ true
unfolding implied_by
implied_by-is_closed a =
    all-lookup (λ xs. all (λ y. subset (implied_by y) xs) xs) implied_permissions a refl
      implied_permissions-is_closed

implied_by_trans :
    (a b c : String)
    → includes (implied_by a) b ≡ true
    → includes (implied_by b) c ≡ true
    → includes (implied_by a) c ≡ true
implied_by_trans a b c hb hc =
    all-includes (λ x. includes (implied_by a) x) (implied_by b) c
      (all-includes (λ y. subset (implied_by y) (implied_by a)) (implied_by a) b
        (implied_by-is_closed a) hb)
      hc

granted_trans :
    (raw : List String) (held key : String)
    → granted raw held ≡ true
    → includes (implied_by held) key ≡ true
    → granted raw key ≡ true
granted_trans raw held key g i = elim (Bool-cases (includes raw held)) [
  | inl direct ↦
      ground (arith, any_of_includes (λ h. includes (implied_by h) key) raw held direct i)
  | inr implied ↦
      let (j, in_raw, by_j) =
        witness_of_any (λ h. includes (implied_by h) held) raw (ground arith) in
      ground (
        arith,
        any_of_includes (λ h. includes (implied_by h) key) raw j in_raw
            (implied_by_trans j held key by_j i),
      )
]

expand_adds_closed :
    (raw : List String) (key : String)
    → any (λ held. includes (implied_by held) key) (expand raw raw) ≡ true
    → includes (expand raw raw) key ≡ true
expand_adds_closed raw key h =
    let (held, inside, implies) =
      witness_of_any (λ k. includes (implied_by k) key) (expand raw raw) h in
    includes-expand raw raw key
    ∙ granted_trans raw held key (sym (includes-expand raw raw held) ∙ inside) implies

-- Expanding a set of keys a second time adds no key: the single pass that the code makes already
-- gives everything that the held keys imply, directly or through other keys.
pub expand_twice :
    (raw : List String) (key : String)
    → includes (expand (expand raw raw) (expand raw raw)) key ≡ includes (expand raw raw) key
expand_twice raw key =
    ground
      (arith, includes-expand (expand raw raw) (expand raw raw) key, expand_adds_closed raw key)
