-- ===== src/Audit/Laws.antt =====
-- What the difference of two entities holds, key by key.
use reg_pay.Prelude.{
  ◌≡◌, refl, arith, Bool, true, false, ◌&&◌, ◌||◌, List, [], ◌∷◌, Option, none, some, String,
  str_eq, eq_iff, Bool-cases, inl, inr, if◌then◌else◌, sym, ap, ◌∙◌,
}
use reg_pay.Keys.{includes, includes-append}
use reg_pay.Audit.{
  AuditValue, Collected, Entries, Serialized, build_audit_diff, candidate_keys, collect, differs,
  get, new_of, old_of, put, unless_empty,
}

get-put :
    {A : Type 0} (j : String) (value : A) (es : Entries A) (k : String)
    → get k (put j value es) ≡ (if str_eq j k then some value else get k es)
unfolding put
get-put j value [] k = refl
get-put j value ((i, a) ∷ es) k = elim (Bool-cases (str_eq i j)) [
  | inl same ↦ rw same (elim (Bool-cases (str_eq j k)) [
    | inl hit ↦ ground (arith, eq_iff i j, eq_iff j k, eq_iff i k)
    | inr miss ↦ ground (arith, eq_iff i j, eq_iff j k, eq_iff i k)
  ])
  | inr other ↦ rw other (ground (arith, get-put j value es k, eq_iff i j, eq_iff j k, eq_iff i k))
]

same_value : (f : String → Serialized) (j k : String) → str_eq j k ≡ true → some (f j) ≡ some (f k)
same_value f j k same = ap (λ i. some (f i)) ((eq_iff j k).0 same)

module _ (old_entity new_entity : Entries AuditValue) where
  -- A key that is among some keys, and whose values differ.
  abbrev pub is_changed : List String → String → Bool
  is_changed keys key = includes keys key && differs old_entity new_entity key

  -- A key that equals one whose values differ has values that differ too, and likewise if not.
  same_verdict :
      (j key : String) (verdict : Bool)
      → differs old_entity new_entity j ≡ verdict
      → str_eq j key ≡ true
      → differs old_entity new_entity key ≡ verdict
  same_verdict j key verdict d same =
      ap (differs old_entity new_entity) (sym ((eq_iff j key).0 same)) ∙ d

  collect-changed :
      (keys : List String) (c : Collected) (key : String)
      → includes (collect old_entity new_entity keys c).changed key
        ≡ (includes c.changed key || is_changed keys key)
  unfolding collect
  collect-changed [] c key = ground arith
  collect-changed (j ∷ keys) c key = elim (Bool-cases (differs old_entity new_entity j)) [
    | inl d ↦
        rw (collect, d)
          (collect-changed keys _ key
            ∙ rw (includes-append c.changed (j ∷ []) key)
                (ground (arith, same_verdict j key true d)))
    | inr d ↦
        rw (collect, d) (collect-changed keys c key ∙ ground (arith, same_verdict j key false d))
  ]

  collect-after :
      (keys : List String) (c : Collected) (key : String)
      → get key (collect old_entity new_entity keys c).after
        ≡ (if is_changed keys key then some (new_of old_entity new_entity key) else get key c.after)
  unfolding collect
  collect-after [] c key = refl
  collect-after (j ∷ keys) c key = elim (Bool-cases (differs old_entity new_entity j)) [
    | inl d ↦
        rw (collect, d)
          (collect-after keys _ key
            ∙ rw (get-put j (new_of old_entity new_entity j) c.after key) (
                ground (
                  arith,
                  same_verdict j key true d,
                  same_value (new_of old_entity new_entity) j key,
                )))
    | inr d ↦
        rw (collect, d) (collect-after keys c key ∙ ground (arith, same_verdict j key false d))
  ]

  collect-before :
      (keys : List String) (c : Collected) (key : String)
      → get key (collect old_entity new_entity keys c).before ≡ (
          if is_changed keys key then some (old_of old_entity new_entity key) else get key c.before)
  unfolding collect
  collect-before [] c key = refl
  collect-before (j ∷ keys) c key = elim (Bool-cases (differs old_entity new_entity j)) [
    | inl d ↦
        rw (collect, d)
          (collect-before keys _ key
            ∙ rw (get-put j (old_of old_entity new_entity j) c.before key) (
                ground (
                  arith,
                  same_verdict j key true d,
                  same_value (old_of old_entity new_entity) j key,
                )))
    | inr d ↦
        rw (collect, d) (collect-before keys c key ∙ ground (arith, same_verdict j key false d))
  ]

  -- The value of a key on a side of the difference, which is `null` where nothing changed.
  abbrev pub side : Option (Entries Serialized) → String → Option Serialized
  side none key = none
  side (some values) key = get key values

  side-unless_empty :
      (changed : List String) (values : Entries Serialized) (key : String) (value : Serialized)
      → get key values ≡ (if includes changed key then some value else none)
      → side (unless_empty old_entity new_entity changed values) key
        ≡ (if includes changed key then some value else none)
  side-unless_empty [] values key value h = refl
  side-unless_empty (k ∷ ks) values key value h = h

  -- The difference of two entities holds exactly the candidate keys whose values differ: they are
  -- the changed fields, and both sides have these keys and no other, with the old value and the new
  -- value.
  pub build_audit_diff_lem :
      (keys : Option (List String)) (key : String)
      → let diff = build_audit_diff old_entity new_entity keys in
        let changed = is_changed (candidate_keys old_entity new_entity keys) key in
        (includes diff.changed_fields key ≡ changed)
        × (side diff.old_values key
            ≡ (if changed then some (old_of old_entity new_entity key) else none))
        × (side diff.new_values key
            ≡ (if changed then some (new_of old_entity new_entity key) else none))
  unfolding build_audit_diff
  build_audit_diff_lem keys key =
      let start : Collected = record { changed = []; before = []; after = [] } in
      let ks = candidate_keys old_entity new_entity keys in
      let c = collect old_entity new_entity ks start in
      let fields = collect-changed ks start key in
      (
        fields,
        rw (← fields)
            (side-unless_empty c.changed c.before key _ (rw fields (collect-before ks start key))),
        rw (← fields)
            (side-unless_empty c.changed c.after key _ (rw fields (collect-after ks start key))),
      )
