-- ===== src/Audit.antt =====
-- The differences that audit logs hold: backend/src/common/utils/audit-diff.util.ts.
pub mod Laws
mod Tests
use reg_pay.Prelude.{
  Bool, true, false, not, ◌&&◌, List, [], ◌∷◌, ◌++◌, map, Option, none, some, String, str_eq,
  if◌then◌else◌,
}
use reg_pay.Keys.{add_all}

-- A value of an entity, with the texts that the runtime gives for it: the digits of a big integer,
-- the ISO text of a date, a text itself, the text that `toJSON` of an object gives, as that of a
-- `Decimal` does, or the JSON of any other value, which is "null" for null.
pub data AuditValue : Type 0 where
  big_int date text converted json : String → AuditValue

-- A value that `JSON.stringify` is given: a text, an object whose `toJSON` gives a text, or another
-- one with its JSON, which is not in quotes.
pub data Serialized : Type 0 where
  string object other : String → Serialized

-- `serializeAuditValue`, of an entry that may be missing
abbrev pub serialize_audit_value : Option AuditValue → Serialized
serialize_audit_value none = other "null"
serialize_audit_value (some (big_int digits)) = string digits
serialize_audit_value (some (date iso)) = string iso
serialize_audit_value (some (text t)) = string t
serialize_audit_value (some (converted t)) = object t
serialize_audit_value (some (json t)) = other t

-- The text in the quotes of `JSON.stringify(value)`, or the whole JSON where there are none.
abbrev pub stringify : Serialized → (quoted : Bool) × String
stringify (string t) = (true, t)
stringify (object t) = (true, t)
stringify (other t) = (false, t)

-- `===` of the two JSON texts
abbrev pub same_json : Serialized → Serialized → Bool
same_json v w =
    let (quoted, t) = stringify v in
    let (quoted', t') = stringify w in (if quoted then quoted' else not quoted') && str_eq t t'

-- An object with string keys, as the list of its entries.
abbrev pub Entries : Type 0 → Type 0
Entries A = List (String × A)

abbrev pub get : {A : Type 0} → String → Entries A → Option A
get key [] = none
get key ((k, a) ∷ es) = if str_eq k key then some a else get key es

-- `o[key] = value`
unfoldable pub put : {A : Type 0} → String → A → Entries A → Entries A
put key value [] = (key, value) ∷ []
put key value ((k, a) ∷ es) =
    let rest = put key value es in if str_eq k key then (k, value) ∷ es else (k, a) ∷ rest

abbrev keys_of : Entries AuditValue → List String
keys_of = map (λ e. e.0)

-- `AuditDiff`
pub record AuditDiff : Type 0 where
  pub old_values : Option (Entries Serialized)
  pub new_values : Option (Entries Serialized)
  pub changed_fields : List String

-- What the loop builds.
pub record Collected : Type 0 where
  pub changed : List String
  pub before : Entries Serialized
  pub after : Entries Serialized

module _ (old_entity new_entity : Entries AuditValue) where
  abbrev pub old_of : String → Serialized
  old_of key = serialize_audit_value (get key old_entity)

  abbrev pub new_of : String → Serialized
  new_of key = serialize_audit_value (get key new_entity)

  abbrev pub differs : String → Bool
  differs key = not (same_json (old_of key) (new_of key))

  -- The loop over the candidate keys
  unfoldable pub collect : List String → Collected → Collected
  unfolding put
  collect [] c = c
  collect (key ∷ keys) c = collect keys (
      if differs key
      then record {
        changed = c.changed ++ key ∷ [];
        before = put key (old_of key) c.before;
        after = put key (new_of key) c.after;
      }
      else c)

  -- The keys of both entities, or those that are given.
  abbrev pub candidate_keys : Option (List String) → List String
  candidate_keys none = add_all (keys_of old_entity ++ keys_of new_entity) []
  candidate_keys (some keys) = keys

  abbrev pub unless_empty : {A : Type 0} → List String → A → Option A
  unless_empty [] values = none
  unless_empty (k ∷ ks) values = some values

  -- `buildAuditDiff`; a missing entity is the one without entries.
  unfoldable pub build_audit_diff : Option (List String) → AuditDiff
  unfolding collect
  build_audit_diff keys =
      let c = collect (candidate_keys keys) (record { changed = []; before = []; after = [] }) in
      record {
        old_values = unless_empty c.changed c.before;
        new_values = unless_empty c.changed c.after;
        changed_fields = c.changed;
      }
