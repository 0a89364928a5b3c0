-- ===== src/Audit/Tests.antt =====
-- A sample of two entities, and the theorem about their difference.
use reg_pay.Prelude.{◌≡◌, if◌then◌else◌, refl, [], ◌∷◌, none, some}
use reg_pay.Audit.{
  AuditValue, Entries, big_int, build_audit_diff, candidate_keys, converted, json, new_of, old_of,
  other, string, text,
}
use reg_pay.Audit.Laws.{build_audit_diff_lem, is_changed, side}
use reg_pay.Keys.{includes}

abbrev old_employee : Entries AuditValue
old_employee =
    ("salary", converted "500")
    ∷ ("id", big_int "7")
    ∷ ("status", text "ACTIVE")
    ∷ ("phone", json "null")
    ∷ []

-- The id as a text is the same as the id as a big integer, and so is a decimal as a text.
abbrev new_employee : Entries AuditValue
new_employee =
    ("salary", text "500")
    ∷ ("id", text "7")
    ∷ ("status", text "PAUSED")
    ∷ ("reason", text "leave")
    ∷ []

diff_example_fields : build_audit_diff old_employee new_employee none ≡ (record {
  old_values = some (("status", string "ACTIVE") ∷ ("reason", other "null") ∷ []);
  new_values = some (("status", string "PAUSED") ∷ ("reason", string "leave") ∷ []);
  changed_fields = "status" ∷ "reason" ∷ [];
})
unfolding build_audit_diff reg_pay.Keys.add_all reg_pay.Keys.add
diff_example_fields = refl

build_audit_diff_lem_example :
    let diff = build_audit_diff old_employee new_employee none in
    let changed =
      is_changed old_employee new_employee
        (candidate_keys old_employee new_employee none)
        "status" in
    (includes diff.changed_fields "status" ≡ changed)
    × (side old_employee new_employee diff.old_values "status"
        ≡ (if changed then some (old_of old_employee new_employee "status") else none))
    × (side old_employee new_employee diff.new_values "status"
        ≡ (if changed then some (new_of old_employee new_employee "status") else none))
build_audit_diff_lem_example = build_audit_diff_lem old_employee new_employee none "status"
