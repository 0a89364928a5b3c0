-- ===== src/Payroll/Log.antt =====
-- The side effects that the handlers of backend/src/payroll/payroll.service.ts share: the audit
-- log, the notifications and the cache.
use text.Mathlib.Text.{starts_with}
use reg_pay.Prelude.{ℕ, not, [], ◌∷◌, ◌++◌, String, str_eq, keep, if◌then◌else◌}
use reg_pay.Payroll.Schema.{AuditVerb, Recipient, Db, Env}

-- `tx.audit_logs.create`
unfoldable pub audit : ℕ → String → ℕ → AuditVerb → Db → Db
audit user_id table id verb db = record db {
  audit_logs =
      db.audit_logs
      ++ record { user_id = user_id; entity_table = table; entity_id = id; action = verb } ∷ [];
}

unfoldable pub notify : Recipient → ℕ → String → ℕ → Db → Db
notify recipient sender kind reference db = record db {
  notifications =
      db.notifications
      ++ record { recipient = recipient; sender_id = sender; kind = kind; reference_id = reference }
        ∷ [];
}

-- `clearPayrollCache`: with a store that lists its keys, those of the batches go; else only the
-- one key "payroll:batches".
unfoldable pub clear_payroll_cache : Env → Db → Db
clear_payroll_cache env db = record db {
  cache_keys =
      if env.has_store_keys
      then keep (λ k. not (starts_with k "payroll:batches")) db.cache_keys
      else keep (λ k. not (str_eq k "payroll:batches")) db.cache_keys;
}
