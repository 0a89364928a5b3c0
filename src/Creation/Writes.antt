-- ===== src/Creation/Writes.antt =====
-- The rows that `createBatch` of backend/src/payroll/payroll.service.ts writes for a batch.
use reg_pay.Prelude.{
  ℕ, suc, Bool, false, not, ◌&&◌, ◌||◌, List, [], ◌∷◌, ◌++◌, Option, none, some, ◌==◌, any, keep,
  map, length, if◌then◌else◌,
}
use reg_pay.Prelude.Int.{ℤ, pos}
use reg_pay.Permissions.{CurrentUser}
use reg_pay.Payroll.Schema.{
  AuditVerb, Batch, BatchCode, BatchStatus, Db, Description, Env, Item, Recipient, Transaction,
  TransactionStatus, find_batch_id, find_where, in_batch, is_approved, is_rejected, update_batch,
  update_where,
}
use reg_pay.Payroll.Access.{err, ok, ensure_actor_can_use_working_location}
use reg_pay.Payroll.Log.{audit, clear_payroll_cache, notify}
use reg_pay.Savings.Handlers.{Deduction, deduct_for_batch}
use reg_pay.Creation.Number.{Number, total}
use reg_pay.Creation.Rows.{Calculation, Calendar, CreateBatchDto, Tables, Worker}
use reg_pay.Creation.Calculation.{
  calculate_employee_payroll, calculated, no_structure, reversed_period,
}
use reg_pay.Creation.Batch.{
  Answer, CreationError, State, active_employees, auto_pause_expired_contracts, created,
  eligible_employees, find_draft, is_draft, refused,
}

module _ {W : Type 0} (N : Number W) (calendar : Calendar) where
  open N use {of_decimal, plus, minus, max_zero, to_decimal}

  -- The loop over the eligible employees; `none` where it throws.
  unfoldable pub calculate_all :
      Tables W → CreateBatchDto W → List Worker → Option (List (Calculation W))
  unfolding calculate_employee_payroll
  calculate_all tables dto [] = some []
  calculate_all tables dto (e ∷ es) = elim (calculate_employee_payroll N calendar tables dto e) [
    | reversed_period ↦ none
    | no_structure ↦ calculate_all tables dto es
    | calculated c ↦ elim (calculate_all tables dto es) [ none ↦ none | some cs ↦ some (c ∷ cs) ]
  ]

  abbrev pub sum_of : (Calculation W → W) → List (Calculation W) → ℤ
  sum_of amount cs = to_decimal (total N (map amount cs))

  -- The totals of a batch
  abbrev pub with_totals : List (Calculation W) → Batch → Batch
  with_totals cs b = record b {
    total_employees = pos (length cs);
    total_amount = sum_of (λ c. c.net_amount) cs;
    total_gross = sum_of (λ c. c.gross_amount) cs;
    total_allowances = sum_of (λ c. c.allowance_amount) cs;
    total_deductions = sum_of (λ c. c.total_deductions) cs;
    total_tax = sum_of (λ c. c.tax_amount) cs;
  }

  abbrev description_of : CreateBatchDto W → Option Description
  description_of dto = elim dto.description [ none ↦ none | some t ↦ some (Description.text t) ]

  abbrev pub new_batch : Env → CurrentUser → CreateBatchDto W → ℕ → Batch
  new_batch env actor dto id = record {
    id = id;
    uuid = env.uuid 0;
    batch_code = BatchCode.pay dto.payroll_year dto.payroll_month env.now;
    working_location_id = dto.working_location_id;
    payroll_month = dto.payroll_month;
    payroll_year = dto.payroll_year;
    total_employees = pos 0;
    total_amount = pos 0;
    total_gross = pos 0;
    total_allowances = pos 0;
    total_deductions = pos 0;
    total_tax = pos 0;
    status = BatchStatus.draft;
    current_approval_step = 1;
    rejected_reason = none;
    description = description_of dto;
    attachments = [];
    submitted_by = actor.user_id;
    approved_by = none;
    submitted_at = some env.now;
    approved_at = none;
  }

  -- The items and transactions of a draft that is calculated again.
  abbrev pub clear_draft : ℕ → Db → Db
  clear_draft id db = record db {
    items = keep (λ i. not (in_batch id i)) db.items;
    transactions =
        keep (λ t. not (any (λ i. in_batch id i && (i.transaction_id == t.id)) db.items))
          db.transactions;
  }

  -- The batch that the rows go to: the draft, emptied, or a new one.
  unfoldable pub open_batch :
      Env → CurrentUser → CreateBatchDto W → List (Calculation W) → Option Batch → Db → Db
  open_batch env actor dto cs (some draft) db =
      let cleared = clear_draft draft.id db in
      record cleared {
        batches =
            update_batch draft.id
              (λ b.
                with_totals cs
                  (record b { description = description_of dto; submitted_at = some env.now }))
              db.batches;
      }
  open_batch env actor dto cs none db = record db {
    batches = db.batches ++ with_totals cs (new_batch env actor dto db.next_batch_id) ∷ [];
    next_batch_id = suc db.next_batch_id;
  }

  abbrev pub new_transaction : ℕ → Calculation W → Transaction
  new_transaction id c = record {
    id = id;
    employee_id = c.employee_id;
    gross_amount = to_decimal c.gross_amount;
    base_amount = to_decimal c.base_amount;
    allowance_amount = to_decimal c.allowance_amount;
    tax_amount = to_decimal c.tax_amount;
    total_deductions = to_decimal c.total_deductions;
    net_amount = to_decimal c.net_amount;
    transaction_status = TransactionStatus.pending;
    approved_by = none;
  }

  abbrev pub new_item : Env → (id batch transaction : ℕ) → Calculation W → Item
  new_item env id batch transaction c = record {
    id = id;
    uuid = env.uuid (suc id);
    payment_batch_id = batch;
    employee_id = c.employee_id;
    transaction_id = transaction;
    status = BatchStatus.pending;
    rejection_reason = none;
    approved_by = none;
    approved_at = none;
  }

  -- `if (calculation.phoneNumber)`: a number that is given and not empty
  abbrev with_phone : Calculation W → List Worker → List Worker
  with_phone c es = elim c.phone_number [
    | none ↦ es
    | some t ↦ elim t [
      | [] ↦ es
      | d ∷ u ↦
          update_where (λ (e : Worker). e.id == c.employee_id)
            (λ e. record e { phone_number = some (d ∷ u) }) es
    ]
  ]

  -- A turn of the loop that writes the calculations.
  abbrev pub write_one : Env → ℕ → Calculation W → State W → State W
  write_one env batch c s =
      let db = s.db in
      record s {
        workers = with_phone c s.workers;
        db = record db {
          transactions = db.transactions ++ new_transaction s.next_transaction_id c ∷ [];
          items = db.items ++ new_item env s.next_item_id batch s.next_transaction_id c ∷ [];
        };
        next_item_id = suc s.next_item_id;
        next_transaction_id = suc s.next_transaction_id;
      }

  unfoldable pub write_calculations : Env → ℕ → List (Calculation W) → State W → State W
  write_calculations env batch [] s = s
  write_calculations env batch (c ∷ cs) s =
      write_calculations env batch cs (write_one env batch c s)

  -- What a deduction for the savings leaves of a calculation.
  abbrev pub adjusted : Deduction → Calculation W → Calculation W
  adjusted d c = record c {
    total_deductions = plus c.total_deductions (of_decimal d.amount);
    net_amount = max_zero (minus c.net_amount (of_decimal d.amount));
  }

  abbrev pub is_calculation_of : ℕ → Calculation W → Bool
  is_calculation_of employee c = c.employee_id == employee

  -- The transactions of an employee in the batch
  abbrev pub pays_in : Db → (batch employee : ℕ) → Transaction → Bool
  pays_in db batch employee t =
      any (λ i. in_batch batch i && ((i.employee_id == employee) && (i.transaction_id == t.id)))
        db.items

  -- The loop over the deductions, which changes the calculations too; an employee has one of them.
  unfoldable pub adjust : ℕ → List Deduction → List (Calculation W) → Db → List (Calculation W) × Db
  adjust batch [] cs db = (cs, db)
  adjust batch (d ∷ ds) cs db = elim (find_where (is_calculation_of d.employee_id) cs) [
    | none ↦ adjust batch ds cs db
    | some c ↦
        adjust batch ds (update_where (is_calculation_of d.employee_id) (λ _. adjusted d c) cs)
          (record db {
            transactions =
                update_where (pays_in db batch d.employee_id)
                  (λ t. record t {
                    total_deductions = to_decimal (adjusted d c).total_deductions;
                    net_amount = to_decimal (adjusted d c).net_amount;
                  })
                  db.transactions;
          })
  ]

  -- The adjustment for the savings, and the totals after it.
  unfoldable pub adjust_for_savings : ℕ → List (Calculation W) → State W → State W
  unfolding deduct_for_batch adjust
  adjust_for_savings batch cs s =
      let (deductions, savings) =
        deduct_for_batch batch (map (λ (c : Calculation W). c.employee_id) cs) s.savings in
      elim deductions [
        | [] ↦ record s { savings = savings }
        | d ∷ ds ↦
            let (cs', db) = adjust batch (d ∷ ds) cs s.db in
            record s {
              savings = savings;
              db = record db {
                batches =
                    update_batch batch
                      (λ b. record b {
                        total_deductions = sum_of (λ c. c.total_deductions) cs';
                        total_amount = sum_of (λ c. c.net_amount) cs';
                      })
                      db.batches;
              };
            }
      ]

  -- The notification after the creation, for a batch that is no draft.
  unfoldable pub notify_unless_draft : CurrentUser → CreateBatchDto W → ℕ → Db → Db
  unfolding notify
  notify_unless_draft actor dto batch db = elim (find_batch_id batch db) [
    | none ↦ db
    | some b ↦
        if is_draft b.status
        then db
        else notify (Recipient.branch_manager dto.working_location_id) actor.user_id
            "PAYROLL_APPROVAL_REQUEST" b.uuid db
  ]

  abbrev pub id_or : ℕ → Option Batch → ℕ
  id_or id none = id
  id_or id (some b) = b.id

  -- The transaction of `createBatch`, and what follows it.
  unfoldable pub write_batch :
      Env → CurrentUser → CreateBatchDto W → List (Calculation W) → State W → State W
  unfolding open_batch write_calculations adjust_for_savings audit notify_unless_draft
      clear_payroll_cache
  write_batch env actor dto cs s =
      let draft = find_draft dto s.db in
      let batch = id_or s.db.next_batch_id draft in
      let opened = record s { db = open_batch env actor dto cs draft s.db } in
      let written = adjust_for_savings batch cs (write_calculations env batch cs opened) in
      let logged = audit actor.user_id "payment_batches" batch AuditVerb.created written.db in
      record written { db = notify_unless_draft actor dto batch (clear_payroll_cache env logged) }

  abbrev pub is_finalized : Option Batch → Bool
  is_finalized none = false
  is_finalized (some b) = is_approved b.status || is_rejected b.status

  -- `createBatch` after the pause of expired contracts.
  unfoldable pub create_from : Env → CurrentUser → CreateBatchDto W → State W → State W × Answer
  unfolding calculate_all write_batch
  create_from env actor dto s = elim (active_employees dto s.workers) [
    | [] ↦ (s, refused CreationError.no_active_employees)
    | _ ∷ _ ↦ elim (eligible_employees dto s.db s.workers) [
      | [] ↦ (s, refused CreationError.all_processed)
      | e ∷ es ↦ elim (calculate_all s.tables dto (e ∷ es)) [
        | none ↦ (s, refused CreationError.period_reversed)
        | some cs ↦ elim cs [
          | [] ↦ (s, refused CreationError.no_structures)
          | c ∷ rest ↦
              if is_finalized (find_draft dto s.db) then (s, refused CreationError.finalized) else (
                write_batch env actor dto (c ∷ rest) s,
                created (id_or s.db.next_batch_id (find_draft dto s.db)),
              )
        ]
      ]
    ]
  ]

  -- `createBatch`
  unfoldable pub create_batch :
      Env → (today : ℕ) → CurrentUser → CreateBatchDto W → State W → State W × Answer
  unfolding ensure_actor_can_use_working_location auto_pause_expired_contracts create_from
  create_batch env today actor dto s =
      if any (λ l. (l.id == dto.working_location_id) && not l.is_deleted) s.db.working_locations
      then elim (ensure_actor_can_use_working_location actor dto.working_location_id) [
        | err e ↦ (s, refused CreationError.other_location)
        | ok u ↦
            create_from env actor dto (auto_pause_expired_contracts today dto.working_location_id s)
      ]
      else (s, refused CreationError.location_missing)
