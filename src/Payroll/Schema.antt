-- ===== src/Payroll/Schema.antt =====
-- The rows that the payroll service reads and writes (backend/prisma/schema.prisma), and the
-- queries over them. Ids and uuids are numbers, dates are numbers of milliseconds, and amounts are
-- integers of cents, as the columns are decimals with two places.
use reg_pay.Prelude.{
  ℕ, Bool, true, false, List, [], ◌∷◌, Option, none, some, String, ◌==◌, if◌then◌else◌, map,
}
use reg_pay.Prelude.Int.{ℤ}
use reg_pay.Users.{UserRow}

-- `payment_batches_status`, which has the same values as `payment_batch_items_status`.
pub data BatchStatus : Type 0 where
  draft pending in_review manager_approved approved rejected : BatchStatus
  rejected_by_branch_manager rejected_by_super_admin : BatchStatus

pub data TransactionStatus : Type 0 where
  pending paid rejected failed : TransactionStatus

pub record Transaction : Type 0 where
  pub id : ℕ
  pub employee_id : ℕ
  pub gross_amount : ℤ
  pub base_amount : ℤ
  pub allowance_amount : ℤ
  pub tax_amount : ℤ
  pub total_deductions : ℤ
  pub net_amount : ℤ
  pub transaction_status : TransactionStatus
  pub approved_by : Option ℕ

pub record Item : Type 0 where
  pub id : ℕ
  pub uuid : ℕ
  pub payment_batch_id : ℕ
  pub employee_id : ℕ
  pub transaction_id : ℕ
  pub status : BatchStatus
  pub rejection_reason : Option String
  pub approved_by : Option ℕ
  pub approved_at : Option ℕ

-- A batch code is a text built from a template: the constructors hold what is filled in.
pub data BatchCode : Type 0 where
  pay : (year month now : ℕ) → BatchCode
  rejected_from : (branch : String) (month year now : ℕ) → BatchCode

pub data Description : Type 0 where
  text : String → Description
  split_from : BatchCode → Description
  split_from_described : BatchCode → Description → Description

pub record Attachment : Type 0 where
  pub id : ℕ
  pub original_name : String
  pub stored_name : String
  pub mime_type : String
  pub size : ℕ
  pub uploaded_by : ℕ
  pub uploaded_at : ℕ

pub record Batch : Type 0 where
  pub id : ℕ
  pub uuid : ℕ
  pub batch_code : BatchCode
  pub working_location_id : ℕ
  pub payroll_month : ℕ
  pub payroll_year : ℕ
  pub total_employees : ℤ
  pub total_amount : ℤ
  pub total_gross : ℤ
  pub total_allowances : ℤ
  pub total_deductions : ℤ
  pub total_tax : ℤ
  pub status : BatchStatus
  pub current_approval_step : ℕ
  pub rejected_reason : Option String
  pub description : Option Description
  pub attachments : List Attachment
  pub submitted_by : ℕ
  pub approved_by : Option ℕ
  pub submitted_at : Option ℕ
  pub approved_at : Option ℕ

pub data ApprovalVerb : Type 0 where
  approved rejected returned : ApprovalVerb

pub record ApprovalAction : Type 0 where
  pub payment_batch_id : ℕ
  pub step_order : ℕ
  pub action_by : ℕ
  pub action : ApprovalVerb
  pub comment : Option String

pub data AuditVerb : Type 0 where
  created updated approved denied deleted : AuditVerb

pub record AuditLog : Type 0 where
  pub user_id : ℕ
  pub entity_table : String
  pub entity_id : ℕ
  pub action : AuditVerb

-- A call of the notifications service: whom it addresses, its type and the batch it refers to.
pub data Recipient : Type 0 where
  to_user branch_manager : ℕ → Recipient
  admins final_approvers : Recipient

pub record Notification : Type 0 where
  pub recipient : Recipient
  pub sender_id : ℕ
  pub kind : String
  pub reference_id : ℕ

pub record BranchManager : Type 0 where
  pub working_location_id : ℕ
  pub is_active : Bool

pub record WorkingLocation : Type 0 where
  pub id : ℕ
  pub name : String
  pub is_hq : Bool
  pub is_deleted : Bool

-- The tables, the calls of the notifications service in order, and the keys in the cache.
-- `next_batch_id` is the auto-increment counter of `payment_batches`.
pub record Db : Type 0 where
  pub batches : List Batch
  pub items : List Item
  pub transactions : List Transaction
  pub approval_actions : List ApprovalAction
  pub audit_logs : List AuditLog
  pub notifications : List Notification
  pub cache_keys : List String
  pub users : List UserRow
  pub branch_managers : List BranchManager
  pub working_locations : List WorkingLocation
  pub next_batch_id : ℕ

-- What the handlers take from outside: the clock, `generateUUID` (the uuid of each call), and
-- whether the cache manager has a `store` that lists its keys.
pub record Env : Type 0 where
  pub now : ℕ
  pub uuid : ℕ → ℕ
  pub has_store_keys : Bool

-- `status === …`
abbrev pub is_approved : BatchStatus → Bool
is_approved BatchStatus.approved = true
is_approved _ = false

abbrev pub is_rejected : BatchStatus → Bool
is_rejected BatchStatus.rejected = true
is_rejected _ = false

abbrev pub is_pending : BatchStatus → Bool
is_pending BatchStatus.pending = true
is_pending _ = false

-- `updateMany({ where, data })`
abbrev pub update_where {ℓ} : {A : Type ℓ} → (A → Bool) → (A → A) → List A → List A
update_where p f = map (λ x. if p x then f x else x)

-- `update({ where: { id }, data })`, of a batch, an item and a transaction
abbrev pub update_batch : ℕ → (Batch → Batch) → List Batch → List Batch
update_batch id f = update_where (λ b. b.id == id) f

abbrev pub update_item : ℕ → (Item → Item) → List Item → List Item
update_item id f = update_where (λ i. i.id == id) f

abbrev pub update_transaction :
    ℕ → (Transaction → Transaction) → List Transaction → List Transaction
update_transaction id f = update_where (λ t. t.id == id) f

-- `findUnique({ where: { uuid } })` and `findUnique({ where: { id } })`
abbrev pub find_where {ℓ} : {A : Type ℓ} → (A → Bool) → List A → Option A
find_where p [] = none
find_where p (x ∷ xs) = if p x then some x else find_where p xs

abbrev pub find_batch : ℕ → Db → Option Batch
find_batch uuid db = find_where (λ b. b.uuid == uuid) db.batches

abbrev pub find_batch_id : ℕ → Db → Option Batch
find_batch_id id db = find_where (λ b. b.id == id) db.batches

abbrev pub find_item : ℕ → Db → Option Item
find_item uuid db = find_where (λ i. i.uuid == uuid) db.items

abbrev pub in_batch : ℕ → Item → Bool
in_batch id i = i.payment_batch_id == id
