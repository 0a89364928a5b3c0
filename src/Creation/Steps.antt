-- ===== src/Creation/Steps.antt =====
-- The rows of the batches after `createBatch` of backend/src/payroll/payroll.service.ts: their status
-- and step, and their numbers of employees.
use reg_pay.Payroll.Schema.{Batch}
use reg_pay.Creation.Number.{Number}
