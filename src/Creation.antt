-- ===== src/Creation.antt =====
-- The creation of a payroll batch: the pay of each employee for a period, and the rows that
-- `createBatch` of backend/src/payroll/payroll.service.ts writes.
pub mod Number
pub mod Taxes
pub mod Rows
pub mod Inputs
pub mod Calculation
pub mod Batch
pub mod Writes
pub mod Outcome
pub mod Frame
pub mod Items
pub mod Effects
pub mod Bounds
pub mod Steps
pub mod Headcount
mod Tests
