-- ===== src/Payroll.antt =====
-- The payroll batches of backend/src/payroll/payroll.service.ts: their rows, who may review them,
-- and the handlers that submit, approve, reject and split them.
pub mod Schema
pub mod Access
pub mod Log
pub mod Drafts
pub mod Items
pub mod Split
pub mod Batches
pub mod Review
pub mod Export
