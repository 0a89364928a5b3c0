-- ===== src/Savings.antt =====
-- The savings programme of backend/src/ikimina/ikimina.service.ts: memberships of employees, and
-- the contributions that the creation of a payroll batch takes for them.
pub mod Rows
pub mod Handlers
pub mod Changes
pub mod Settled
pub mod Lookup
pub mod Loop
pub mod Deductions
pub mod Members
mod Tests
