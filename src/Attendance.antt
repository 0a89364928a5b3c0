-- ===== src/Attendance.antt =====
-- The attendance of employees, backend/src/time-records/time-records.service.ts: one record a day
-- for each employee, entered one by one or imported.
pub mod Rows
pub mod Handlers
pub mod Import
pub mod Calls
pub mod Slots
pub mod Absence
pub mod Book
pub mod Admission
pub mod Reach
pub mod Pending
pub mod Missing
pub mod Readers
mod Tests
