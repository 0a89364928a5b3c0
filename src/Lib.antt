-- ===== src/Lib.antt =====
-- Verification of the backend of REG-PAY, the payroll system of a company with a headquarters and
-- branches. The backend is a NestJS application over a MySQL database behind Prisma.
--
-- A request first passes the guards of its route (backend/src/auth): the strategy reads the user's
-- row again, and the guards compare roles and effective permissions with what the route asks. An
-- interceptor then opens a scope for the request (backend/src/common/interceptors), which the
-- Prisma extension (backend/src/prisma/prisma.service.ts) uses for restricting reads to a working
-- location. The payroll service (backend/src/payroll/payroll.service.ts) moves batches of payments
-- through drafts, an initial and a final approval, and splits the rejected items off into a new
-- batch. The savings service (backend/src/ikimina/ikimina.service.ts) keeps the memberships of a
-- savings programme, and takes a contribution from each member when a batch is created. The
-- attendance service (backend/src/time-records/time-records.service.ts) records the days of the
-- employees, which the creation of a batch reads for their pay.
--
-- Files:
--   Prelude, Prelude/Int, Prelude/Lists   Boolean tests, list functions and integers over the
--     native numbers, with their lemmas.
--   Keys   the operations of a JavaScript `Set` of strings that the code uses, as lists.
--   Constants   backend/src/common/constants/permissions.constants.ts: the registry of
--     permissions, the implied permissions, the baseline roles and the table of scoped models.
--   Permissions   backend/src/common/utils/effective-permissions.util.ts:
--     `buildRawPermissionKeys`, `computeEffectivePermissions` and `hasEffectivePermission`.
--     Permissions/Effective and Permissions/Closure prove what they compute.
--   Users   the rows of `users` that authorisation reads.
--   Guards   `JwtStrategy.validate`, `JwtAuthGuard`, `RolesGuard`, `PermissionsGuard` and their
--     composition in the order of `@UseGuards`; Guards/Laws.
--   Scope   the interceptor and the `$allOperations` extension; Scope/Laws.
--   Payroll/Schema   the tables of backend/prisma/schema.prisma that the payroll service writes,
--     and Prisma's `findUnique`, `findFirst`, `update` and `updateMany` over them.
--   Payroll/Access   `hasInitialApprover`, `hasActiveHrAt`, `resolveFinalApprovalAuthority` and
--     the `ensure…` methods; errors are values of `Result`.
--   Payroll/Log   audit rows, notifications, `clearPayrollCache`.
--   Payroll/Drafts   `addBatchAttachments`, `submitBatch`.
--   Payroll/Items   `approveItem`, `rejectItem`, `recalculateBatchStatus`.
--   Payroll/Split   `handlePartialRejectionSplit`.
--   Payroll/Batches   `approveBatch`, `rejectBatch`.
--   Payroll/Export   `csvCell` and the content of `exportBatchCsv`; Export/Reader is a reader after
--     RFC 4180 that Export/RoundTrip states their meaning with.
--   Payroll/Review   the six handlers of batches that exist (all but `createBatch`) as one function of a request, and the theorems about all of
--     them: Review/Checks inverts the checks, and Review/Step turns a handler that ended well into
--     a step relation. Review/Steps (status and step), Review/Money with Totals, SplitTotals and
--     Sums (the totals) and Review/Frozen (approved batches) go by the cases of that relation.
--     Review/Authority and Review/Payment with SplitRows are about `approveBatch`, Review/Resubmission
--     about `rejectBatch` with `submitBatch`; Review/Effects
--     and Review/Tables have the lemmas that these share; Review/Sample has the tables of the tests.
--   Savings/Rows, Savings/Handlers   backend/src/ikimina/ikimina.service.ts: `createMembership`,
--     `updateMembership`, `removeMembership`, `deductForBatch`. Savings/Changes turns a call that
--     ended well into one of four changes; Savings/Settled and Savings/Members go by its cases, and
--     Savings/Lookup, Savings/Loop and Savings/Deductions are about `deductForBatch`.
--   Attendance/Rows, Attendance/Handlers, Attendance/Import
--     backend/src/time-records/time-records.service.ts: `create`, `update`, `approve`, and
--     `bulkCreate` with the checks of a row. Attendance/Calls turns a call that ended well into one
--     of four changes; Slots, Absence and Reach go by its cases. Attendance/Admission and
--     Attendance/Book are about an import. Attendance/Pending has the reports `findPending` and
--     `findAll`; Attendance/Missing proves what they list, Attendance/Readers to whom.
--   Creation/Number   backend/src/common/utils/payroll-calc.util.ts over the operations of doubles.
--   Creation/Taxes   the taxes of a period in backend/src/system-config/system-config.service.ts.
--   Creation/Rows, Creation/Inputs, Creation/Calculation   `calculateEmployeePayroll`.
--   Creation/Batch, Creation/Writes   `createBatch` with `autoPauseExpiredContracts` of
--     backend/src/employees/employees.service.ts: whom it selects, and what it writes.
--     Creation/Outcome inverts its branches; Creation/Frame, Items and Effects are about the batches
--     and the items, Creation/Bounds about the amounts,
--     Creation/Steps and Creation/Headcount about the rows of the batches.
--   Sessions/Accounts, Sessions/Handlers   backend/src/auth/auth.service.ts: `login`, `refresh`,
--     `logout`, `logoutAll`, `forgotPassword`, `resetPassword`, `verifyAccount` and
--     `resendVerificationCode`; Sessions/Register: `register` and `updateProfile`. Sessions/Login
--     is about logins, Sessions/Rotation about refresh tokens, Sessions/Grants about the permissions
--     of a token.
--   Audit   backend/src/common/utils/audit-diff.util.ts: `serializeAuditValue` and
--     `buildAuditDiff`; Audit/Laws is about the keys and values of a difference.
--
-- How the model stands for the code:
--   * A handler is a function from the tables to the next tables or an error. Its checks come
--     before its writes, and its writes are one database transaction, so an error leaves the
--     tables as they were. Handlers run one after the other.
--   * Ids, uuids and dates are natural numbers. The clock and the uuids that are drawn are
--     arguments (`Env`).
--   * Amounts are integers of cents: the columns are decimals with two places. The sums of
--     `Number(…)` in the split are exact while they stay below 2^53 cents after rounding to the
--     column's two places.
--   * Comparison of texts is exact, also where the database would ignore the case of a name.
--   * Reads are not restricted by working location in the payroll model: Scope shows that the
--     extension leaves the queries on the models of the schema as they are.
--   * A batch code and a generated description are values that hold what the template fills in.
--   * The text of an employee id in a request for a membership stands as what the checks read in
--     it: empty, no row of digits, or a number.
--   * In an export a text is a list of UTF-16 code units, and the runtime's conversions of values to
--     texts are part of a value.
--   * Dates of attendance are numbers of days, as the server reads its dates in UTC. The texts of a
--     request stand as what the checks read in them: missing, invalid, or a value.
--   * The arithmetic of the pay is a parameter, `Number`, with the operations on doubles that the
--     code uses and no law but those that a theorem names; the calendar of dayjs is another.
--     A percentage, an amount and a number of hours of the tables are integers of hundredths.
--   * Hashes of tokens and passwords, signed tokens and drawn codes are arguments (`Crypto`,
--     `Moment`).
--   * Loops are over lists, by recursion on them, but for the loop over the days of a period: its
--     fuel is the number of those days, and it is proved to be enough.
--
-- Not modelled: the views that the handlers return, the metadata of a calculation, the other
-- services (users, employees but for the pause of contracts, departments, positions, payment
-- structures, configuration but for the taxes, notifications, dashboards), mail and uploads, failures
-- of the database itself, and the frontend.
pub mod Prelude
pub mod Keys
pub mod Constants
pub mod Permissions
pub mod Users
pub mod Guards
pub mod Scope
pub mod Payroll
pub mod Attendance
pub mod Audit
pub mod Creation
pub mod Savings
pub mod Sessions
