-- ===== src/Lib.antt =====
-- SmartTable: the core of the restaurant server in apps/api, from the order to the payment.
--
-- The program is a server over one embedded SQLite database. Guests and waiters place orders at a
-- table; the kitchen prepares them; waiters serve them; a cashier records one payment for the
-- visit; the table is cleaned. A visit is a row of `table_bill_groups`. The services check and
-- announce, the repositories hold the transactions, and the driver runs a transaction in one
-- piece.
--
-- The parts, each a module with the modules of its proofs below it:
--   Prelude: tests, lists, signed numbers, and the SQL statements over a list of rows.
--   Domain: packages/shared-types/src/enums.ts, and the exceptions of
--     apps/api/src/common/exceptions/domain.exception.ts.
--   Database: the rows of apps/api/src/database/schema, and what a transaction is.
--   Effects: the actions of a service. Its world is the tables, the audit trail of
--     apps/api/src/modules/audit, and the events of apps/api/src/common/events.
--   BillingMath: apps/api/src/modules/billing/billing-math.ts.
--   Rollups: apps/api/src/database/rollups.ts. Sums, Products and Periods have the proofs.
--   Paging: the listing with a cursor that orders, notifications and the audit trail share. Walk is
--     a client that follows the cursors; its fuel is one more than the number of rows listed.
--   Analytics: apps/api/src/modules/analytics, which reads what Rollups writes. Range has the named
--     ranges and the loop over days, Aggregates the merging of rollups and raw rows, Facts and
--     Derived what is computed from them, Service and Staff the reports. Agreement, Balance, Peaks,
--     Rankings and Days have the proofs.
--   Idempotency: apps/api/src/common/idempotency, with one phase of a request between two awaits.
--     A waiting request polls 40 times (MAX_POLL_ATTEMPTS) at most.
--   Audit: apps/api/src/modules/audit, the listing.
--   Notifications: apps/api/src/modules/notifications. It hears the events of Effects; Delivery is
--     about what it stores, Scope about who sees it.
--   Menu: apps/api/src/modules/menu. Trail is about what a change leaves in the audit trail and on
--     the bus, Changes about old bills and the public menu.
--   Invitations: apps/api/src/modules/invitations. Pending, SingleUse and Race have the proofs.
--   Employees: apps/api/src/modules/employees. Hiring goes from a creation to the acceptance.
--   Orders: apps/api/src/modules/orders. Machine is TRANSITION_RULES, Repository the two
--     transactions, Service the operations; Service/Listing is listOrders; Service/Lifecycle and
--     Service/Creation have the proofs.
--   Billing: apps/api/src/modules/billing. Payment is recordPaymentTransaction (Admission has
--     its steps 1 and 2, Charging the others), Service the bill, Shifts the cash shifts.
--   Tables: apps/api/src/modules/tables.
--   Visits: the floor as the tables and the bill groups show it together, through every write.
--     Race is about the two steps of markCleaned, Checkout about a payment that goes through.
--   Auth: apps/api/src/modules/auth. Pin is the lockout and the login with a PIN, in the piece
--     before its first await and the piece after; Permissions is the baseline
--     (packages/shared-types/src/permissions.ts has the keys) and the guard.
--   Realtime: apps/api/src/common/realtime. Presence is presence-registry.ts, Routing
--     staff-event-router.ts with the rooms that a socket joins.
--   System: a request to the services of orders, billing, shifts, halls and tables, and sequences
--     of these requests and no others. Interface says what a property of the tables
--     has to promise of each transaction; Safety, Shifts and Reports fill it, with the help of
--     Frames; Steps is about what services do around their transactions.
--   Examples: a small restaurant, on which the theorems are applied.
--
-- How the model reads the code. A table is the list of its rows; an id, a point in time, an amount
-- and a token is a number of ℕ, which the code only compares and adds. The numbers of JavaScript
-- are exact below 2 ^ 53, which the amounts stay under. A transaction gives `none` where it throws
-- or the database refuses a row, and is then rolled back. `Env` holds what comes from outside: one
-- reading of the clock for a request (a login with a PIN has three), the ids of the UUID library,
-- the random tokens and the local calendar. The keys and checks of the schema that can refuse a
-- row are written out where a row is inserted: the primary keys, the unique token, the positive
-- amount and quantity, the reason of a cancellation, the channel and the expiry of an invitation,
-- and the foreign keys to `tables` and, of payments, shifts, orders and invitations, to
-- `employees`. The foreign key of the audit trail to the acting employee is not: the actor is the
-- employee of a verified access token or of a trusted device, and no code deletes an employee. Two
-- loops are bounded by a constant, the attempts at a token (QR_TOKEN_MAX_ATTEMPTS) and the polls
-- of a waiting request; the loop over the days of a report has fuel, and Analytics/Days says when
-- fuel is enough; every other loop runs over a list. `Runtime` holds the local calendar and the
-- comparison of names, `Codec` the text form of a cursor, and the settings of the invitations the
-- hash of a token.
--
-- Not modelled: the event stream of an order, password login and device tokens (what the check of
-- a device token answers is an input of the login with a PIN), the socket library behind the
-- gateway, the set-up wizard, the restaurant profile, which are left for later; and what is I/O:
-- backups, image files, health, logging.
pub mod Prelude
pub mod Domain
pub mod Paging
pub mod Database
pub mod BillingMath
pub mod Rollups
pub mod Analytics
pub mod Effects
pub mod Idempotency
pub mod Audit
pub mod Notifications
pub mod Orders
pub mod Visits
pub mod Menu
pub mod Auth
pub mod Invitations
pub mod Employees
pub mod Realtime
pub mod Billing
pub mod Tables
pub mod System
pub mod Examples
