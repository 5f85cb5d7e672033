-- ===== src/Storage.antt =====
-- internal/storage/sqlite: the tables, a list of rows each, and the statements of the repositories.
-- A row that a statement inserts goes to the end of its table. A statement that the database refuses
-- for a reason outside its text (no connection, a timeout) is not modelled here: the interfaces that
-- the clients take have an error at each call.
pub mod Users
pub mod Audit
pub mod Freezes
pub mod Postgres
pub mod Roles
pub mod Approvals
mod Tests
