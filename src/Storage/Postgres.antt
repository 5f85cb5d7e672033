-- ===== src/Storage/Postgres.antt =====
-- internal/storage/postgres: the second implementation of the repositories. `round` is what a column of
-- type TIMESTAMPTZ keeps of a time.
pub mod Users
pub mod Roles
pub mod Approvals
pub mod Freezes
pub mod Preferences
pub mod Assignments
pub mod Refinement
pub mod Agreement
