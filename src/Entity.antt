-- ===== src/Entity.antt =====
-- internal/entity: the domain records. An int64 identifier is the number of its bit pattern: the
-- program compares identifiers for equality, and with zero, and does nothing else with them.
-- A `time.Time` is a number of nanoseconds since an epoch before every event, and `time.Now()` is an
-- argument of what reads the clock.
pub mod User
pub mod Role
pub mod Request
pub mod Freeze
pub mod Preference
pub mod Audit
