-- ===== src/Approval.antt =====
-- internal/module/approval: the approval workflow. Requests are kept by a repository; the manager
-- decides on them under its lock, which neither the
-- expiry worker nor the update after a message takes.
pub mod Repository
pub mod Manager
pub mod Votes
pub mod Workflow
pub mod Soundness
pub mod Calls
pub mod Moves
pub mod Held
pub mod Invariant
pub mod Safety
pub mod Openness
pub mod Execution
pub mod Attach
pub mod Progress
mod Tests
