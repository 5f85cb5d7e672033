-- ===== src/Argocd.antt =====
-- internal/module/argocd: the guarded operations on ArgoCD applications.
pub mod Services
pub mod Freezing
pub mod Sync
pub mod Requests
pub mod Http
pub mod Rollback
pub mod Audited
pub mod Gate
mod Tests
