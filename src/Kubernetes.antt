-- ===== src/Kubernetes.antt =====
-- internal/module/kubernetes: the handlers that change a cluster, and the lists that lead to them.
pub mod Api
pub mod Nodes
pub mod Drain
pub mod Scale
pub mod Pods
pub mod Rollout
pub mod Namespaces
mod Tests
