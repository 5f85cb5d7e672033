-- ===== src/Clusters.antt =====
-- internal/cluster: the configured clusters, their clients, and the choice of each user.
pub mod Manager
pub mod Clients
pub mod Selection
mod Tests
