-- ===== src/Watcher.antt =====
-- internal/module/watcher: alerts about pods, nodes and the custom rules, and their mute.
pub mod Pods
pub mod AlertCache
pub mod Cooldown
pub mod Rules
pub mod Nodes
pub mod Applications
pub mod Control
pub mod Muting
mod Tests
