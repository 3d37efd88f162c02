-- ===== src/Monitor.antt =====
-- KubeArmor/monitor: the tables of the system monitor, from namespaces to containers and from
-- process identifiers to process nodes.
pub mod State
pub mod Namespaces
pub mod Tree
pub mod Cleanup
pub mod Paths
pub mod Parser
mod Tests
