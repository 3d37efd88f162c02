-- ===== src/Watcher.antt =====
-- KubeArmor/core/kubeUpdate.go: policies that come from Kubernetes, and the end points that they select.
mod Tests
pub mod Selectors
pub mod Points
pub mod Create
pub mod Hosts
pub mod Visible
pub mod Postures
pub mod Containers
