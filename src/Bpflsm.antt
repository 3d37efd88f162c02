-- ===== src/Bpflsm.antt =====
-- KubeArmor/enforcer/bpflsm: the BPF LSM enforcer, which turns policies into entries of kernel maps.
pub mod Keys
pub mod Masks
pub mod Directory
pub mod RuleList
pub mod Fresh
pub mod Kernel
pub mod Sync
pub mod Enforcer
mod Samples
mod Tests
mod RuleTests
