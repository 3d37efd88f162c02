-- ===== src/Feeder.antt =====
-- KubeArmor/feeder/policyMatcher.go: the policies that the feeder matches events with.
pub mod State
pub mod Names
pub mod NewMatch
pub mod Collect
pub mod Resources
pub mod Postures
pub mod Host
pub mod Matched
mod Tests
