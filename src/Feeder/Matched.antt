-- ===== src/Feeder/Matched.antt =====
-- policyMatcher.go, `UpdateMatchedPolicy`: the policies of an end point against a log.
mod Tests
pub mod Alerts
pub mod Files
pub mod Shared
pub mod Syscalls
pub mod Finish
pub mod Loop
pub mod Origin
pub mod Reason
pub mod Overwritten
pub mod Allowed
pub mod Decided
