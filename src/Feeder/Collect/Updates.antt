-- ===== src/Feeder/Collect/Updates.antt =====
-- policyMatcher.go: the matches that are stored after `UpdateSecurityPolicies`.
use kube_armor.Base.Comparable.{text_eq}
use kube_armor.Base.Text.{Text}
use kube_armor.Feeder.State.{Feeder}
