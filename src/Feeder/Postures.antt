-- ===== src/Feeder/Postures.antt =====
-- policyMatcher.go, `UpdateDefaultPosture` and `setLogFields`.
pub mod Skipped
use kube_armor.Base.{Bool, false, if◌then◌else◌, not, true, ◌&&◌}
use kube_armor.Base.Comparable.{text_eq, ◌==◌}
use kube_armor.Base.GoMap.{delete, put}
use kube_armor.Base.Text.{Text, codes}
use kube_armor.Feeder.State.{Feeder, Log}
use kube_armor.Policy.{DefaultPosture}

unfoldable pub update_default_posture :
    {Regexp : Type 0} → Text → Text → DefaultPosture → Feeder Regexp → Feeder Regexp
update_default_posture action namespace p fd =
    if action == codes "DELETED"
    then record fd { default_postures = delete namespace fd.default_postures }
    else record fd { default_postures = put namespace p fd.default_postures }

-- The log of a default posture that was met.
unfoldable pub posture_log : Bool → Text → Log → Log
posture_log container_event action log = record log {
  type_name = if container_event then codes "MatchedPolicy" else codes "MatchedHostPolicy";
  policy_name = codes "DefaultPosture";
  enforcer = codes "eBPF Monitor";
  action = action;
}

-- The result is false where the log is to be skipped.
unfoldable pub set_log_fields : Log → Bool → Text → Bool → Bool → Bool × Log
set_log_fields log exist_allow_policy posture visibility container_event =
    if exist_allow_policy && posture == codes "audit" && log.result == codes "Passed"
    then (true, posture_log container_event (codes "Audit") log)
    else if exist_allow_policy && posture == codes "block" && not (log.result == codes "Passed")
    then (true, posture_log container_event (codes "Block") log)
    else if container_event
    then (true, record log { type_name = codes "ContainerLog" })
    else (visibility, record log { type_name = codes "HostLog" })
