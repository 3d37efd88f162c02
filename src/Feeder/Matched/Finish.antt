-- ===== src/Feeder/Matched/Finish.antt =====
-- policyMatcher.go, `UpdateMatchedPolicy` after the loop over the policies.
use kube_armor.Base.{
  Bool, Option, false, get_or, if◌then◌else◌, is_empty, none, not, some, true, ◌&&◌, [],
}
use kube_armor.Base.Comparable.{text_eq, ◌==◌}
use kube_armor.Base.GoMap.{get, has, put}
use kube_armor.Base.Text.{Text, codes}
use kube_armor.Feeder.Matched.Alerts.{Scan, passed}
use kube_armor.Feeder.Postures.{set_log_fields}
use kube_armor.Feeder.State.{Config, Feeder, Log, empty_log}
use kube_armor.Policy.{DefaultPosture}

-- The value of a Go map at a missing key.
abbrev no_posture : DefaultPosture
no_posture = record { file_action = []; network_action = []; capabilities_action = [] }

-- `setLogFields` with what belongs to the log's operation. The postures, then what is visible of
-- processes, files, networks and capabilities.
unfoldable pub default_fields :
    DefaultPosture → Bool → Bool → Bool → Bool → Bool → Scan → Option (Bool × Log)
default_fields p process file network capabilities container s =
    let op = s.log.operation in
    if op == codes "Process"
    then some (set_log_fields s.log s.file_allow p.file_action process container)
    else if op == codes "File"
    then some (set_log_fields s.log s.file_allow p.file_action file container)
    else if op == codes "Network"
    then some (set_log_fields s.log s.network_allow p.network_action network container)
    else if op == codes "Capabilities"
    then some
        (set_log_fields s.log s.capabilities_allow p.capabilities_action capabilities container)
    else if op == codes "Syscall" && container
    then some (set_log_fields s.log false [] true container)
    else none

-- The log if it is to be kept.
unfoldable pub kept : Option (Bool × Log) → Log
kept none = empty_log
kept (some (keep, log)) = if keep then log else empty_log

-- An event that was allowed gives no alert.
unfoldable pub alert : Log → Log
alert log =
    if not (log.type_name == codes "MatchedPolicy")
    then empty_log
    else if log.action == codes "Allow" && passed log
    then empty_log
    else log

unfoldable pub host_alert : Log → Log
host_alert log =
    if not (log.type_name == codes "MatchedPolicy")
    then empty_log
    else if log.action == codes "Allow" && passed log
    then empty_log
    else record log { type_name = codes "MatchedHostPolicy" }

module _ {Regexp : Type 0} where
  unfoldable pub posture_of : Feeder Regexp → Text → DefaultPosture
  posture_of fd namespace = get_or (get namespace fd.default_postures) no_posture

  -- A default posture for the log's namespace is entered if there is none.
  unfoldable pub with_posture : Config → Text → Feeder Regexp → Feeder Regexp
  with_posture cfg namespace fd =
      if has namespace fd.default_postures
      then fd
      else record fd { default_postures = put namespace cfg.default_posture fd.default_postures }

  unfoldable pub finish_container : Config → Feeder Regexp → Scan → Log × Feeder Regexp
  finish_container cfg fd s =
      if is_empty s.log.type_name
      then (let fd' : Feeder Regexp = with_posture cfg s.log.namespace_name fd in
          (
            kept (
                default_fields (posture_of fd' s.log.namespace_name) s.log.process_visibility
                  s.log.file_visibility s.log.network_visibility s.log.capabilities_visibility true
                  s),
            fd',
          ))
      else (alert s.log, fd)

  unfoldable pub finish_host : Config → Feeder Regexp → Scan → Log × Feeder Regexp
  finish_host cfg fd s =
      if is_empty s.log.type_name
      then (
        kept (
            default_fields cfg.default_posture fd.node.process_visibility fd.node.file_visibility
              fd.node.network_visibility fd.node.capabilities_visibility false s),
        fd,
      )
      else (host_alert s.log, fd)

  unfoldable pub finish : Config → Feeder Regexp → Scan → Log × Feeder Regexp
  finish cfg fd s =
      if is_empty s.log.container_id then finish_host cfg fd s else finish_container cfg fd s
