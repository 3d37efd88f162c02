-- ===== src/Feeder/Matched/Loop.antt =====
-- policyMatcher.go, `UpdateMatchedPolicy` as a whole.
use kube_armor.Base.{
  Bool, List, Option, false, get_or, if◌then◌else◌, is_empty, none, not, some, true, ◌&&◌, ◌||◌,
  ◌++◌, ◌∷◌, [],
}
use kube_armor.Base.Comparable.{text_eq, ◌==◌}
use kube_armor.Base.GoMap.{get}
use kube_armor.Base.Text.{Text, codes}
use kube_armor.Feeder.Matched.Alerts.{Scan, allows}
use kube_armor.Feeder.Matched.Files.{Patterns, step_file}
use kube_armor.Feeder.Matched.Shared.{step_capability, step_network}
use kube_armor.Feeder.Matched.Syscalls.{step_syscall}
use kube_armor.Feeder.Matched.Finish.{finish, posture_of}
use kube_armor.Feeder.State.{Config, Feeder, Log, MatchPolicy}
use kube_armor.Policy.{DefaultPosture}

unfoldable pub policy_key : Config → Log → Text
policy_key cfg log =
    if not (is_empty log.namespace_name) && not (is_empty log.pod_name)
    then log.namespace_name ++ (codes "_" ++ log.pod_name)
    else cfg.host

abbrev pub first_scan : Log → Scan
first_scan log = record {
  log = log;
  skip = false;
  file_allow = false;
  network_allow = false;
  capabilities_allow = false;
}

-- The results that policies are compared with.
unfoldable pub comparable_result : Log → Bool
comparable_result log =
    log.result == codes "Passed"
    || log.result == codes "Operation not permitted"
    || log.result == codes "Permission denied"

module _ {Regexp : Type 0} where
  unfoldable pub note_allow : MatchPolicy Regexp → Scan → Scan
  note_allow m s =
      if not (allows m)
      then s
      else if m.operation == codes "Process" || m.operation == codes "File"
      then record s { file_allow = true }
      else if m.operation == codes "Network"
      then record s { network_allow = true }
      else if m.operation == codes "Capabilities"
      then record s { capabilities_allow = true }
      else s

  -- The switch over the log's operation, for one policy.
  unfoldable pub step :
      Patterns Regexp → Text → DefaultPosture → Bool → MatchPolicy Regexp → Scan → Option Scan
  step ps enforcer p last m s =
      let op = s.log.operation in
      if op == codes "Process" || op == codes "File"
      then some (step_file ps enforcer p.file_action m s)
      else if op == codes "Network"
      then some (step_network last enforcer p.network_action m s)
      else if op == codes "Capabilities"
      then some (step_capability enforcer p.capabilities_action m s)
      else if op == codes "Syscall"
      then step_syscall m s
      else some s

  -- The whole round for one policy.
  unfoldable pub round :
      Patterns Regexp → Text → DefaultPosture → Bool → MatchPolicy Regexp → Scan → Option Scan
  round ps enforcer p last m s =
      if allows m && p.file_action == codes "allow"
      then some (note_allow m s)
      else step ps enforcer p last m (note_allow m s)

  unfoldable pub scan :
      Patterns Regexp → Text → DefaultPosture → List (MatchPolicy Regexp) → Scan → Option Scan
  scan ps enforcer p [] s = some s
  scan ps enforcer p (m ∷ ms) s = elim (round ps enforcer p (is_empty ms) m s) [
    | none ↦ none
    | some s' ↦ scan ps enforcer p ms s'
  ]

  unfoldable pub policies_of : Config → Feeder Regexp → Log → List (MatchPolicy Regexp)
  policies_of cfg fd log = get_or (get (policy_key cfg log) fd.security_policies) []

  unfoldable pub update_matched_policy :
      Patterns Regexp → Config → Log → Feeder Regexp → Option (Log × Feeder Regexp)
  update_matched_policy ps cfg log fd =
      if not (comparable_result log)
      then some (finish cfg fd (first_scan log))
      else if log.type_name == codes "SystemEvent"
      then some (log, fd)
      else elim (scan ps fd.enforcer (posture_of fd log.namespace_name) (policies_of cfg fd log)
          (first_scan log)) [ none ↦ none | some s ↦ some (finish cfg fd s) ]
