-- ===== src/Feeder/Matched/Shared.antt =====
-- policyMatcher.go, `UpdateMatchedPolicy`: the cases of networks and of capabilities.
use kube_armor.Base.{
  Bool, List, Option, if◌then◌else◌, none, not, or_else, some, true, ◌&&◌, ◌||◌, ◌++◌, ◌∷◌, [],
  get_or,
}
use kube_armor.Base.Comparable.{text_eq, ◌==◌}
use kube_armor.Base.Text.{Text, codes, contains, has_prefix, split}
use kube_armor.Feeder.Matched.Alerts.{
  Scan, allows, enforcer_of, passed, posture_after, set_match, set_plain, violation,
}
use kube_armor.Feeder.Names.{fetch_protocol}
use kube_armor.Feeder.State.{Log, MatchPolicy}

module _ {Regexp : Type 0} where
  unfoldable pub log_source : MatchPolicy Regexp → Log → Bool
  log_source m log =
      not m.is_from_source
      || (m.is_from_source
          && (has_prefix log.source (m.source ++ codes " ") || m.source == log.process_name))

  -- A rule whose source and resource match, and whose action goes with the result.
  unfoldable pub rule_hit : Text → MatchPolicy Regexp → Log → Option Log
  rule_hit enforcer m log =
      if allows m && passed log
      then some (set_match (enforcer_of enforcer log) (codes "Allow") m log)
      else if m.action == codes "Audit" && passed log
      then some (set_match (codes "eBPF Monitor") m.action m log)
      else if (m.action == codes "Block" && not (passed log))
          || (m.action == codes "Audit (Block)" && passed log)
      then some (set_plain (enforcer_of enforcer log) m.action m log)
      else none

  -- A network rule whose source matches. Only the last rule is told to be `last`.
  unfoldable pub network_rule : Bool → Text → Text → MatchPolicy Regexp → Scan → Option Scan
  network_rule last enforcer posture m s =
      let protocol = fetch_protocol s.log.resource in
      let flags = protocol == m.resource || m.resource == codes "all" in
      let missed : Option Scan =
        if protocol == codes "unknown"
        then some (record s {
          log = record s.log { type_name = codes "MatchedPolicy"; action = codes "Allow" };
        })
        else if not flags && not last
        then some s
        else elim (violation posture m s.log) [
          | none ↦ none
          | some log ↦ some (record s { log = log })
        ] in
      elim (if flags then rule_hit enforcer m s.log else none) [
        | none ↦ missed
        | some log ↦ some (record s { log = log; skip = true })
      ]

  unfoldable pub step_network : Bool → Text → Text → MatchPolicy Regexp → Scan → Scan
  step_network last enforcer posture m s =
      if not (m.operation == s.log.operation) || s.skip
      then s
      else get_or (if log_source m s.log then network_rule last enforcer posture m s else none)
          (record s { log = posture_after posture m s.log })

  -- The loop over the capabilities of a rule, until one of them counts.
  unfoldable pub capability_hit : Text → MatchPolicy Regexp → List Text → Log → Option Log
  capability_hit enforcer m [] log = none
  capability_hit enforcer m (cap ∷ caps) log =
      let rest = capability_hit enforcer m caps log in
      if contains log.resource cap then or_else (rule_hit enforcer m log) rest else rest

  unfoldable pub capability_rule : Text → Text → MatchPolicy Regexp → Log → Option Log
  capability_rule enforcer posture m log =
      or_else (capability_hit enforcer m (split b',' m.resource) log) (violation posture m log)

  -- The loop's own `skip` ends with it, so what is found here does not keep later rules away.
  unfoldable pub step_capability : Text → Text → MatchPolicy Regexp → Scan → Scan
  step_capability enforcer posture m s =
      if not (m.operation == s.log.operation) then s else record s {
        log =
            get_or (if log_source m s.log then capability_rule enforcer posture m s.log else none)
              (posture_after posture m s.log);
      }
