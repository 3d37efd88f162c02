-- ===== src/Feeder/Matched/Files.antt =====
-- policyMatcher.go, `UpdateMatchedPolicy`: the case of processes and files. Matching with compiled
-- patterns and `filepath.Match`, false on an error, are arguments.
use kube_armor.Base.{
  Bool, Option, false, if◌then◌else◌, is_empty, none, not, or_else, some, true, ◌&&◌, ◌||◌, ◌∷◌, [],
  get_or,
}
use kube_armor.Base.Comparable.{nat_eq, text_eq, ◌==◌}
use kube_armor.Base.Text.{Text, codes, contains, has_suffix}
use kube_armor.Feeder.Matched.Alerts.{
  Scan, allows, enforcer_of, passed, set_match, set_posture, violation,
}
use kube_armor.Feeder.Resources.{match_resources}
use kube_armor.Feeder.State.{Log, MatchPolicy}

-- How patterns match texts.
pub record Patterns (Regexp : Type 0) : Type 0 where
  pub glob : Text → Text → Bool
  pub match_string : Regexp → Text → Bool

unfoldable pub clear_tags : Log → Log
clear_tags log = record log { a_tags = [] }

module _ {Regexp : Type 0} where
  unfoldable pub file_source : MatchPolicy Regexp → Log → Bool
  file_source m log =
      not m.is_from_source
      || (m.is_from_source && (m.source == log.parent_process_name || m.source == log.process_name))

  unfoldable pub matched_regex : Patterns Regexp → MatchPolicy Regexp → Log → Bool
  matched_regex ps m log =
      if m.resource_type == codes "Glob"
      then ps.glob m.resource log.resource || ps.glob m.resource log.process_name
      else if m.resource_type == codes "Regexp"
      then elim m.regexp [
        | none ↦ false
        | some r ↦ ps.match_string r log.resource || ps.match_string r log.process_name
      ]
      else m.resource_type == codes "ExecName" && has_suffix log.process_name (b'/' ∷ m.resource)

  unfoldable pub matched_flags : MatchPolicy Regexp → Log → Bool
  matched_flags m log =
      let reads = contains log.log_data (codes "O_RDONLY") in
      let owner = log.uid == log.oid in
      let lenient = contains m.action (codes "Allow") in
      if m.read_only && not (is_empty log.resource) && m.owner_only
      then (reads && owner && lenient)
        || (reads && not owner)
        || (not reads && owner)
        || (not reads && not owner)
      else if m.read_only && not (is_empty log.resource)
      then (reads && lenient) || not reads
      else if m.owner_only
      then (owner && lenient) || not owner
      else true

  unfoldable pub block_met : Bool → MatchPolicy Regexp → Log → Bool
  block_met flags m log =
      (m.action == codes "Block" && not (passed log))
      || (flags
          && not m.owner_only
          && not m.read_only
          && m.action == codes "Audit (Block)"
          && passed log)
      || (not flags
          && (m.owner_only || m.read_only)
          && m.action == codes "Audit (Block)"
          && passed log)

  -- A rule whose source and resource match: some if the loop continues.
  unfoldable pub file_hit : Text → MatchPolicy Regexp → Scan → Option Scan
  file_hit enforcer m s =
      let flags = matched_flags m s.log in
      if flags && allows m && passed s.log
      then some (
          if s.log.action == codes "Audit"
          then s
          else record s { log = set_match (enforcer_of enforcer s.log) (codes "Allow") m s.log })
      else if flags && m.action == codes "Audit" && passed s.log
      then some (record s { log = set_match (codes "eBPF Monitor") m.action m s.log; skip = true })
      else if block_met flags m s.log
      then some
          (record s { log = set_match (enforcer_of enforcer s.log) m.action m s.log; skip = true })
      else if flags && m.action == codes "Allow" && not (passed s.log)
      then some s
      else none

  -- An allowing rule whose resource does not match.
  unfoldable pub file_violation : Text → MatchPolicy Regexp → Scan → Option Scan
  file_violation posture m s = elim (violation posture m s.log) [
    | none ↦ none
    | some log ↦ some (record s { log = clear_tags log })
  ]

  -- The default postures, where the log has no type yet.
  unfoldable pub file_posture : Text → MatchPolicy Regexp → Log → Log
  file_posture posture m log =
      let log₁ =
        if posture == codes "block"
          && m.action == codes "Audit (Allow)"
          && passed log
          && is_empty log.type_name
        then clear_tags (set_posture (codes "Audit (Block)") log)
        else log in
      if posture == codes "audit" && allows m && passed log₁ && is_empty log₁.type_name
      then clear_tags (set_posture (codes "Audit") log₁)
      else log₁

  -- A rule whose source matches.
  unfoldable pub file_rule : Patterns Regexp → Text → Text → MatchPolicy Regexp → Scan → Option Scan
  file_rule ps enforcer posture m s =
      or_else
        (if matched_regex ps m s.log || match_resources m s.log
          then file_hit enforcer m s
          else none)
        (file_violation posture m s)

  unfoldable pub step_file : Patterns Regexp → Text → Text → MatchPolicy Regexp → Scan → Scan
  step_file ps enforcer posture m s =
      if not (m.operation == s.log.operation) || s.skip
      then s
      else get_or (if file_source m s.log then file_rule ps enforcer posture m s else none)
          (record s { log = file_posture posture m s.log })
