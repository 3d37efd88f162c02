-- ===== src/Feeder/Collect/Actions.antt =====
-- policyMatcher.go: the actions of the matches of an end point that only audits.
use mathlib.Core.Logic.{inl, inr}
use kube_armor.Base.{Bool-cases, List, Option, get_or, is_empty, not, ◌&&◌, ◌||◌, [], ◌≡◌}
use kube_armor.Base.Comparable.{nat_eq, text_eq}
use kube_armor.Base.GoMap.{get}
use kube_armor.Base.Text.{Text, codes}
use kube_armor.Feeder.Collect.{
  capability_matches, collect, end_point_matches, from_syscall_source, network_matches,
  file_matches, process_matches, pattern_match, plain_path_syscalls, plain_syscalls, policy_matches,
  rule_matches, sourced_path_syscalls, sourced_syscalls, syscall_matches, syscall_path_matches,
}
use kube_armor.Feeder.NewMatch.{
  match_capability, match_file_dir, match_file_path, match_file_pattern, match_network,
  match_process_dir, match_process_path, match_process_pattern, match_syscall, match_syscall_path,
}
use kube_armor.Feeder.State.{EndPoint, MatchPolicy, audited}
use kube_armor.Policy.{
  CapabilitiesCapabilityType, FileType, ProcessType, NetworkProtocolType, MatchSourceType,
  SecurityPolicy, SyscallFromSourceType, SyscallMatchPathType, SyscallMatchType,
}
use kube_armor.Feeder.Collect.Audited.{
  All, All-append, All-collect, match_action-Audits, audit-Audits, AuditsOnly, rule_matches-All,
  with_resource-All, pattern_match-All, unless-All,
}

module _ (Regexp : Type 0) (name : Text) where
  network_matches-All :
      (p : NetworkProtocolType) → All AuditsOnly (network_matches {Regexp = Regexp} audited name p)
  unfolding network_matches match_network All
  network_matches-All p = elim (Bool-cases (is_empty p.protocol)) [
    | inl skipped ↦ rw (network_matches, skipped) tt
    | inr named ↦
        rw (network_matches, named)
          (with_resource-All _ (
            rule_matches-All (λ src. match_network Regexp audited name src p)
              (λ src. match_action-Audits p.action) p.from_source))
  ]

  capability_matches-All :
      (enforcer : Text) (p : CapabilitiesCapabilityType)
      → All AuditsOnly (capability_matches {Regexp = Regexp} audited name enforcer p)
  unfolding capability_matches match_capability All
  capability_matches-All enforcer p = elim (Bool-cases (is_empty p.capability)) [
    | inl skipped ↦ rw (capability_matches, skipped) tt
    | inr named ↦
        rw (capability_matches, named)
          (with_resource-All _ (
            rule_matches-All (λ src. match_capability Regexp audited name src enforcer p)
              (λ src. match_action-Audits p.action) p.from_source))
  ]

  from_syscall_source-All :
      (f : SyscallFromSourceType → Text → List (MatchPolicy Regexp)) (calls : List Text)
      (src : SyscallFromSourceType)
      → ((call : Text) → All AuditsOnly (f src call))
      → All AuditsOnly (from_syscall_source audited name f calls src)
  unfolding from_syscall_source All
  from_syscall_source-All f calls src h =
      elim (Bool-cases (is_empty src.path && is_empty src.dir)) [
        | inl skipped ↦ rw (from_syscall_source, skipped) tt
        | inr named ↦ rw (from_syscall_source, named) (All-collect AuditsOnly (f src) calls h)
      ]

  syscall_matches-All :
      (p : SyscallMatchType) → All AuditsOnly (syscall_matches {Regexp = Regexp} audited name p)
  unfolding syscall_matches plain_syscalls sourced_syscalls match_syscall All
  syscall_matches-All p = elim (Bool-cases (is_empty p.syscalls)) [
    | inl skipped ↦ rw (syscall_matches, skipped) tt
    | inr named ↦ elim (Bool-cases (is_empty p.from_source)) [
      | inl anywhere ↦
          rw (syscall_matches, named, anywhere)
            (All-collect AuditsOnly (plain_syscalls audited name p) p.syscalls
              (λ call. unless-All _ _ audit-Audits))
      | inr sourced ↦
          rw (syscall_matches, named, sourced)
            (All-collect AuditsOnly _ p.from_source (λ src.
              from_syscall_source-All (sourced_syscalls audited name p) p.syscalls src
                (λ call. unless-All _ _ audit-Audits)))
    ]
  ]

  syscall_path_matches-All :
      (p : SyscallMatchPathType)
      → All AuditsOnly (syscall_path_matches {Regexp = Regexp} audited name p)
  unfolding syscall_path_matches plain_path_syscalls sourced_path_syscalls match_syscall_path All
  syscall_path_matches-All p = elim (Bool-cases (is_empty p.path || is_empty p.syscalls)) [
    | inl skipped ↦ rw (syscall_path_matches, skipped) tt
    | inr named ↦ elim (Bool-cases (is_empty p.from_source)) [
      | inl anywhere ↦
          rw (syscall_path_matches, named, anywhere)
            (All-collect AuditsOnly (plain_path_syscalls audited name p) p.syscalls
              (λ call. unless-All _ _ audit-Audits))
      | inr sourced ↦
          rw (syscall_path_matches, named, sourced)
            (All-collect AuditsOnly _ p.from_source (λ src.
              from_syscall_source-All (sourced_path_syscalls audited name p) p.syscalls src
                (λ call. unless-All _ _ audit-Audits)))
    ]
  ]

module _ {Regexp : Type 0} (compile : Text → Option Regexp) where
  rules-All :
      {A : Type 0} (f : A → Text → MatchPolicy Regexp) (sources : A → List MatchSourceType)
      → ((r : A) (src : Text) → AuditsOnly (f r src))
      → (rs : List A) → All AuditsOnly (collect (λ r. rule_matches (f r) (sources r)) rs)
  rules-All f sources h rs =
      All-collect AuditsOnly (λ r. rule_matches (f r) (sources r)) rs
        (λ r. rule_matches-All (f r) (h r) (sources r))

  patterns-All :
      {A : Type 0} (text : A → Text) (f : A → MatchPolicy Regexp)
      → ((r : A) → AuditsOnly (f r))
      → (rs : List A) → All AuditsOnly (collect (λ r. pattern_match compile (text r) (f r)) rs)
  patterns-All text f h rs =
      All-collect AuditsOnly (λ r. pattern_match compile (text r) (f r)) rs
        (λ r. pattern_match-All compile (text r) (f r) (h r))

  process_matches-All :
      (name : Text) (p : ProcessType) → All AuditsOnly (process_matches compile audited name p)
  unfolding process_matches match_process_path match_process_dir match_process_pattern
  process_matches-All name p =
      All-append AuditsOnly _ _
        (rules-All (λ r src. match_process_path Regexp audited name src r) (λ r. r.from_source)
          (λ r src. match_action-Audits r.action) p.match_paths)
        (All-append AuditsOnly _ _
          (rules-All (λ r src. match_process_dir Regexp audited name src r) (λ r. r.from_source)
            (λ r src. match_action-Audits r.action) p.match_directories)
          (patterns-All (λ r. r.pattern_text) (match_process_pattern Regexp audited name [])
            (λ r. match_action-Audits r.action) p.match_patterns))

  file_matches-All :
      (name : Text) (p : FileType) → All AuditsOnly (file_matches compile audited name p)
  unfolding file_matches match_file_path match_file_dir match_file_pattern
  file_matches-All name p =
      All-append AuditsOnly _ _
        (rules-All (λ r src. match_file_path Regexp audited name src r) (λ r. r.from_source)
          (λ r src. match_action-Audits r.action) p.match_paths)
        (All-append AuditsOnly _ _
          (rules-All (λ r src. match_file_dir Regexp audited name src r) (λ r. r.from_source)
            (λ r src. match_action-Audits r.action) p.match_directories)
          (patterns-All (λ r. r.pattern_text) (match_file_pattern Regexp audited name [])
            (λ r. match_action-Audits r.action) p.match_patterns))

  policy_matches-All :
      (enforcer : Text) (p : SecurityPolicy)
      → All AuditsOnly (policy_matches compile enforcer audited p)
  unfolding policy_matches All
  policy_matches-All enforcer p = elim (Bool-cases (not (is_empty p.spec.app_armor))) [
    | inl skipped ↦ rw (policy_matches, skipped) tt
    | inr read ↦
        let name = get_or (get (codes "policyName") p.metadata) [] in
        rw (policy_matches, read)
          (All-append AuditsOnly _ _ (process_matches-All name p.spec.process) (
            All-append AuditsOnly _ _ (file_matches-All name p.spec.file) (
              All-append AuditsOnly _ _
                (All-collect AuditsOnly _ p.spec.network (network_matches-All Regexp name))
                (All-append AuditsOnly _ _
                  (All-collect AuditsOnly _ p.spec.capabilities
                    (capability_matches-All Regexp name enforcer))
                  (All-append AuditsOnly _ _
                    (All-collect AuditsOnly _ p.spec.syscalls.match_syscalls
                      (syscall_matches-All Regexp name))
                    (All-collect AuditsOnly _ p.spec.syscalls.match_paths
                      (syscall_path_matches-All Regexp name)))))))
  ]

  -- No match of an end point that only audits allows or blocks.
  pub end_point_matches-AuditsOnly :
      (enforcer : Text) (e : EndPoint)
      → e.policy_enabled ≡ audited
      → All AuditsOnly (end_point_matches compile enforcer e)
  unfolding end_point_matches
  end_point_matches-AuditsOnly enforcer e h =
      rw (end_point_matches, h)
        (All-collect AuditsOnly (policy_matches compile enforcer audited) e.security_policies
          (policy_matches-All enforcer))
