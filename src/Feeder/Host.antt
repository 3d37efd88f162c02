-- ===== src/Feeder/Host.antt =====
-- policyMatcher.go, `UpdateHostSecurityPolicies`, where it differs from `UpdateSecurityPolicies`. The
-- code reads no field of a host policy that a policy does not have.
pub mod Matches
use kube_armor.Base.{
  Bool, List, Option, get_or, if◌then◌else◌, is_empty, none, not, some, true, ◌&&◌, ◌||◌, ◌++◌, ◌∷◌,
  [], ℕ,
}
use kube_armor.Base.Comparable.{text_eq, ◌==◌}
use kube_armor.Base.GoMap.{delete, get, put}
use kube_armor.Base.Text.{Text, codes}
use kube_armor.Feeder.Collect.{
  capability_matches, collect, file_matches, from_syscall_source, network_matches, pattern_match,
  rule_matches, syscall_matches, syscall_source,
}
use kube_armor.Feeder.NewMatch.{
  match_process_dir, match_process_path, match_process_pattern, match_syscall_path,
}
use kube_armor.Feeder.State.{Feeder, MatchPolicy, enabled}
use kube_armor.Policy.{ProcessType, SecurityPolicy, SyscallFromSourceType, SyscallMatchPathType}

-- `SyscallMatchPathType` as it is built here, without the path of the rule.
unfoldable pub without_path : SyscallMatchPathType → SyscallMatchPathType
without_path p = record p { path = [] }

module _ {Regexp : Type 0} (policy_enabled : ℕ) (name : Text) where
  -- The code sets the source of the match after it was appended, which has no effect on the list.
  unfoldable pub host_plain_path : SyscallMatchPathType → Text → List (MatchPolicy Regexp)
  host_plain_path p call =
      let m = match_syscall_path Regexp policy_enabled name [] call (without_path p) in
      if is_empty m.resource_type && is_empty m.resource then [] else m ∷ []

  unfoldable pub host_sourced_path :
      SyscallMatchPathType → SyscallFromSourceType → Text → List (MatchPolicy Regexp)
  host_sourced_path p src call =
      let m =
        match_syscall_path Regexp policy_enabled name (syscall_source src) call (without_path p) in
      if is_empty m.resource_type && is_empty m.resource
      then []
      else record m {
        is_from_source = not (is_empty (syscall_source src));
        recursive = is_empty src.path && src.recursive;
      }
        ∷ []

  unfoldable pub host_path_matches : SyscallMatchPathType → List (MatchPolicy Regexp)
  host_path_matches p =
      if is_empty p.path || is_empty p.syscalls
      then []
      else if is_empty p.from_source
      then collect (host_plain_path p) p.syscalls
      else collect (from_syscall_source policy_enabled name (host_sourced_path p) p.syscalls)
          p.from_source

module _ {Regexp : Type 0} (compile : Text → Option Regexp) where
  -- Process patterns are taken as enabled, whatever the node says.
  unfoldable pub host_process_matches : ℕ → Text → ProcessType → List (MatchPolicy Regexp)
  host_process_matches on name p =
      collect (λ r. rule_matches (λ src. match_process_path Regexp on name src r) r.from_source)
        p.match_paths
      ++ (collect (λ r. rule_matches (λ src. match_process_dir Regexp on name src r) r.from_source)
            p.match_directories
          ++ collect
              (λ r.
                pattern_match compile r.pattern_text
                  (match_process_pattern Regexp enabled name [] r))
              p.match_patterns)

  unfoldable pub host_policy_matches : Text → ℕ → SecurityPolicy → List (MatchPolicy Regexp)
  host_policy_matches enforcer on p =
      let name = get_or (get (codes "policyName") p.metadata) [] in
      if not (is_empty p.spec.app_armor)
      then []
      else host_process_matches on name p.spec.process
        ++ (file_matches compile on name p.spec.file
            ++ (collect (network_matches on name) p.spec.network
                ++ (collect (capability_matches on name enforcer) p.spec.capabilities
                    ++ (collect (syscall_matches on name) p.spec.syscalls.match_syscalls
                        ++ collect (host_path_matches on name) p.spec.syscalls.match_paths))))

  unfoldable pub host_matches : Text → ℕ → List SecurityPolicy → List (MatchPolicy Regexp)
  host_matches enforcer on ps = collect (host_policy_matches enforcer on) ps

  unfoldable pub update_host_security_policies :
      Text → List SecurityPolicy → Feeder Regexp → Feeder Regexp
  update_host_security_policies action ps fd =
      let key = fd.node.node_name in
      if action == codes "DELETED"
      then record fd { security_policies = delete key fd.security_policies }
      else record fd {
        security_policies =
            put key (host_matches fd.enforcer fd.node.policy_enabled ps) fd.security_policies;
      }
