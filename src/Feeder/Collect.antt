-- ===== src/Feeder/Collect.antt =====
-- policyMatcher.go, `UpdateSecurityPolicies`: the matches of an end point, in the order of the code.
pub mod Updates
pub mod Audited
pub mod Actions
use kube_armor.Base.{
  Bool, List, Option, get_or, if◌then◌else◌, is_empty, none, not, some, true, ◌&&◌, ◌||◌, ◌++◌, ◌∷◌,
  [], ℕ,
}
use kube_armor.Base.Comparable.{text_eq, ◌==◌}
use kube_armor.Base.GoMap.{delete, get, put}
use kube_armor.Base.Text.{Text, codes, has_suffix}
use kube_armor.Feeder.NewMatch.{
  match_capability, match_file_dir, match_file_path, match_file_pattern, match_network,
  match_process_dir, match_process_path, match_process_pattern, match_syscall, match_syscall_path,
}
use kube_armor.Feeder.State.{EndPoint, Feeder, MatchPolicy}
use kube_armor.Policy.{
  CapabilitiesCapabilityType, FilePatternType, MatchSourceType, NetworkProtocolType, FileType,
  ProcessType, ProcessPatternType, SecurityPolicy, SyscallFromSourceType, SyscallMatchPathType,
  SyscallMatchType,
}

-- A loop that appends to `matches.Policies`.
unfoldable pub collect {ℓ} : {A B : Type ℓ} → (A → List B) → List A → List B
collect f [] = []
collect f (x ∷ xs) = f x ++ collect f xs

-- The path of a source of a system call. A directory gets a slash at its end.
unfoldable pub syscall_source : SyscallFromSourceType → Text
syscall_source src =
    if not (is_empty src.path)
    then src.path
    else if is_empty src.dir || has_suffix src.dir (codes "/")
    then src.dir
    else src.dir ++ codes "/"

unfoldable pub end_point_key : EndPoint → Text
end_point_key e = e.namespace_name ++ (codes "_" ++ e.end_point_name)

module _ {Regexp : Type 0} where
  -- The loop over `FromSource`. A source without a path is skipped.
  unfoldable pub source_matches :
      (Text → MatchPolicy Regexp) → List MatchSourceType → List (MatchPolicy Regexp)
  source_matches f [] = []
  source_matches f (src ∷ srcs) =
      if is_empty src.path
      then source_matches f srcs
      else record (f src.path) { is_from_source = not (is_empty src.path) } ∷ source_matches f srcs

  unfoldable pub rule_matches :
      (Text → MatchPolicy Regexp) → List MatchSourceType → List (MatchPolicy Regexp)
  rule_matches f [] = f [] ∷ []
  rule_matches f (src ∷ srcs) = source_matches f (src ∷ srcs)

  -- `if len(match.Resource) == 0 { continue }`
  unfoldable pub with_resource : List (MatchPolicy Regexp) → List (MatchPolicy Regexp)
  with_resource [] = []
  with_resource (m ∷ ms) = if is_empty m.resource then with_resource ms else m ∷ with_resource ms

  module _ (policy_enabled : ℕ) (name : Text) where
    unfoldable pub network_matches : NetworkProtocolType → List (MatchPolicy Regexp)
    network_matches p =
        if is_empty p.protocol
        then []
        else with_resource
            (rule_matches (λ src. match_network Regexp policy_enabled name src p) p.from_source)

    unfoldable pub capability_matches :
        Text → CapabilitiesCapabilityType → List (MatchPolicy Regexp)
    capability_matches enforcer p =
        if is_empty p.capability
        then []
        else with_resource (
            rule_matches (λ src. match_capability Regexp policy_enabled name src enforcer p)
              p.from_source)

    -- The loop over the names of system calls, without a source.
    unfoldable pub plain_syscalls : SyscallMatchType → Text → List (MatchPolicy Regexp)
    plain_syscalls p call =
        let m = match_syscall Regexp policy_enabled name [] call p in
        if is_empty m.resource_type then [] else m ∷ []

    unfoldable pub sourced_syscalls :
        SyscallMatchType → SyscallFromSourceType → Text → List (MatchPolicy Regexp)
    sourced_syscalls p src call =
        let m = match_syscall Regexp policy_enabled name (syscall_source src) call p in
        if is_empty m.resource_type
        then []
        else record m {
          is_from_source = not (is_empty (syscall_source src));
          recursive = is_empty src.path && src.recursive;
        }
          ∷ []

    unfoldable pub plain_path_syscalls : SyscallMatchPathType → Text → List (MatchPolicy Regexp)
    plain_path_syscalls p call =
        let m = match_syscall_path Regexp policy_enabled name [] call p in
        if is_empty m.resource_type && is_empty m.resource
        then []
        else record m { read_only = p.recursive } ∷ []

    unfoldable pub sourced_path_syscalls :
        SyscallMatchPathType → SyscallFromSourceType → Text → List (MatchPolicy Regexp)
    sourced_path_syscalls p src call =
        let m = match_syscall_path Regexp policy_enabled name (syscall_source src) call p in
        if is_empty m.resource_type && is_empty m.resource
        then []
        else record m {
          is_from_source = not (is_empty (syscall_source src));
          recursive = is_empty src.path && src.recursive;
          read_only = p.recursive;
        }
          ∷ []

    -- A source with neither a path nor a directory is skipped.
    unfoldable pub from_syscall_source :
        (SyscallFromSourceType → Text → List (MatchPolicy Regexp))
        → List Text
        → SyscallFromSourceType
        → List (MatchPolicy Regexp)
    from_syscall_source f calls src =
        if is_empty src.path && is_empty src.dir then [] else collect (f src) calls

    unfoldable pub syscall_matches : SyscallMatchType → List (MatchPolicy Regexp)
    syscall_matches p =
        if is_empty p.syscalls
        then []
        else if is_empty p.from_source
        then collect (plain_syscalls p) p.syscalls
        else collect (from_syscall_source (sourced_syscalls p) p.syscalls) p.from_source

    unfoldable pub syscall_path_matches : SyscallMatchPathType → List (MatchPolicy Regexp)
    syscall_path_matches p =
        if is_empty p.path || is_empty p.syscalls
        then []
        else if is_empty p.from_source
        then collect (plain_path_syscalls p) p.syscalls
        else collect (from_syscall_source (sourced_path_syscalls p) p.syscalls) p.from_source

module _ {Regexp : Type 0} (compile : Text → Option Regexp) where
  -- A match with its compiled pattern, or none where that is empty or does not compile.
  unfoldable pub pattern_match : Text → MatchPolicy Regexp → List (MatchPolicy Regexp)
  pattern_match text m = if is_empty text then [] else elim (compile text) [
    | none ↦ []
    | some r ↦ record m { regexp = some r; resource_type = codes "Glob" } ∷ []
  ]

  unfoldable pub process_matches : ℕ → Text → ProcessType → List (MatchPolicy Regexp)
  process_matches on name p =
      collect (λ r. rule_matches (λ src. match_process_path Regexp on name src r) r.from_source)
        p.match_paths
      ++ (collect (λ r. rule_matches (λ src. match_process_dir Regexp on name src r) r.from_source)
            p.match_directories
          ++ collect (λ r. pattern_match r.pattern_text (match_process_pattern Regexp on name [] r))
              p.match_patterns)

  unfoldable pub file_matches : ℕ → Text → FileType → List (MatchPolicy Regexp)
  file_matches on name p =
      collect (λ r. rule_matches (λ src. match_file_path Regexp on name src r) r.from_source)
        p.match_paths
      ++ (collect (λ r. rule_matches (λ src. match_file_dir Regexp on name src r) r.from_source)
            p.match_directories
          ++ collect (λ r. pattern_match r.pattern_text (match_file_pattern Regexp on name [] r))
              p.match_patterns)

  unfoldable pub policy_matches : Text → ℕ → SecurityPolicy → List (MatchPolicy Regexp)
  policy_matches enforcer on p =
      let name = get_or (get (codes "policyName") p.metadata) [] in
      if not (is_empty p.spec.app_armor)
      then []
      else process_matches on name p.spec.process
        ++ (file_matches on name p.spec.file
            ++ (collect (network_matches on name) p.spec.network
                ++ (collect (capability_matches on name enforcer) p.spec.capabilities
                    ++ (collect (syscall_matches on name) p.spec.syscalls.match_syscalls
                        ++ collect (syscall_path_matches on name) p.spec.syscalls.match_paths))))

  unfoldable pub end_point_matches : Text → EndPoint → List (MatchPolicy Regexp)
  end_point_matches enforcer e =
      collect (policy_matches enforcer e.policy_enabled) e.security_policies

  -- An action `DELETED` does not return early.
  unfoldable pub update_security_policies : Text → EndPoint → Feeder Regexp → Feeder Regexp
  update_security_policies action e fd =
      let key = end_point_key e in
      let policies =
        if action == codes "DELETED"
        then delete key fd.security_policies
        else fd.security_policies in
      record fd { security_policies = put key (end_point_matches fd.enforcer e) policies }
