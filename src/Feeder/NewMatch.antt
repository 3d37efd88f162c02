-- ===== src/Feeder/NewMatch.antt =====
-- policyMatcher.go, `newMatchPolicy`: one function for each type of rule. Go's zero values stand in
-- the fields that are not set.
use kube_armor.Base.{false, if◌then◌else◌, is_empty, none, [], ℕ}
use kube_armor.Base.Comparable.{text_eq, ◌==◌}
use kube_armor.Base.Decimal.{itoa}
use kube_armor.Base.Text.{Text, codes, to_lower, to_upper}
use kube_armor.Feeder.Names.{get_operation_and_capability_from_name, match_action}
use kube_armor.Feeder.State.{MatchPolicy}
use kube_armor.Policy.{
  CapabilitiesCapabilityType, FileDirectoryType, FilePathType, FilePatternType, NetworkProtocolType,
  ProcessDirectoryType, ProcessPathType, ProcessPatternType, SyscallMatchPathType, SyscallMatchType,
}

module _ (Regexp : Type 0) (policy_enabled : ℕ) (policy_name src : Text) where
  -- `match` with its name and source.
  unfoldable pub blank_match : MatchPolicy Regexp
  blank_match = record {
    policy_name = policy_name;
    severity = [];
    tags = [];
    message = [];
    source = src;
    operation = [];
    resource_type = [];
    resource = [];
    is_from_source = false;
    owner_only = false;
    read_only = false;
    recursive = false;
    regexp = none;
    native = false;
    action = [];
  }

  unfoldable pub match_process_path : ProcessPathType → MatchPolicy Regexp
  match_process_path p = record blank_match {
    severity = itoa p.severity;
    tags = p.tags;
    message = p.message;
    operation = codes "Process";
    resource = if is_empty p.exec_name then p.path else p.exec_name;
    resource_type = if is_empty p.exec_name then codes "Path" else codes "ExecName";
    owner_only = p.owner_only;
    action = match_action policy_enabled p.action;
  }

  unfoldable pub match_process_dir : ProcessDirectoryType → MatchPolicy Regexp
  match_process_dir p = record blank_match {
    severity = itoa p.severity;
    tags = p.tags;
    message = p.message;
    operation = codes "Process";
    resource = p.directory;
    resource_type = codes "Directory";
    owner_only = p.owner_only;
    recursive = p.recursive;
    action = match_action policy_enabled p.action;
  }

  unfoldable pub match_process_pattern : ProcessPatternType → MatchPolicy Regexp
  match_process_pattern p = record blank_match {
    severity = itoa p.severity;
    tags = p.tags;
    message = p.message;
    operation = codes "Process";
    resource = p.pattern_text;
    owner_only = p.owner_only;
    action = match_action policy_enabled p.action;
  }

  unfoldable pub match_file_path : FilePathType → MatchPolicy Regexp
  match_file_path p = record blank_match {
    severity = itoa p.severity;
    tags = p.tags;
    message = p.message;
    operation = codes "File";
    resource = p.path;
    resource_type = codes "Path";
    owner_only = p.owner_only;
    read_only = p.read_only;
    action = match_action policy_enabled p.action;
  }

  unfoldable pub match_file_dir : FileDirectoryType → MatchPolicy Regexp
  match_file_dir p = record blank_match {
    severity = itoa p.severity;
    tags = p.tags;
    message = p.message;
    operation = codes "File";
    resource = p.directory;
    resource_type = codes "Directory";
    owner_only = p.owner_only;
    read_only = p.read_only;
    recursive = p.recursive;
    action = match_action policy_enabled p.action;
  }

  unfoldable pub match_file_pattern : FilePatternType → MatchPolicy Regexp
  match_file_pattern p = record blank_match {
    severity = itoa p.severity;
    tags = p.tags;
    message = p.message;
    operation = codes "File";
    resource = p.pattern_text;
    owner_only = p.owner_only;
    read_only = p.read_only;
    action = match_action policy_enabled p.action;
  }

  unfoldable pub match_network : NetworkProtocolType → MatchPolicy Regexp
  match_network p = record blank_match {
    severity = itoa p.severity;
    tags = p.tags;
    message = p.message;
    operation = codes "Network";
    resource = to_lower p.protocol;
    resource_type = codes "Protocol";
    action = match_action policy_enabled p.action;
  }

  unfoldable pub match_capability : Text → CapabilitiesCapabilityType → MatchPolicy Regexp
  match_capability enforcer p =
      let (op, cap) = get_operation_and_capability_from_name p.capability in
      record blank_match {
        severity = itoa p.severity;
        tags = p.tags;
        message = p.message;
        operation = if enforcer == codes "BPFLSM" then codes "Capabilities" else op;
        resource = if enforcer == codes "BPFLSM" then to_upper p.capability else cap;
        resource_type = codes "Capability";
        action = match_action policy_enabled p.action;
      }

  -- The rule is passed with the one system call `name`.
  unfoldable pub match_syscall : Text → SyscallMatchType → MatchPolicy Regexp
  match_syscall name p = record blank_match {
    severity = itoa p.severity;
    tags = p.tags;
    message = p.message;
    operation = codes "Syscall";
    resource_type = to_upper name;
    action = codes "Audit";
  }

  unfoldable pub match_syscall_path : Text → SyscallMatchPathType → MatchPolicy Regexp
  match_syscall_path name p = record blank_match {
    severity = itoa p.severity;
    tags = p.tags;
    message = p.message;
    operation = codes "Syscall";
    resource = p.path;
    resource_type = to_upper name;
    action = codes "Audit";
  }
