-- ===== src/Watcher/Create/Fill.antt =====
-- kubeUpdate.go, `CreateSecurityPolicy`: what a rule does not set it takes from its group, and what
-- this does not set from the policy.
use kube_armor.Base.{List, if◌then◌else◌, is_empty, map, not, ℕ}
use kube_armor.Base.Comparable.{nat_eq, ◌==◌}
use kube_armor.Base.Text.{Text}
use kube_armor.Policy.{
  CapabilitiesCapabilityType, FileDirectoryType, FilePathType, FilePatternType, FileType,
  NetworkProtocolType, ProcessDirectoryType, ProcessPathType, ProcessPatternType, ProcessType,
  SyscallMatchPathType, SyscallMatchType, SyscallsType,
}

-- The fields of a group, or of the policy, that hold for its rules.
pub record Defaults : Type 0 where
  pub severity : ℕ
  pub tags : List Text
  pub message : Text
  pub action : Text

unfoldable pub fill_severity : ℕ → ℕ → ℕ → ℕ
fill_severity own group top = if own == 0 then (if not (group == 0) then group else top) else own

-- The same for a list or a text.
unfoldable pub fill_list {ℓ} : {A : Type ℓ} → List A → List A → List A → List A
fill_list own group top =
    if is_empty own then (if not (is_empty group) then group else top) else own

unfoldable pub fill_process_path : Defaults → Defaults → ProcessPathType → ProcessPathType
fill_process_path g d r = record r {
  severity = fill_severity r.severity g.severity d.severity;
  tags = fill_list r.tags g.tags d.tags;
  message = fill_list r.message g.message d.message;
  action = fill_list r.action g.action d.action;
}

unfoldable pub fill_process_directory :
    Defaults → Defaults → ProcessDirectoryType → ProcessDirectoryType
fill_process_directory g d r = record r {
  severity = fill_severity r.severity g.severity d.severity;
  tags = fill_list r.tags g.tags d.tags;
  message = fill_list r.message g.message d.message;
  action = fill_list r.action g.action d.action;
}

unfoldable pub fill_process_pattern : Defaults → Defaults → ProcessPatternType → ProcessPatternType
fill_process_pattern g d r = record r {
  severity = fill_severity r.severity g.severity d.severity;
  tags = fill_list r.tags g.tags d.tags;
  message = fill_list r.message g.message d.message;
  action = fill_list r.action g.action d.action;
}

unfoldable pub fill_process : Defaults → Defaults → ProcessType → ProcessType
fill_process g d p = record {
  match_paths = map (fill_process_path g d) p.match_paths;
  match_directories = map (fill_process_directory g d) p.match_directories;
  match_patterns = map (fill_process_pattern g d) p.match_patterns;
}

unfoldable pub fill_file_path : Defaults → Defaults → FilePathType → FilePathType
fill_file_path g d r = record r {
  severity = fill_severity r.severity g.severity d.severity;
  tags = fill_list r.tags g.tags d.tags;
  message = fill_list r.message g.message d.message;
  action = fill_list r.action g.action d.action;
}

unfoldable pub fill_file_directory : Defaults → Defaults → FileDirectoryType → FileDirectoryType
fill_file_directory g d r = record r {
  severity = fill_severity r.severity g.severity d.severity;
  tags = fill_list r.tags g.tags d.tags;
  message = fill_list r.message g.message d.message;
  action = fill_list r.action g.action d.action;
}

unfoldable pub fill_file_pattern : Defaults → Defaults → FilePatternType → FilePatternType
fill_file_pattern g d r = record r {
  severity = fill_severity r.severity g.severity d.severity;
  tags = fill_list r.tags g.tags d.tags;
  message = fill_list r.message g.message d.message;
  action = fill_list r.action g.action d.action;
}

unfoldable pub fill_file : Defaults → Defaults → FileType → FileType
fill_file g d f = record {
  match_paths = map (fill_file_path g d) f.match_paths;
  match_directories = map (fill_file_directory g d) f.match_directories;
  match_patterns = map (fill_file_pattern g d) f.match_patterns;
}

unfoldable pub fill_protocol : Defaults → Defaults → NetworkProtocolType → NetworkProtocolType
fill_protocol g d r = record r {
  severity = fill_severity r.severity g.severity d.severity;
  tags = fill_list r.tags g.tags d.tags;
  message = fill_list r.message g.message d.message;
  action = fill_list r.action g.action d.action;
}

abbrev pub fill_network : Defaults → Defaults → List NetworkProtocolType → List NetworkProtocolType
fill_network g d = map (fill_protocol g d)

unfoldable pub fill_one_capability :
    Defaults → Defaults → CapabilitiesCapabilityType → CapabilitiesCapabilityType
fill_one_capability g d r = record r {
  severity = fill_severity r.severity g.severity d.severity;
  tags = fill_list r.tags g.tags d.tags;
  message = fill_list r.message g.message d.message;
  action = fill_list r.action g.action d.action;
}

abbrev pub fill_capability :
    Defaults → Defaults → List CapabilitiesCapabilityType → List CapabilitiesCapabilityType
fill_capability g d = map (fill_one_capability g d)

-- The rules on system calls have no action.
unfoldable pub fill_syscall : Defaults → Defaults → SyscallMatchType → SyscallMatchType
fill_syscall g d r = record r {
  severity = fill_severity r.severity g.severity d.severity;
  tags = fill_list r.tags g.tags d.tags;
  message = fill_list r.message g.message d.message;
}

unfoldable pub fill_syscall_path : Defaults → Defaults → SyscallMatchPathType → SyscallMatchPathType
fill_syscall_path g d r = record r {
  severity = fill_severity r.severity g.severity d.severity;
  tags = fill_list r.tags g.tags d.tags;
  message = fill_list r.message g.message d.message;
}

unfoldable pub fill_syscalls : Defaults → Defaults → SyscallsType → SyscallsType
fill_syscalls g d s = record {
  match_syscalls = map (fill_syscall g d) s.match_syscalls;
  match_paths = map (fill_syscall_path g d) s.match_paths;
}
