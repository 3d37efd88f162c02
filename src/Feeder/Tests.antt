-- ===== src/Feeder/Tests.antt =====
-- The theorems of the feeder at concrete inputs, and runs of it.
use mathlib.Core.Logic.{◌↔◌}
use kube_armor.Base.{Option, true, false, ◌≡◌, refl, [], ◌∷◌, none, some, if◌then◌else◌, is_empty}
use kube_armor.Base.Comparable.{text_beq, text_eq}
use kube_armor.Base.Decimal.{digits, itoa}
use kube_armor.Base.GoMap.{get}
use kube_armor.Base.Paths.{clean, path_dir, step_into, up_to_slash, walk}
use kube_armor.Base.Text.{Text, codes, contains, has_prefix, join, split, to_lower}
use kube_armor.Feeder.Collect.{
  collect, end_point_matches, file_matches, policy_matches, process_matches, rule_matches,
}
use kube_armor.Feeder.Collect.Actions.{end_point_matches-AuditsOnly}
use kube_armor.Feeder.Collect.Audited.{All, AuditsOnly}
use kube_armor.Feeder.Host.{host_path_matches}
use kube_armor.Feeder.Host.Matches.{Unnamed, host_path_matches-Unnamed}
use kube_armor.Feeder.Names.{fetch_protocol, get_protocol_from_name, match_action}
use kube_armor.Feeder.Names.Protocols.{fetch_protocol_misses_icmpv6}
use kube_armor.Feeder.NewMatch.{blank_match, match_process_dir}
use kube_armor.Feeder.Resources.{get_directory_part, match_resources}
use kube_armor.Feeder.Resources.Directories.{match_resources-directory, match_resources-root}
use kube_armor.Feeder.State.{EndPoint, Feeder, Log, MatchPolicy, audited, empty_log}
use kube_armor.Policy.{
  no_selector, SyscallMatchPathType, ProcessDirectoryType, SecurityPolicy, allow, block,
}

-- A pattern is its own compiled form, and the empty one is refused.
abbrev compile : Text → Option Text
compile text = if is_empty text then none else some text

abbrev usr_bin : ProcessDirectoryType
usr_bin = record {
  directory = codes "/usr/bin/";
  recursive = false;
  owner_only = false;
  from_source = [];
  severity = 10;
  tags = [];
  message = [];
  action = codes "Block";
}

abbrev bin_policy : SecurityPolicy
bin_policy = record {
  metadata = (codes "policyName", codes "no-bin") ∷ [];
  spec = record {
    selector = no_selector;
    process = record { match_paths = []; match_directories = usr_bin ∷ []; match_patterns = [] };
    file = record { match_paths = []; match_directories = []; match_patterns = [] };
    network = [];
    capabilities = [];
    syscalls = record { match_syscalls = []; match_paths = [] };
    app_armor = [];
  };
}

abbrev web_point : EndPoint
web_point = record {
  namespace_name = codes "prod";
  end_point_name = codes "web";
  container_name = codes "nginx";
  identities = [];
  containers = codes "c1" ∷ [];
  policy_enabled = 2;
  security_policies = bin_policy ∷ [];
  default_posture = record {
    file_action = codes "audit";
    network_action = codes "audit";
    capabilities_action = codes "audit";
  };
}

abbrev idle : Feeder Text
idle = record {
  node = record {
    node_name = codes "node";
    policy_enabled = 2;
    process_visibility = true;
    file_visibility = false;
    network_visibility = false;
    capabilities_visibility = false;
  };
  enforcer = codes "BPFLSM";
  security_policies = [];
  default_postures = [];
}

abbrev bin_match : MatchPolicy Text
bin_match = record {
  policy_name = codes "no-bin";
  severity = codes "10";
  tags = [];
  message = [];
  source = [];
  operation = codes "Process";
  resource_type = codes "Directory";
  resource = codes "/usr/bin/";
  is_from_source = false;
  owner_only = false;
  read_only = false;
  recursive = false;
  regexp = none;
  native = false;
  action = codes "Audit (Block)";
}

abbrev curl_log : Log
curl_log = record empty_log {
  process_name = codes "/usr/bin/curl";
  resource = codes "/usr/bin/curl example.org";
  result = codes "Passed";
}

-- The end point's policy gives one match.
run_end_point_matches : end_point_matches compile (codes "BPFLSM") web_point ≡ bin_match ∷ []
unfolding end_point_matches collect policy_matches process_matches file_matches rule_matches
    match_process_dir blank_match itoa digits match_action audited allow block text_beq get
run_end_point_matches = refl

run_directory : get_directory_part (codes "/usr/bin/../bin/curl") ≡ codes "/usr/bin/"
unfolding get_directory_part path_dir clean walk step_into up_to_slash split join has_prefix
    text_beq
run_directory = refl

-- The directory of a program in the root directory gets two slashes.
run_root : get_directory_part (codes "/init") ≡ codes "//"
unfolding get_directory_part path_dir clean walk step_into up_to_slash split join has_prefix
    text_beq
run_root = refl

run_icmpv6 : fetch_protocol (get_protocol_from_name (codes "ICMPv6")) ≡ codes "icmp"
unfolding fetch_protocol get_protocol_from_name to_lower contains has_prefix text_beq
run_icmpv6 = refl

end_point_matches-AuditsOnly_example :
    All AuditsOnly (end_point_matches compile (codes "BPFLSM") web_point)
unfolding audited
end_point_matches-AuditsOnly_example =
    end_point_matches-AuditsOnly compile (codes "BPFLSM") web_point refl

match_resources-directory_example :
    (match_resources bin_match curl_log ≡ true)
    ↔ (path_dir (codes "/usr/bin/curl") ≡ codes "/usr/bin")
unfolding has_prefix
match_resources-directory_example =
    match_resources-directory bin_match curl_log (codes "/usr/bin") refl refl refl refl refl

match_resources-root_example :
    match_resources
      (record bin_match { resource = codes "/" })
      (record curl_log { process_name = codes "/init" })
    ≡ false
match_resources-root_example =
    match_resources-root (record bin_match { resource = codes "/" })
      (record curl_log { process_name = codes "/init" }) refl refl refl refl

fetch_protocol_misses_icmpv6_example : codes "icmpv6" ≡ codes "icmpv6"
unfolding fetch_protocol contains has_prefix
fetch_protocol_misses_icmpv6_example = fetch_protocol_misses_icmpv6 (codes "icmpv6") refl

abbrev unlink_rule : SyscallMatchPathType
unlink_rule = record {
  path = codes "/etc/shadow";
  recursive = false;
  syscalls = codes "unlink" ∷ [];
  from_source = [];
  severity = 5;
  tags = [];
  message = [];
}

host_path_matches-Unnamed_example :
    All Unnamed (host_path_matches {Regexp = Text} 1 (codes "no-unlink") unlink_rule)
host_path_matches-Unnamed_example = host_path_matches-Unnamed Text 1 (codes "no-unlink") unlink_rule
