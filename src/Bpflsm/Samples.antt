-- ===== src/Bpflsm/Samples.antt =====
-- Concrete policies and enforcer states for the tests.
use kube_armor.Base.{false, List, [], ◌∷◌, none, some}
use kube_armor.Base.GoMap.{delete, get, put}
use kube_armor.Base.Comparable.{text_beq}
use kube_armor.Base.Lists.{copy}
use kube_armor.Base.Text.{Text, codes, contains, has_prefix, join, split, to_upper}
use kube_armor.Bpflsm.Directory.{
  dir_key, dir_masks, dir_to_map, file_key, hint_masks, hint_paths, old_flag, put_hints, source_of,
}
use kube_armor.Bpflsm.Enforcer.{
  BpfEnforcer, ContainerKv, apply_rules, attach, create_container_inner_map,
  delete_container_inner_map, delete_lists, entry_of, lacks_rules, set_map, sync_container,
  sync_entry, update_container_rules,
}
use kube_armor.Bpflsm.Enforcer.Entries.{kernel_entry}
use kube_armor.Bpflsm.Fresh.{add_policy, fresh_rules, fuse, fuse_masks, policy_rules}
use kube_armor.Bpflsm.Kernel.{list_kernel, put_or_log}
use kube_armor.Bpflsm.Keys.{
  argument_beq, arg_list_beq, cap_whitelist, file_whitelist, inner_beq, net_whitelist, ns_beq,
  path_of, proc_whitelist, zero_path, NsKey,
}
use kube_armor.Bpflsm.Masks.{has_flag, with_flag, without_dir}
use kube_armor.Bpflsm.RuleList.{enforced, init_rules, put_dir, put_rule}
use kube_armor.Bpflsm.RuleList.Capability.{add_capability, capability_name}
use kube_armor.Bpflsm.RuleList.File.{
  add_file_dir, add_file_path, file_dir_masks, file_dir_sources, file_masks, file_sources,
}
use kube_armor.Bpflsm.RuleList.Network.{
  add_network, add_plain, all_types, handle_all_network_rule, net_type, network_path, note_all_rule,
  note_all_rules, note_source, note_sources, plain_sources, protocols, sourced_types,
}
use kube_armor.Bpflsm.RuleList.Process.{
  add_process_dir, add_process_path, path_masks, process_dir_masks, process_dir_sources,
  process_path_rules, process_sources, program_name,
}
use kube_armor.Bpflsm.Sync.{
  argument_key, delete_args, drop_args, merge_section, prune, put_all, sync_args, sync_inner,
  sync_rules, unmap, unmap_args, write_all, write_args, write_list, write_posture, write_section,
}
use kube_armor.Policy.{
  no_selector, DefaultPosture, FilePathType, MatchSourceType, ProcessPathType, SecurityPolicy,
  allow, block,
}

-- All that a test runs.
unfoldable pub program : Unit {0}
unfolding text_beq copy delete get put contains has_prefix join split to_upper dir_key dir_masks
    dir_to_map file_key hint_masks hint_paths old_flag put_hints source_of apply_rules attach
    create_container_inner_map delete_container_inner_map delete_lists entry_of lacks_rules set_map
    sync_container sync_entry update_container_rules kernel_entry add_policy fresh_rules fuse
    fuse_masks policy_rules put_or_log argument_beq arg_list_beq cap_whitelist file_whitelist
    inner_beq net_whitelist ns_beq path_of proc_whitelist zero_path has_flag with_flag without_dir
    enforced put_dir put_rule add_capability capability_name add_file_dir add_file_path
    file_dir_masks file_dir_sources file_masks file_sources add_network add_plain all_types
    handle_all_network_rule net_type network_path note_all_rule note_all_rules note_source
    note_sources plain_sources protocols sourced_types add_process_dir add_process_path path_masks
    process_dir_masks process_dir_sources process_path_rules process_sources program_name
    argument_key delete_args drop_args merge_section prune put_all sync_args sync_inner sync_rules
    unmap unmap_args write_all write_args write_list write_posture write_section allow block
program = tt

abbrev pub from : Text → MatchSourceType
from path = record { path = path }

abbrev pub process_rule : Text → List MatchSourceType → List Text → Text → ProcessPathType
process_rule path sources args action = record {
  path = path;
  exec_name = [];
  owner_only = false;
  from_source = sources;
  allowed_args = args;
  severity = 5;
  tags = [];
  message = [];
  action = action;
}

abbrev pub file_rule : Text → List MatchSourceType → Text → FilePathType
file_rule path sources action = record {
  path = path;
  read_only = false;
  owner_only = false;
  from_source = sources;
  severity = 5;
  tags = [];
  message = [];
  action = action;
}

abbrev pub policy : List ProcessPathType → List FilePathType → SecurityPolicy
policy processes files = record {
  metadata = [];
  spec = record {
    selector = no_selector;
    process = record { match_paths = processes; match_directories = []; match_patterns = [] };
    file = record { match_paths = files; match_directories = []; match_patterns = [] };
    network = [];
    capabilities = [];
    syscalls = record { match_syscalls = []; match_paths = [] };
    app_armor = [];
  };
}

-- Bash may run with one argument, and nothing may touch the shadow file.
abbrev pub shell_policy : SecurityPolicy
shell_policy =
    policy (process_rule (codes "/bin/bash") [] (codes "-l" ∷ []) allow ∷ [])
      (file_rule (codes "/etc/shadow") (from (codes "/bin/su") ∷ []) block ∷ [])

abbrev pub blocking : DefaultPosture
blocking = record {
  file_action = codes "block";
  network_action = codes "audit";
  capabilities_action = codes "audit";
}

abbrev pub web_key : NsKey
web_key = record { pid_ns = 11; mnt_ns = 12 }

-- A container that is registered and has no map yet.
abbrev pub web : ContainerKv
web = record { key = web_key; map = none; rules = init_rules }

abbrev pub registered : BpfEnforcer list_kernel
registered = record {
  container_map = (codes "web", web) ∷ [];
  maps = λ h. [];
  bpf_containers = [];
  bpf_arguments = [];
  bpf_throttle = [];
}

-- The same container with an empty map under the handle 7.
abbrev pub mapped_web : ContainerKv
mapped_web = record web { map = some 7 }

abbrev pub mapped : BpfEnforcer list_kernel
mapped = record registered {
  container_map = (codes "web", mapped_web) ∷ [];
  bpf_containers = (web_key, 7) ∷ [];
}
