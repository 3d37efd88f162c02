-- ===== src/Watcher/Tests.antt =====
-- The theorems of the policy watcher at concrete inputs.
use kube_armor.Base.{
  arith, inl, ◌||◌, if◌then◌else◌, Bool, Option, false, map, none, some, true, ◌++◌, ◌≡◌, ◌∷◌, [],
  refl,
}
use kube_armor.Base.Comparable.{nat_eq, text_beq, text_eq, ◌==◌}
use kube_armor.Base.GoMap.{get}
use kube_armor.Base.Text.{Text, codes, contains, has_prefix}
use kube_armor.Feeder.State.{Config, EndPoint, enabled}
use kube_armor.Bpflsm.Keys.{NsKey, ns_eq}
use kube_armor.Monitor.Namespaces.{Answers, invisible}
use kube_armor.Monitor.State.{NsVisibility, Tables, Visibility}
use kube_armor.Watcher.Postures.{same_posture, update_default_posture}
use kube_armor.Watcher.Postures.Points.{
  is_told, told, update_default_posture-told, with_namespace_posture,
}
use kube_armor.Watcher.Visible.{update_visibility}
use kube_armor.Watcher.Visible.Seen.{get-update_visibility, seen}
use kube_armor.Policy.{DefaultPosture, SecurityPolicy, SelectorType, no_selector}
use kube_armor.Watcher.Containers.{handle_policy_event}
use kube_armor.Watcher.Containers.Stored.{Stores, handle_policy_event-Stores}
use kube_armor.Watcher.Create.{
  CrdSpec, create_rules, create_security_policy, create_selector, read_label_expressions,
  spec_action,
}
use kube_armor.Watcher.Create.Acted.{Acted, create_security_policy-Acted}
use kube_armor.Watcher.Create.Fill.{
  Defaults, fill_file, fill_list, fill_process, fill_process_path, fill_severity, fill_syscalls,
}
use kube_armor.Watcher.Create.Labels.{
  can_be_expanded, expand, insert, label_identities, read_labels, sort, text_ltb,
}
use kube_armor.Watcher.Create.Namespaced.{is_plain, selected_by-create_security_policy}
use kube_armor.Watcher.Hosts.{
  Host, HostSettings, PolicyStatus, applied_status, deleted_status, host_security_policy, named,
  not_exist_status, parse_and_update_host_security_policy,
}
use kube_armor.Watcher.Hosts.Events.{
  parse_and_update_host_security_policy_again, parse_and_update_host_security_policy_deletes,
}
use kube_armor.Watcher.Points.{
  concerns, deleted, Daemon, Settings, added, change, kube_armor_policy, lists, meta, modified,
  same_policy, selected_by, update_security_policy,
}
use kube_armor.Watcher.Points.Announced.{changed, given, update_security_policy-Announced}
use kube_armor.Watcher.Points.Lists.{
  ListedOnce, ListedOnce-change, listed_after, lists-changed, others,
}
use kube_armor.Watcher.Selectors.{
  all_met, contains_element, identity_met, match_exp_identities, match_identities, none_met,
  update_namespace_list,
}
use kube_armor.Watcher.Selectors.Decides.{
  covers, match_exp_identities-selects, selects, update_namespace_list-covers,
}

-- A pattern matches itself alone.
abbrev posix : Text → Option (Text → Bool)
posix pattern = some (text_beq pattern)

abbrev plain_regexp : Text → Option Text
plain_regexp pattern = some pattern

abbrev no_defaults : Defaults
no_defaults = record { severity = 0; tags = []; message = []; action = [] }

abbrev bash_crd : CrdSpec
bash_crd = record {
  match_labels = (codes "app", codes "web") ∷ [];
  match_expressions = [];
  process = record {
    match_paths =
        (record {
          path = codes "/bin/bash";
          exec_name = [];
          owner_only = false;
          from_source = [];
          allowed_args = [];
          severity = 0;
          tags = [];
          message = [];
          action = [];
        })
        ∷ [];
    match_directories = [];
    match_patterns = [];
  };
  process_defaults = no_defaults;
  file = record { match_paths = []; match_directories = []; match_patterns = [] };
  file_defaults = no_defaults;
  network = [];
  network_defaults = no_defaults;
  capabilities = [];
  capabilities_defaults = no_defaults;
  syscalls = record { match_syscalls = []; match_paths = [] };
  syscalls_defaults = no_defaults;
  app_armor = [];
  defaults = record no_defaults { action = codes "block" };
}

abbrev no_bash : SecurityPolicy
no_bash = record {
  metadata = (codes "namespaceName", codes "prod") ∷ (codes "policyName", codes "no-bash") ∷ [];
  spec = record {
    selector = record no_selector {
      identities = codes "app=web" ∷ codes "namespaceName=prod" ∷ [];
    };
    process = record {
      match_paths =
          (record {
            path = codes "/bin/bash";
            exec_name = [];
            owner_only = false;
            from_source = [];
            allowed_args = [];
            severity = 0;
            tags = [];
            message = [];
            action = codes "Block";
          })
          ∷ [];
      match_directories = [];
      match_patterns = [];
    };
    file = record { match_paths = []; match_directories = []; match_patterns = [] };
    network = [];
    capabilities = [];
    syscalls = record { match_syscalls = []; match_paths = [] };
    app_armor = [];
  };
}

abbrev web_point : EndPoint
web_point = record {
  namespace_name = codes "prod";
  end_point_name = codes "web";
  container_name = codes "nginx";
  identities = codes "namespaceName=prod" ∷ codes "app=web" ∷ [];
  containers = codes "c1" ∷ [];
  policy_enabled = 1;
  security_policies = [];
  default_posture = record {
    file_action = codes "audit";
    network_action = codes "audit";
    capabilities_action = codes "audit";
  };
}

run_create :
    create_security_policy kube_armor_policy (codes "prod") (codes "no-bash") none bash_crd
    ≡ some no_bash
unfolding create_security_policy create_rules create_selector read_labels sort fill_process
    fill_file expand fill_syscalls text_beq insert read_label_expressions fill_process_path
    can_be_expanded label_identities fill_severity fill_list text_ltb spec_action
run_create = refl

create_security_policy-Acted_example : Acted no_bash.spec
create_security_policy-Acted_example =
    create_security_policy-Acted kube_armor_policy (codes "prod") (codes "no-bash") none bash_crd
      no_bash run_create

selected_by-create_security_policy_example :
    contains_element web_point.identities (codes "namespaceName=prod") ≡ true
unfolding is_plain contains has_prefix selected_by match_identities match_exp_identities all_met
    identity_met contains_element none_met text_beq
selected_by-create_security_policy_example =
    selected_by-create_security_policy posix (codes "prod") (codes "no-bash") none bash_crd no_bash
      web_point refl run_create refl

abbrev listing_point : EndPoint
listing_point = record web_point { security_policies = no_bash ∷ [] }

lists-changed_example :
    lists
      (same_policy kube_armor_policy no_bash)
      (changed posix deleted kube_armor_policy no_bash listing_point).security_policies
    ≡ (if concerns posix kube_armor_policy no_bash listing_point
        then listed_after
            (same_policy kube_armor_policy no_bash)
            deleted
            (selected_by posix kube_armor_policy no_bash listing_point)
            (lists (same_policy kube_armor_policy no_bash) (no_bash ∷ []))
        else lists (same_policy kube_armor_policy no_bash) (no_bash ∷ []))
unfolding same_policy meta get text_beq ListedOnce lists
lists-changed_example =
    lists-changed posix deleted kube_armor_policy no_bash listing_point (refl, refl)

ListedOnce-change_example :
    ListedOnce
      (same_policy kube_armor_policy no_bash)
      (change (same_policy kube_armor_policy no_bash) added true no_bash (no_bash ∷ []))
unfolding same_policy meta get text_beq ListedOnce lists
ListedOnce-change_example =
    ListedOnce-change (same_policy kube_armor_policy no_bash) added true no_bash (no_bash ∷ []) refl
      (refl, refl)

abbrev settings : Settings
settings = record { policy = true; untracked = codes "kube-system" ∷ []; has_enforcer = true }

abbrev web_daemon : Daemon Text
web_daemon = record {
  end_points = web_point ∷ [];
  feeder = record {
    node = record {
      node_name = codes "node";
      policy_enabled = 1;
      process_visibility = true;
      file_visibility = false;
      network_visibility = false;
      capabilities_visibility = false;
    };
    enforcer = codes "BPFLSM";
    security_policies = [];
    default_postures = [];
  };
  default_postures = [];
  enforced = [];
}

abbrev new_daemon : Daemon Text
new_daemon =
    update_security_policy plain_regexp posix settings added kube_armor_policy no_bash web_daemon

update_security_policy-Announced_example :
    (new_daemon.end_points
      ≡ map (changed posix added kube_armor_policy no_bash) web_daemon.end_points)
    × (new_daemon.enforced
        ≡ web_daemon.enforced
          ++ given posix settings added kube_armor_policy no_bash web_daemon.end_points)
update_security_policy-Announced_example =
    update_security_policy-Announced plain_regexp posix settings added kube_armor_policy no_bash
      web_daemon

-- With a label to meet and one not to meet, the first does not count.
abbrev both : SelectorType
both = record no_selector {
  match_exp_identities = codes "app=db" ∷ [];
  non_identities = codes "app=cache" ∷ [];
}

match_exp_identities-selects_example :
    match_exp_identities both web_point.identities ≡ selects both web_point.identities
match_exp_identities-selects_example = match_exp_identities-selects both web_point.identities

run_both : match_exp_identities both web_point.identities ≡ true
unfolding match_exp_identities none_met contains_element text_beq
run_both = refl

abbrev not_system : SelectorType
not_system = record no_selector {
  match_expressions =
      (record {
        key = codes "namespace";
        operator = codes "NotIn";
        values = codes "kube-system" ∷ [];
      })
      ∷ [];
}

update_namespace_list-covers_example :
    contains_element
      (update_namespace_list
        (some (codes "kube-system" ∷ codes "prod" ∷ []))
        not_system).namespace_list
      (codes "prod")
    ≡ covers (some (codes "kube-system" ∷ codes "prod" ∷ [])) not_system (codes "prod")
update_namespace_list-covers_example =
    update_namespace_list-covers (some (codes "kube-system" ∷ codes "prod" ∷ [])) not_system
      (codes "prod") refl

-- The policies of the host, compared by their names.
abbrev host_settings : HostSettings
host_settings = record {
  host_policy = true;
  identities = codes "app=web" ∷ [];
  has_enforcer = true;
}

abbrev empty_host : Host Text
empty_host = record { policies = []; feeder = web_daemon.feeder; enforced = [] }

abbrev add_bash : Host Text → PolicyStatus × Host Text
add_bash =
    parse_and_update_host_security_policy posix plain_regexp named host_settings added
      (codes "no-bash") bash_crd

parse_and_update_host_security_policy_again_example :
    add_bash (add_bash empty_host).1 ≡ (applied_status, (add_bash empty_host).1)
unfolding same_policy meta get text_beq host_security_policy
parse_and_update_host_security_policy_again_example =
    parse_and_update_host_security_policy_again named posix plain_regexp host_settings
      (codes "no-bash") bash_crd empty_host refl

abbrev full_host : Host Text
full_host = record empty_host { policies = host_security_policy (codes "no-bash") bash_crd ∷ [] }

abbrev delete_bash : PolicyStatus × Host Text
delete_bash =
    parse_and_update_host_security_policy posix plain_regexp named host_settings deleted
      (codes "no-bash") bash_crd full_host

parse_and_update_host_security_policy_deletes_example :
    (delete_bash.0 ≡ (
      if lists (named (host_security_policy (codes "no-bash") bash_crd)) full_host.policies
      then deleted_status
      else not_exist_status))
    × (lists (named (host_security_policy (codes "no-bash") bash_crd)) delete_bash.1.policies
        ≡ false)
unfolding ListedOnce lists same_policy meta get text_beq host_security_policy
parse_and_update_host_security_policy_deletes_example =
    parse_and_update_host_security_policy_deletes named posix plain_regexp host_settings
      (codes "no-bash") bash_crd full_host (refl, refl)

-- The namespace of the end point gets a posture that blocks.
abbrev strict : DefaultPosture
strict = record {
  file_action = codes "block";
  network_action = codes "audit";
  capabilities_action = codes "audit";
}

abbrev strict_daemon : Daemon Text
strict_daemon = update_default_posture settings modified (codes "prod") strict true web_daemon

update_default_posture-told_example :
    (strict_daemon.end_points
      ≡ map (with_namespace_posture (codes "prod") strict) web_daemon.end_points)
    × (strict_daemon.enforced
        ≡ web_daemon.enforced ++ told settings (codes "prod") strict web_daemon.end_points)
update_default_posture-told_example =
    update_default_posture-told settings modified (codes "prod") strict true web_daemon

run_told :
    told settings (codes "prod") strict web_daemon.end_points
    ≡ record web_point { default_posture = strict } ∷ []
unfolding told is_told with_namespace_posture same_posture contains_element enabled text_beq
run_told = refl

-- A namespace with one key, which the monitor sees nothing of.
abbrev web_key : NsKey
web_key = record { pid_ns = 11; mnt_ns = 12 }

abbrev web_keys : NsVisibility
web_keys = record { ns_keys = web_key ∷ []; visible = invisible }

abbrev tables : Tables
tables = record {
  ns_map = (web_key, codes "c1") ∷ [];
  namespace_pids = (codes "prod", web_keys) ∷ [];
  ns_visibility = (web_key, invisible) ∷ [];
}

abbrev willing : NsKey → Answers
willing ns = record {
  made = true;
  deleted = true;
  puts = record { file = true; process = true; network = false; capabilities = true; dns = true };
}

abbrev partly_seen : Visibility
partly_seen = record invisible { process = true; network = true }

get-update_visibility_example :
    get web_key (update_visibility willing modified (codes "prod") partly_seen tables).ns_visibility
    ≡ seen willing web_key (web_key ∷ []) partly_seen (get web_key tables.ns_visibility)
unfolding get text_beq added modified
get-update_visibility_example =
    get-update_visibility willing modified (codes "prod") partly_seen tables web_keys web_key refl
      refl

abbrev global : Config
global = record { host = codes "node"; default_posture = strict }

handle_policy_event-Stores_example :
    (e : EndPoint) × (Stores plain_regexp settings
        (handle_policy_event plain_regexp settings global added false no_bash web_point
          (some 0)
          (codes "web")
          web_daemon)
        0
        e
        web_daemon.end_points
      × ((lists (same_policy kube_armor_policy no_bash) e.security_policies
            ≡ lists (same_policy kube_armor_policy no_bash) web_point.security_policies
              || added == added)
          × (others (same_policy kube_armor_policy no_bash) e.security_policies
              ≡ others (same_policy kube_armor_policy no_bash) web_point.security_policies)))
handle_policy_event-Stores_example =
    handle_policy_event-Stores plain_regexp settings global added no_bash web_point 0 (codes "web")
      web_daemon (inl refl) (omega arith)
