-- ===== src/Feeder/Matched/Tests.antt =====
-- The theorems of `UpdateMatchedPolicy` at concrete inputs, and runs of it.
use kube_armor.Base.{true, false, ◌≡◌, refl, [], ◌∷◌, none, some}
use kube_armor.Base.Comparable.{text_beq, text_eq}
use kube_armor.Base.GoMap.{get}
use kube_armor.Base.Text.{Text, codes, contains, has_prefix, split}
use kube_armor.Feeder.Matched.Alerts.{Scan, enforcer_of, passed, set_match, set_policy, set_tags}
use kube_armor.Feeder.Matched.Allowed.{Silent, update_matched_policy-Silent}
use kube_armor.Feeder.Matched.Decided.{Blocks, update_matched_policy-Block}
use kube_armor.Feeder.Matched.Files.{Patterns, file_source, matched_regex}
use kube_armor.Feeder.Matched.Loop.{
  comparable_result, first_scan, policies_of, policy_key, scan, update_matched_policy,
}
use kube_armor.Feeder.Matched.Overwritten.{names_capability, scan_overwrites_capability}
use kube_armor.Feeder.Matched.Shared.{log_source}
use kube_armor.Feeder.State.{audited, Config, Feeder, Log, MatchPolicy, empty_log}

-- A pattern is met by itself alone.
abbrev texts : Patterns Text
texts = record { glob = text_beq; match_string = text_beq }

abbrev config : Config
config = record {
  host = codes "node";
  default_posture = record {
    file_action = codes "audit";
    network_action = codes "audit";
    capabilities_action = codes "audit";
  };
}

abbrev no_shadow : MatchPolicy Text
no_shadow = record {
  policy_name = codes "no-shadow";
  severity = codes "9";
  tags = [];
  message = codes "read";
  source = [];
  operation = codes "File";
  resource_type = codes "Glob";
  resource = codes "/etc/shadow";
  is_from_source = false;
  owner_only = false;
  read_only = false;
  recursive = false;
  regexp = none;
  native = false;
  action = codes "Block";
}

-- A later policy that would allow the same file.
abbrev all_files : MatchPolicy Text
all_files = record no_shadow { policy_name = codes "all"; action = codes "Allow" }

abbrev web_feeder : Feeder Text
web_feeder = record {
  node = record {
    node_name = codes "node";
    policy_enabled = 2;
    process_visibility = true;
    file_visibility = true;
    network_visibility = true;
    capabilities_visibility = true;
  };
  enforcer = codes "BPFLSM";
  security_policies = (codes "prod_web", no_shadow ∷ all_files ∷ []) ∷ [];
  default_postures = [];
}

abbrev shadow_log : Log
shadow_log = record empty_log {
  namespace_name = codes "prod";
  pod_name = codes "web";
  container_id = codes "c1";
  operation = codes "File";
  resource = codes "/etc/shadow";
  result = codes "Permission denied";
  policy_enabled = 1;
}

abbrev shadow_alert : Log
shadow_alert = record shadow_log {
  type_name = codes "MatchedPolicy";
  policy_name = codes "no-shadow";
  severity = codes "9";
  message = codes "read";
  enforcer = codes "BPFLSM";
  action = codes "Block";
}

update_matched_policy-Block_example :
    update_matched_policy texts config shadow_log web_feeder
    ≡ some (
      set_match (enforcer_of (codes "BPFLSM") shadow_log) (codes "Block") no_shadow shadow_log,
      web_feeder,
    )
unfolding passed comparable_result policies_of policy_key get Blocks file_source matched_regex
    text_beq
update_matched_policy-Block_example =
    update_matched_policy-Block texts config web_feeder shadow_log no_shadow (all_files ∷ []) refl
      refl refl refl refl refl (refl, (refl, (refl, refl)))

run_shadow :
    update_matched_policy texts config shadow_log web_feeder ≡ some (shadow_alert, web_feeder)
unfolding set_match set_policy set_tags enforcer_of audited
run_shadow = update_matched_policy-Block_example

update_matched_policy-Silent_example : Silent shadow_alert
update_matched_policy-Silent_example =
    update_matched_policy-Silent texts config web_feeder shadow_log (shadow_alert, web_feeder)
      run_shadow

-- A denied log on capabilities, a policy that allows another one, and a policy that blocks it.
abbrev net_raw : MatchPolicy Text
net_raw = record no_shadow {
  operation = codes "Capabilities";
  resource = codes "net_raw";
  action = codes "Allow";
}

abbrev admin_scan : Scan
admin_scan =
    record (first_scan
      (record shadow_alert { operation = codes "Capabilities"; resource = codes "sys_admin" })) {
        capabilities_allow = true;
      }

abbrev no_admin : MatchPolicy Text
no_admin = record net_raw {
  policy_name = codes "no-admin";
  resource = codes "sys_admin";
  action = codes "Block";
}

scan_overwrites_capability_example :
    ((t : Scan) × ((scan texts
            (codes "BPFLSM")
            config.default_posture
            (no_admin ∷ net_raw ∷ [])
            admin_scan
          ≡ some t)
        × (t.log.policy_name ≡ codes "DefaultPosture")))
    × ((t : Scan) × ((scan texts
              (codes "BPFLSM")
              config.default_posture
              (net_raw ∷ no_admin ∷ [])
              admin_scan
            ≡ some t)
          × (t.log.policy_name ≡ codes "no-admin")))
unfolding log_source passed names_capability contains has_prefix split text_beq
scan_overwrites_capability_example =
    scan_overwrites_capability texts (codes "BPFLSM") config.default_posture no_admin net_raw
      admin_scan refl refl refl (refl, refl) refl refl (refl, refl) refl
