-- ===== src/Bpflsm/RuleTests.antt =====
-- The theorems about the rule set at concrete inputs.
use kube_armor.Base.{◌≡◌, refl, [], ◌∷◌, some, arith, any}
use kube_armor.Base.Comparable.{text_eq}
use kube_armor.Base.GoMap.{get}
use kube_armor.Base.Text.{Text, codes, split}
use kube_armor.Bpflsm.Directory.{hints_of, slash}
use kube_armor.Bpflsm.Fresh.{fresh_rules, fuse}
use kube_armor.Bpflsm.Fresh.Fused.{fused_entry, get-fuse}
use kube_armor.Bpflsm.Fresh.Whitelist.{
  capabilities_allow, file_allows, fresh_rules-posture, network_allows, process_allows,
}
use kube_armor.Bpflsm.Keys.{InnerKey, inner_eq, path_of, zero_path, Rules}
use kube_armor.Bpflsm.RuleList.{no_rules}
use kube_armor.Bpflsm.RuleList.Network.{network_path}
use kube_armor.Bpflsm.RuleList.Process.{process_path_rules, program_name}
use kube_armor.Bpflsm.RuleList.Sources.{process_sources_overlap}
use kube_armor.Bpflsm.Samples.{file_rule, from, process_rule, program, shell_policy, web_key}
use kube_armor.Policy.{FilePathType, ProcessPathType, block}

abbrev logs : Text
logs = codes "/var/log/app/"

logs_hints : hints_of (split slash logs) ≡ codes "/" ∷ codes "/var/" ∷ codes "/var/log/" ∷ []
unfolding program
logs_hints = refl

abbrev bash_key : InnerKey
bash_key = record { path = path_of (codes "/bin/bash"); source = zero_path }

abbrev bash_procs : Rules
bash_procs = (bash_key, record { at_process = 129; at_file = 0 }) ∷ []

abbrev bash_files : Rules
bash_files = (bash_key, record { at_process = 0; at_file = 6 }) ∷ []

get-fuse_example :
    get bash_key (fuse bash_procs bash_files)
    ≡ fused_entry (get bash_key bash_procs) (get bash_key bash_files)
get-fuse_example = get-fuse bash_key bash_procs bash_files

bash_fused :
    get bash_key (fuse bash_procs bash_files) ≡ some (record { at_process = 129; at_file = 6 })
unfolding program
bash_fused = refl

fresh_rules-posture_example :
    ((fresh_rules [] web_key (shell_policy ∷ [])).process.posture
      ≡ any process_allows (shell_policy ∷ []))
    × ((fresh_rules [] web_key (shell_policy ∷ [])).file.posture
        ≡ any file_allows (shell_policy ∷ []))
    × ((fresh_rules [] web_key (shell_policy ∷ [])).network.posture
        ≡ any network_allows (shell_policy ∷ []))
    × ((fresh_rules [] web_key (shell_policy ∷ [])).capabilities.posture
        ≡ any capabilities_allow (shell_policy ∷ []))
fresh_rules-posture_example = fresh_rules-posture [] web_key (shell_policy ∷ [])

abbrev shadow_rule : FilePathType
shadow_rule =
    file_rule (codes "/etc/shadow") (from (codes "/bin/su") ∷ from (codes "/bin/sh") ∷ []) block

-- A program that two shells must not start. The second path is shorter.
abbrev curl_rule : ProcessPathType
curl_rule =
    process_rule (codes "/usr/bin/curl")
      (from (codes "/usr/bin/bash") ∷ from (codes "/bin/sh") ∷ []) [] block

process_sources_overlap_example :
    get
      (record { path = path_of (program_name curl_rule); source = path_of (codes "/bin/sh") })
      (process_path_rules curl_rule no_rules).1.rules
    ≡ get
        (record { path = path_of (program_name curl_rule); source = path_of (codes "/bin/sh") })
        no_rules.rules
unfolding program
process_sources_overlap_example =
    process_sources_overlap curl_rule (from (codes "/usr/bin/bash")) (from (codes "/bin/sh"))
      (codes "/usr/bi") (codes "/bash") 110 no_rules refl refl refl (omega arith) (omega arith)

-- So the rule is entered under the key of zeros, as one for an unknown protocol.
icmpv6_zeros : network_path (codes "ICMPv6") ≡ zero_path
unfolding program
icmpv6_zeros = refl
