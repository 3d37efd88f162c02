-- ===== src/Bpflsm/Fresh.antt =====
-- rulesHandling.go: the fresh rule set of a list of policies, from `newrules.Init()` up to
-- `fuseProcAndFileRules`.
pub mod Posture
pub mod Fused
pub mod Plain
pub mod Whitelist
use kube_armor.Base.{ℕ, List, [], ◌∷◌, Option, none, some, each}
use kube_armor.Base.GoMap.{GoMap, get}
use kube_armor.Base.Text.{Text}
use kube_armor.Bpflsm.Keys.{Masks, NsKey, Rules, inner_eq}
use kube_armor.Bpflsm.RuleList.{RuleList, init_rules}
use kube_armor.Bpflsm.RuleList.Capability.{add_capability}
use kube_armor.Bpflsm.RuleList.File.{add_file_dir, add_file_path}
use kube_armor.Bpflsm.RuleList.Network.{add_network, handle_all_network_rule}
use kube_armor.Bpflsm.RuleList.Process.{add_process_dir, add_process_path}
use kube_armor.Policy.{SecurityPolicy}

module _ (cap_to_code : GoMap Text ℕ) (ns : NsKey) where
  -- One round of the loop over the policies.
  unfoldable pub add_policy : SecurityPolicy → RuleList → RuleList
  add_policy p r =
      let r₁ = each (add_process_path ns) p.spec.process.match_paths r in
      record r₁ {
        process = each add_process_dir p.spec.process.match_directories r₁.process;
        file =
            each add_file_dir p.spec.file.match_directories
              (each add_file_path p.spec.file.match_paths r₁.file);
        network = each add_network (handle_all_network_rule p.spec.network) r₁.network;
        capabilities = each (add_capability cap_to_code) p.spec.capabilities r₁.capabilities;
      }

  unfoldable pub policy_rules : List SecurityPolicy → RuleList
  policy_rules ps = each add_policy ps init_rules

-- `fuseProcAndFileRules`: a file rule takes over the process mask of the same key.
unfoldable pub fuse_masks : Option Masks → Masks → Masks
fuse_masks none v = v
fuse_masks (some p) v = record v { at_process = p.at_process }

unfoldable pub fuse : Rules → Rules → Rules
fuse procs [] = []
fuse procs ((k, v) ∷ files) = (k, fuse_masks (get k procs) v) ∷ fuse procs files

unfoldable pub fresh_rules : GoMap Text ℕ → NsKey → List SecurityPolicy → RuleList
fresh_rules cap_to_code ns ps =
    let r = policy_rules cap_to_code ns ps in
    record r {
      file = record { rules = fuse r.process.rules r.file.rules; posture = r.file.posture };
    }
