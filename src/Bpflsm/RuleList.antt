-- ===== src/Bpflsm/RuleList.antt =====
-- rulesHandling.go, the first half of `UpdateContainerRules`: the fresh rule set of a list of
-- policies. The four rule maps of `RuleList` stand with their posture flags in a `RuleSection` each.
pub mod Network
pub mod Process
pub mod File
pub mod Capability
pub mod Sources
pub mod Entered
pub mod Names
use kube_armor.Base.{Bool, true, false, [], if◌then◌else◌}
use kube_armor.Base.Comparable.{◌==◌, text_eq}
use kube_armor.Base.GoMap.{GoMap, put}
use kube_armor.Base.Text.{Text}
use kube_armor.Bpflsm.Keys.{
  ArgListKey, Index, InnerKey, Masks, Rules, inner_eq, mask_at, set_mask_at,
}
use kube_armor.Bpflsm.Masks.{deny, with_flag}
use kube_armor.Bpflsm.Directory.{dir_to_map}
use kube_armor.Policy.{allow, block}
use mathlib.Core.List.{List}

pub record RuleSection : Type 0 where
  pub rules : Rules
  pub posture : Bool

pub record RuleList : Type 0 where
  pub process : RuleSection
  pub file : RuleSection
  pub network : RuleSection
  pub capabilities : RuleSection
  pub arguments : GoMap ArgListKey (List Text)

abbrev pub no_rules : RuleSection
no_rules = record { rules = []; posture = false }

-- `Init`
abbrev pub init_rules : RuleList
init_rules = record {
  process = no_rules;
  file = no_rules;
  network = no_rules;
  capabilities = no_rules;
  arguments = [];
}

-- `val[idx] = val[idx] | DENY` under `else if action == "Block"`, which the loops over the sources
-- keep for the next round.
unfoldable pub enforced : Index → Text → Masks → Masks
enforced idx action val =
    if action == allow
    then val
    else if action == block
    then set_mask_at idx (with_flag deny (mask_at idx val)) val
    else val

-- The two branches that enter a rule: `Allow` also turns the section into a whitelist.
unfoldable pub put_rule : Text → InnerKey → Masks → RuleSection → RuleSection
put_rule action key val s =
    if action == allow
    then record { rules = put key val s.rules; posture = true }
    else if action == block
    then record s { rules = put key val s.rules }
    else s

-- The same for a directory.
unfoldable pub put_dir : Index → Text → Text → Text → Masks → RuleSection → RuleSection
put_dir idx action directory src val s =
    if action == allow
    then record { rules = dir_to_map idx directory src s.rules val; posture = true }
    else if action == block
    then record s { rules = dir_to_map idx directory src s.rules val }
    else s
