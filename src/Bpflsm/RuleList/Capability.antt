-- ===== src/Bpflsm/RuleList/Capability.antt =====
-- The loop over `Spec.Capabilities.MatchCapabilities`. The codes of `CapToCode` are those of the
-- package unix, so the table is an argument.
use kube_armor.Base.{if◌then◌else◌, ◌++◌, [], ◌∷◌, ℕ, get_or}
use kube_armor.Base.Comparable.{text_eq}
use kube_armor.Base.GoMap.{GoMap, get}
use kube_armor.Base.Text.{Text, codes, contains, to_upper}
use kube_armor.Bpflsm.Keys.{path_of}
use kube_armor.Bpflsm.RuleList.{RuleSection}
use kube_armor.Bpflsm.RuleList.Network.{add_plain}
use kube_armor.Policy.{CapabilitiesCapabilityType}

abbrev pub capable_key : ℕ
capable_key = 200

unfoldable pub capability_name : Text → Text
capability_name c = if contains c (codes "cap_") then to_upper c else codes "CAP_" ++ to_upper c

-- A missing name reads as zero.
unfoldable pub add_capability :
    GoMap Text ℕ → CapabilitiesCapabilityType → RuleSection → RuleSection
add_capability cap_to_code c s =
    add_plain
      (path_of (capable_key ∷ get_or (get (capability_name c.capability) cap_to_code) 0 ∷ []))
      c.action c.from_source s
