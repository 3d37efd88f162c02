-- ===== src/Bpflsm/Sync/Refines.antt =====
-- The kernel map of a container holds exactly what its fresh rule set prescribes.
use kube_armor.Base.{◌≡◌, Bool, false, ◌||◌, Option, none, arith, if◌then◌else◌, or_else, ◌∙◌}
use kube_armor.Base.Comparable.{◌==◌}
use kube_armor.Base.GoMap.{get, has}
use kube_armor.Base.Text.{Text}
use kube_armor.Bpflsm.Kernel.{HasRoom, Kernel}
use kube_armor.Bpflsm.Keys.{
  InnerKey, Masks, cap_whitelist, file_whitelist, inner_eq, net_whitelist, proc_whitelist,
}
use kube_armor.Bpflsm.RuleList.{RuleList, RuleSection}
use kube_armor.Bpflsm.Sync.{ArgLists, sync_inner, sync_rules}
use kube_armor.Bpflsm.Sync.Loops.{
  get-merge_section, lookup-unmap, lookup-write_section, posture_entry,
}
use kube_armor.Policy.{DefaultPosture}

-- A section prescribes its rules, and under its whitelist key its posture. Where it prescribes
-- nothing, what is below it counts.
unfoldable pub section_entry :
    InnerKey → Text → RuleSection → InnerKey → Option Masks → Option Masks
section_entry key action s j below =
    or_else (get j s.rules) (if key == j then posture_entry action s.posture else below)

-- What a rule set prescribes for a key: capabilities over network over file over process.
unfoldable pub prescribed : DefaultPosture → RuleList → InnerKey → Option Masks
prescribed p r j = section_entry cap_whitelist p.capabilities_action r.capabilities j (
    section_entry net_whitelist p.network_action r.network j (
      section_entry file_whitelist p.file_action r.file j
        (section_entry proc_whitelist p.file_action r.process j none)))

-- The key belongs to a rule of the set, or to a posture.
unfoldable pub claims : RuleList → InnerKey → Bool
claims r j =
    has j r.process.rules
    || has j r.file.rules
    || has j r.network.rules
    || has j r.capabilities.rules
    || proc_whitelist == j
    || file_whitelist == j
    || net_whitelist == j
    || cap_whitelist == j

module _ (k : Kernel) where
  open k use {inner}

  -- The kernel map has no entry that the rules of the container do not account for.
  abbrev pub Covered : RuleList → inner.Map → Type 0
  Covered r m = (j : InnerKey) → claims r j ≡ false → inner.lookup j m ≡ none

  module _ (room : HasRoom inner) (p : DefaultPosture) (new old : RuleList) (m : inner.Map) where
    -- After an update every key has what the fresh rule set prescribes, and nothing else is left.
    pub lookup-sync_inner :
        Covered old m
        → (j : InnerKey) → inner.lookup j (sync_inner k p new old m) ≡ prescribed p new j
    unfolding sync_inner prescribed section_entry claims
    lookup-sync_inner covered j =
        rw
          (
            lookup-write_section k room,
            lookup-write_section k room,
            lookup-write_section k room,
            lookup-write_section k room,
            lookup-unmap k,
            lookup-unmap k,
            lookup-unmap k,
            lookup-unmap k,
          )
          (ground (arith, covered j))

    -- So the invariant holds for the next update, under the rules that the container then has.
    pub sync_inner-Covered :
        Covered old m
        → (lists : ArgLists) → Covered (sync_rules new old lists) (sync_inner k p new old m)
    unfolding claims prescribed section_entry sync_rules
    sync_inner-Covered covered lists j h =
        lookup-sync_inner covered j
        ∙ ground (
          arith,
          get-merge_section j new.process old.process,
          get-merge_section j new.file old.file,
          get-merge_section j new.network old.network,
          get-merge_section j new.capabilities old.capabilities,
        )
