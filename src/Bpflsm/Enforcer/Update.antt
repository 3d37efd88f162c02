-- ===== src/Bpflsm/Enforcer/Update.antt =====
-- `UpdateContainerRules`: what the kernel finds for a container afterwards.
use kube_armor.Base.{false, ℕ, ◌≡◌, some}
use kube_armor.Base.Comparable.{◌==◌, nat_eq, text_eq}
use kube_armor.Base.GoMap.{GoMap, get}
use kube_armor.Base.Text.{Text}
use kube_armor.Bpflsm.Kernel.{HasRoom, Kernel}
use kube_armor.Bpflsm.Keys.{InnerKey, ns_eq}
use kube_armor.Bpflsm.RuleList.{RuleList}
use kube_armor.Bpflsm.Enforcer.{BpfEnforcer, ContainerKv}
use kube_armor.Bpflsm.Sync.Refines.{prescribed}
use kube_armor.Policy.{DefaultPosture}
use kube_armor.Bpflsm.Enforcer.Entries.{Attached, Spared, kernel_entry}

module _ (k : Kernel) where
  open k use {inner, outer}

  pub record Updated (id : Text) (kv : ContainerKv) (p : DefaultPosture) (new : RuleList)
      (be be' : BpfEnforcer k) : Type 0 where
    pub kv' : ContainerKv
    pub registered : get id be'.container_map ≡ some kv'
    pub same_key : kv'.key ≡ kv.key
    pub attached : Attached k kv' kv'.map be'
    pub kernel : (j : InnerKey) → kernel_entry k be' kv.key j ≡ prescribed p new j
    pub others :
        (other : Text)
        → (id == other) ≡ false
        → get other be'.container_map ≡ get other be.container_map
    pub spared : Spared k kv.key be be'

  module _ (room : HasRoom inner) (p : DefaultPosture) (new : RuleList) (id : Text) where
    -- The container that `CreateContainerInnerMap` has given a new map.
    abbrev with_map : ContainerKv → ℕ → ContainerKv
    with_map kv h = record kv { map = some h }
