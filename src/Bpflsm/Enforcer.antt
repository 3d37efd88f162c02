-- ===== src/Bpflsm/Enforcer.antt =====
-- mapHelpers.go and `UpdateContainerRules`: the state of the enforcer and its operations. What
-- `ebpf.NewMap` returns is an argument: the handle of a new map, or none on an error.
pub mod Entries
pub mod Lifecycle
pub mod Update
use kube_armor.Base.{
  Bool, ℕ, if◌then◌else◌, is_empty, is_some, ◌&&◌, not, Option, none, some, List, [], ◌∷◌, get_or,
}
use kube_armor.Base.Comparable.{◌==◌, nat_eq, text_eq}
use kube_armor.Base.GoMap.{GoMap, delete, get, put}
use kube_armor.Base.Text.{Text, codes}
use kube_armor.Bpflsm.Fresh.{fresh_rules}
use kube_armor.Bpflsm.Kernel.{Kernel, put_or_log}
use kube_armor.Bpflsm.Keys.{NsKey}
use kube_armor.Bpflsm.RuleList.{RuleList, init_rules}
use kube_armor.Bpflsm.Sync.{ArgLists, delete_args, sync_args, sync_inner, sync_rules}
use kube_armor.Policy.{DefaultPosture, SecurityPolicy}

-- `ContainerKV`. The pointer to the inner map is nil or a handle.
pub record ContainerKv : Type 0 where
  pub key : NsKey
  pub map : Option ℕ
  pub rules : RuleList

abbrev pub zero_ns : NsKey
zero_ns = record { pid_ns = 0; mnt_ns = 0 }

abbrev pub zero_kv : ContainerKv
zero_kv = record { key = zero_ns; map = none; rules = init_rules }

-- No rule in any section.
unfoldable pub lacks_rules : RuleList → Bool
lacks_rules r =
    is_empty r.file.rules
    && is_empty r.process.rules
    && is_empty r.network.rules
    && is_empty r.capabilities.rules

module _ (k : Kernel) where
  open k use {inner, outer, args, throttle}

  -- `maps` is the store of the inner maps, by handle.
  pub record BpfEnforcer : Type 0 where
    pub container_map : GoMap Text ContainerKv
    pub maps : ℕ → inner.Map
    pub bpf_containers : outer.Map
    pub bpf_arguments : args.Map
    pub bpf_throttle : throttle.Map

  unfoldable pub set_map : ℕ → inner.Map → (ℕ → inner.Map) → ℕ → inner.Map
  set_map h m maps i = if h == i then m else maps i

  -- The entry of a container, as Go reads a missing one.
  unfoldable pub entry_of : Text → BpfEnforcer → ContainerKv
  entry_of id be = get_or (get id be.container_map) zero_kv

  unfoldable pub add_container_id_to_map : Text → ℕ → ℕ → BpfEnforcer → BpfEnforcer
  add_container_id_to_map id pidns mntns be =
      let kv : ContainerKv = record {
        key = record { pid_ns = pidns; mnt_ns = mntns };
        map = none;
        rules = init_rules;
      } in
      record be { container_map = put id kv be.container_map }

  -- The body of `CreateContainerInnerMap` for a registered container.
  unfoldable pub attach : Option ℕ → Text → ContainerKv → BpfEnforcer → BpfEnforcer
  attach none id kv be = be
  attach (some h) id kv be = record be {
    container_map = put id (record kv { map = some h }) be.container_map;
    maps = set_map h inner.empty be.maps;
    bpf_containers = put_or_log outer kv.key h be.bpf_containers;
  }

  unfoldable pub create_container_inner_map : Option ℕ → Text → BpfEnforcer → BpfEnforcer
  create_container_inner_map im id be = elim (get id be.container_map) [
    | none ↦ be
    | some kv ↦ attach im id kv be
  ]

  -- The loop over `Rules.ArgumentsList`.
  unfoldable pub delete_lists : ArgLists → args.Map → args.Map
  delete_lists [] m = m
  delete_lists ((at, allowed) ∷ rest) m =
      delete_args k at.ns_key at.inner_key allowed (delete_lists rest m)

  -- A missing container has no map, so nothing is done for it.
  unfoldable pub delete_container_inner_map : Text → BpfEnforcer → BpfEnforcer
  delete_container_inner_map id be =
      let kv : ContainerKv = entry_of id be in
      if is_some kv.map
      then record be {
        container_map = put id (record kv { map = none; rules = init_rules }) be.container_map;
        bpf_containers = outer.delete kv.key be.bpf_containers;
        bpf_arguments = delete_lists kv.rules.arguments be.bpf_arguments;
        bpf_throttle = throttle.delete kv.key be.bpf_throttle;
      }
      else be

  unfoldable pub delete_container_id_from_map : Text → BpfEnforcer → BpfEnforcer
  delete_container_id_from_map id be =
      let be' : BpfEnforcer = delete_container_inner_map id be in
      record be' { container_map = delete id be'.container_map }

  abbrev pub host : Text
  host = codes "host"

  unfoldable pub add_host_to_map : Option ℕ → BpfEnforcer → BpfEnforcer
  add_host_to_map none be = be
  add_host_to_map (some h) be = record be {
    container_map =
        put host (record { key = zero_ns; map = some h; rules = init_rules }) be.container_map;
    maps = set_map h inner.empty be.maps;
    bpf_containers = put_or_log outer zero_ns h be.bpf_containers;
  }

  -- From `Check for differences` on, for the entry with its map.
  unfoldable pub sync_container :
      Text → DefaultPosture → RuleList → ContainerKv → ℕ → BpfEnforcer → BpfEnforcer
  sync_container id p new kv h be =
      let (lists, bpf_args) = sync_args k kv.key new kv.rules be.bpf_arguments in
      record be {
        container_map =
            put id (record kv { rules = sync_rules new kv.rules lists }) be.container_map;
        maps = set_map h (sync_inner k p new kv.rules (be.maps h)) be.maps;
        bpf_arguments = bpf_args;
      }

  -- none is the panic on the nil map that a failed `CreateContainerInnerMap` leaves.
  unfoldable pub sync_entry :
      Text → DefaultPosture → RuleList → ContainerKv → BpfEnforcer → Option BpfEnforcer
  sync_entry id p new kv be = elim kv.map [
    | none ↦ none
    | some h ↦ some (sync_container id p new kv h be)
  ]

  -- From the locking of `ContainerMapLock` on.
  unfoldable pub apply_rules :
      Option ℕ → Text → DefaultPosture → RuleList → BpfEnforcer → Option BpfEnforcer
  apply_rules im id p new be = elim (get id be.container_map) [
    | none ↦ some be
    | some kv ↦
        if lacks_rules new
        then some (delete_container_inner_map id be)
        else (let be' : BpfEnforcer =
              if is_some kv.map then be else create_container_inner_map im id be in
            sync_entry id p new (entry_of id be') be')
  ]

  unfoldable pub update_container_rules :
      GoMap Text ℕ
      → Option ℕ
      → Text
      → List SecurityPolicy
      → DefaultPosture
      → BpfEnforcer
      → Option BpfEnforcer
  update_container_rules cap_to_code im id ps p be =
      apply_rules im id p (fresh_rules cap_to_code (entry_of id be).key ps) be
