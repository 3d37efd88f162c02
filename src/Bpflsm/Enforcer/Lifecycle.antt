-- ===== src/Bpflsm/Enforcer/Lifecycle.antt =====
-- The ends of a container: its deletion, an update that takes all rules away, and the failure to
-- make a map.
use kube_armor.Base.{
  true, false, ℕ, ◌≡◌, refl, ◌∙◌, if◌then◌else◌, Option, none, some, List, arith, is_some, [], ◌∷◌,
  ap,
}
use kube_armor.Base.Comparable.{◌==◌, equal_refl, text_eq}
use kube_armor.Base.GoMap.{GoMap, get, put, get-put, get-delete}
use kube_armor.Base.Text.{Text}
use kube_armor.Bpflsm.Fresh.{fresh_rules}
use kube_armor.Bpflsm.Kernel.{Kernel}
use kube_armor.Bpflsm.Keys.{
  ArgumentsKey, InnerKey, NsKey, argument_beq, argument_eq, ns_beq_iff, ns_eq,
}
use kube_armor.Bpflsm.RuleList.{init_rules}
use kube_armor.Bpflsm.Enforcer.{
  BpfEnforcer, ContainerKv, apply_rules, attach, create_container_inner_map,
  delete_container_id_from_map, delete_container_inner_map, delete_lists, entry_of, lacks_rules,
  sync_entry, update_container_rules,
}
use kube_armor.Bpflsm.Enforcer.Entries.{Attached, Spared, kernel_entry}
use kube_armor.Bpflsm.Sync.{ArgLists, argument_key, delete_args}
use kube_armor.Policy.{DefaultPosture, SecurityPolicy}

module _ (k : Kernel) where
  open k use {outer, args, throttle}

  kernel_entry_gone :
      (be : BpfEnforcer k) (kv : ContainerKv) (j : InnerKey)
      → outer.lookup kv.key be.bpf_containers ≡ none
      → kernel_entry k be kv.key j ≡ none
  unfolding kernel_entry
  kernel_entry_gone be kv j gone = rw (gone, kernel_entry) refl

  -- `DeleteContainerInnerMap` on a container with a map.
  abbrev detach : Text → ContainerKv → BpfEnforcer k → BpfEnforcer k
  detach id kv be = record be {
    container_map = put id (record kv { map = none; rules = init_rules }) be.container_map;
    bpf_containers = outer.delete kv.key be.bpf_containers;
    bpf_arguments = delete_lists k kv.rules.arguments be.bpf_arguments;
    bpf_throttle = k.throttle.delete kv.key be.bpf_throttle;
  }

  delete_inner_found :
      (id : Text) (kv : ContainerKv) (be : BpfEnforcer k)
      → get id be.container_map ≡ some kv
      → delete_container_inner_map k id be ≡ (if is_some kv.map then detach id kv be else be)
  unfolding delete_container_inner_map entry_of
  delete_inner_found id kv be found = rw (found, entry_of, delete_container_inner_map) refl

  -- The loops over the arguments delete no key of other namespaces.
  lookup-delete_args :
      (ns : NsKey) (key : InnerKey) (allowed : List Text) (m : args.Map) (a : ArgumentsKey)
      → (ns == a.ns_key) ≡ false
      → args.lookup a (delete_args k ns key allowed m) ≡ args.lookup a m
  unfolding delete_args argument_key argument_beq
  lookup-delete_args ns key [] m a ne = refl
  lookup-delete_args ns key (t ∷ more) m a ne =
      lookup-delete_args ns key more (args.delete (argument_key ns key t) m) a ne
      ∙ args.lookup-delete (argument_key ns key t) a m
      ∙ rw ne refl

  -- The lists are of these namespaces.
  unfoldable pub AreOf : NsKey → ArgLists → Type 0
  AreOf ns [] = Unit
  AreOf ns ((at, allowed) ∷ rest) = (at.ns_key ≡ ns) × AreOf ns rest

  lookup-delete_lists :
      (ns : NsKey) (lists : ArgLists) (m : args.Map) (a : ArgumentsKey)
      → AreOf ns lists
      → (ns == a.ns_key) ≡ false
      → args.lookup a (delete_lists k lists m) ≡ args.lookup a m
  unfolding delete_lists AreOf
  lookup-delete_lists ns [] m a own ne = refl
  lookup-delete_lists ns ((at, allowed) ∷ rest) m a own ne =
      lookup-delete_args at.ns_key at.inner_key allowed (delete_lists k rest m) a
        (ap (λ n. n == a.ns_key) own.0 ∙ ne)
      ∙ lookup-delete_lists ns rest m a own.1 ne

  -- The kernel no longer finds the container. The other containers are registered as they were, and
  -- for other namespaces the kernel finds the same entries, arguments and throttling as before.
  pub record Detached (id : Text) (kv : ContainerKv) (be be' : BpfEnforcer k) : Type 0 where
    pub gone : (j : InnerKey) → kernel_entry k be' kv.key j ≡ none
    pub others :
        (other : Text)
        → (id == other) ≡ false
        → get other be'.container_map ≡ get other be.container_map
    pub spared : Spared k kv.key be be'
    pub arguments :
        (a : ArgumentsKey)
        → (kv.key == a.ns_key) ≡ false
        → args.lookup a be'.bpf_arguments ≡ args.lookup a be.bpf_arguments
    pub throttled :
        (other : NsKey)
        → (kv.key == other) ≡ false
        → throttle.lookup other be'.bpf_throttle ≡ throttle.lookup other be.bpf_throttle

  detach-Spared :
      (id : Text) (kv : ContainerKv) (be : BpfEnforcer k) → Spared k kv.key be (detach id kv be)
  unfolding kernel_entry
  detach-Spared id kv be other j ne =
      let same : outer.lookup other (outer.delete kv.key be.bpf_containers)
          ≡ outer.lookup other be.bpf_containers =
        outer.lookup-delete kv.key other be.bpf_containers ∙ rw ne refl in
      rw (kernel_entry, same) refl

  detach-Detached :
      (id : Text) (kv : ContainerKv) (be : BpfEnforcer k)
      → AreOf kv.key kv.rules.arguments
      → Detached id kv be (detach id kv be)
  detach-Detached id kv be own = record {
    gone = λ j. kernel_entry_gone (detach id kv be) kv j (
        outer.lookup-delete kv.key kv.key be.bpf_containers
        ∙ rw ((ns_beq_iff kv.key kv.key).1 refl) refl);
    others = λ other ne. rw (get-put, ne) refl;
    spared = detach-Spared id kv be;
    arguments = λ a ne. lookup-delete_lists kv.key kv.rules.arguments be.bpf_arguments a own ne;
    throttled = λ other ne. throttle.lookup-delete kv.key other be.bpf_throttle ∙ rw ne refl;
  }

  delete_inner-Detached :
      (id : Text) (kv : ContainerKv) (be : BpfEnforcer k) (m : Option ℕ)
      → kv.map ≡ m
      → get id be.container_map ≡ some kv
      → Attached k kv m be
      → AreOf kv.key kv.rules.arguments
      → Detached id kv be (delete_container_inner_map k id be)
  delete_inner-Detached id kv be none unmapped found att own =
      simp (delete_inner_found id kv be found, unmapped)
        (record {
          gone = λ j. kernel_entry_gone be kv j att;
          others = λ other ne. refl;
          spared = λ other j ne. refl;
          arguments = λ a ne. refl;
          throttled = λ other ne. refl;
        })
  delete_inner-Detached id kv be (some h) mapped found att own =
      simp (delete_inner_found id kv be found, mapped) (detach-Detached id kv be own)

  -- For a registered and attached container whose argument lists are all of its own namespaces: after
  -- `DeleteContainerIDFromMap` the container is not registered, and the kernel finds no entry for its
  -- namespaces. The registered entry of every other container is unchanged, and for all other
  -- namespaces the kernel finds the entries, arguments and throttling that it found before.
  pub delete_container_id_from_map-Detached :
      (id : Text) (be : BpfEnforcer k) (kv : ContainerKv)
      → get id be.container_map ≡ some kv
      → Attached k kv kv.map be
      → AreOf kv.key kv.rules.arguments
      → (get id (delete_container_id_from_map k id be).container_map ≡ none)
        × Detached id kv be (delete_container_id_from_map k id be)
  unfolding delete_container_id_from_map kernel_entry
  delete_container_id_from_map-Detached id be kv found att own =
      let d = delete_inner-Detached id kv be kv.map refl found att own in
      (
        rw (get-delete, equal_refl) refl,
        record {
          gone = d.gone;
          others = λ other ne. rw (get-delete, ne) (d.others other ne);
          spared = d.spared;
          arguments = d.arguments;
          throttled = d.throttled;
        },
      )

  -- For a registered and attached container whose argument lists are all of its own namespaces, and
  -- policies that give no rule: the update returns, and the kernel finds no entry for the container's
  -- namespaces. The registered entry of every other container is unchanged, and for all other
  -- namespaces the kernel finds the entries, arguments and throttling that it found before.
  pub update_container_rules-Detached :
      (cap_to_code : GoMap Text ℕ) (im : Option ℕ) (id : Text) (ps : List SecurityPolicy)
      (p : DefaultPosture) (be : BpfEnforcer k) (kv : ContainerKv)
      → get id be.container_map ≡ some kv
      → Attached k kv kv.map be
      → AreOf kv.key kv.rules.arguments
      → lacks_rules (fresh_rules cap_to_code kv.key ps) ≡ true
      → (be' : BpfEnforcer k) × (update_container_rules k cap_to_code im id ps p be ≡ some be')
        × Detached id kv be be'
  unfolding update_container_rules apply_rules entry_of
  update_container_rules-Detached cap_to_code im id ps p be kv found att own no_rules = (
    delete_container_inner_map k id be,
    ground arith,
    delete_inner-Detached id kv be kv.map refl found att own,
  )

  -- If the map of a container without one cannot be made, an update with rules panics on the nil map.
  pub update_container_rules_panics :
      (cap_to_code : GoMap Text ℕ) (id : Text) (ps : List SecurityPolicy) (p : DefaultPosture)
      (be : BpfEnforcer k) (kv : ContainerKv)
      → get id be.container_map ≡ some kv
      → kv.map ≡ none
      → lacks_rules (fresh_rules cap_to_code kv.key ps) ≡ false
      → update_container_rules k cap_to_code none id ps p be ≡ none
  unfolding update_container_rules apply_rules entry_of create_container_inner_map attach sync_entry
  update_container_rules_panics cap_to_code id ps p be kv found unmapped some_rules = ground arith
