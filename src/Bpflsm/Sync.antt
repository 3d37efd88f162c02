-- ===== src/Bpflsm/Sync.antt =====
-- rulesHandling.go, the second half of `UpdateContainerRules`: the rules and the kernel map of one
-- container are brought in line with a fresh rule set.
pub mod Loops
pub mod Refines
pub mod Arguments
use kube_armor.Base.{Bool, ℕ, if◌then◌else◌, is_empty, get_or, List, [], ◌∷◌, each}
use kube_armor.Base.Comparable.{Comparable, ◌==◌, text_eq}
use kube_armor.Base.GoMap.{GoMap, delete, get, has, put}
use kube_armor.Base.Text.{Text, codes}
use kube_armor.Bpflsm.Kernel.{EbpfMap, Kernel, put_or_log}
use kube_armor.Bpflsm.Keys.{
  ArgListKey, ArgumentsKey, InnerKey, Masks, NsKey, Rules, arg_list_eq, audit_posture,
  block_posture, cap_whitelist, file_whitelist, inner_eq, net_whitelist, no_masks, path_of,
  proc_whitelist,
}
use kube_armor.Bpflsm.RuleList.{RuleList, RuleSection}
use kube_armor.Policy.{DefaultPosture}

abbrev pub ArgLists : Type 0
ArgLists = GoMap ArgListKey (List Text)

-- `for key, val := range new { old[key] = val }`
module _ {ℓ} {K V : Type ℓ} ⦃c : Comparable K⦄ where
  unfoldable pub put_all : GoMap K V → GoMap K V → GoMap K V
  put_all [] m = m
  put_all ((k, v) ∷ new) m = put k v (put_all new m)

-- What the range over `oldRuleList` in `resolveConflicts` leaves of it.
unfoldable pub prune : Rules → Rules → Rules
prune new [] = []
prune new ((k, v) ∷ old) = if has k new then (k, v) ∷ prune new old else prune new old

unfoldable pub argument_key : NsKey → InnerKey → Text → ArgumentsKey
argument_key ns key arg = record { ns_key = ns; inner_key = key; argument = path_of arg }

-- `Rules` of the container: what is left of the old ones, and the new ones over them.
unfoldable pub merge_section : RuleSection → RuleSection → RuleSection
merge_section new old = record {
  rules = put_all new.rules (prune new.rules old.rules);
  posture = new.posture;
}

unfoldable pub sync_rules : RuleList → RuleList → ArgLists → RuleList
sync_rules new old lists = record {
  process = merge_section new.process old.process;
  file = merge_section new.file old.file;
  network = merge_section new.network old.network;
  capabilities = merge_section new.capabilities old.capabilities;
  arguments = lists;
}

module _ (k : Kernel) where
  open k use {inner, args}

  -- ... and of the kernel map.
  unfoldable pub unmap : Rules → Rules → inner.Map → inner.Map
  unmap new [] m = m
  unmap new ((key, v) ∷ old) m =
      let rest = unmap new old m in if has key new then rest else inner.delete key rest

  -- The kernel entries of the arguments that a list allows.
  unfoldable pub delete_args : NsKey → InnerKey → List Text → args.Map → args.Map
  delete_args ns key [] m = m
  delete_args ns key (a ∷ more) m = delete_args ns key more (args.delete (argument_key ns key a) m)

  -- `if len(argListMap) > 0 { … }`: a missing list has no arguments.
  unfoldable pub drop_args : NsKey → InnerKey → ArgLists × args.Map → ArgLists × args.Map
  drop_args ns key (lists, m) =
      let at : ArgListKey = record { ns_key = ns; inner_key = key } in
      if is_empty lists
      then (lists, m)
      else (delete at lists, delete_args ns key (get_or (get at lists) []) m)

  -- The arguments' part of `resolveConflictsProcessRules`.
  unfoldable pub unmap_args : NsKey → Rules → Rules → ArgLists × args.Map → ArgLists × args.Map
  unmap_args ns new [] s = s
  unmap_args ns new ((key, v) ∷ old) s =
      let rest = unmap_args ns new old s in if has key new then rest else drop_args ns key rest

  unfoldable pub write_all : Rules → inner.Map → inner.Map
  write_all [] m = m
  write_all ((key, v) ∷ new) m = put_or_log inner key v (write_all new m)

  unfoldable pub write_list : NsKey → InnerKey → List Text → args.Map → args.Map
  write_list ns key [] m = m
  write_list ns key (a ∷ more) m =
      write_list ns key more (put_or_log args (argument_key ns key a) 1 m)

  -- `for key, val := range newrules.ArgumentsList { for _, arg := range val { … } }`
  unfoldable pub write_args : ArgLists → args.Map → args.Map
  write_args [] m = m
  write_args ((at, allowed) ∷ new) m = write_list at.ns_key at.inner_key allowed (write_args new m)

  -- The whitelist key of a section: the posture if some rule allows, else nothing.
  unfoldable pub write_posture : InnerKey → Text → Bool → inner.Map → inner.Map
  write_posture key action posture m =
      if posture
      then put_or_log inner key
          (record no_masks {
            at_process = if action == codes "block" then block_posture else audit_posture;
          })
          m
      else inner.delete key m

  -- The posture of a section, and then its rules.
  unfoldable pub write_section : InnerKey → Text → RuleSection → inner.Map → inner.Map
  write_section key action new m = write_all new.rules (write_posture key action new.posture m)

  unfoldable pub sync_inner : DefaultPosture → RuleList → RuleList → inner.Map → inner.Map
  sync_inner p new old m =
      let m₁ = unmap new.process.rules old.process.rules m in
      let m₂ = unmap new.file.rules old.file.rules m₁ in
      let m₃ = unmap new.network.rules old.network.rules m₂ in
      let m₄ = unmap new.capabilities.rules old.capabilities.rules m₃ in
      let m₅ = write_section proc_whitelist p.file_action new.process m₄ in
      let m₆ = write_section file_whitelist p.file_action new.file m₅ in
      let m₇ = write_section net_whitelist p.network_action new.network m₆ in
      write_section cap_whitelist p.capabilities_action new.capabilities m₇

  unfoldable pub sync_args : NsKey → RuleList → RuleList → args.Map → ArgLists × args.Map
  sync_args ns new old m =
      let (lists, m₁) = unmap_args ns new.process.rules old.process.rules (old.arguments, m) in
      (put_all new.arguments lists, write_args new.arguments m₁)
