-- ===== src/Bpflsm/Tests.antt =====
-- The theorems of the enforcer at concrete inputs, and runs of it.
use mathlib.Core.Option
use kube_armor.Base.{ℕ, true, false, ◌≡◌, refl, [], ◌∷◌, none, some, arith}
use kube_armor.Base.Comparable.{text_eq}
use kube_armor.Base.GoMap.{get}
use kube_armor.Base.Text.{codes}
use kube_armor.Bpflsm.Enforcer.{BpfEnforcer, update_container_rules, delete_container_id_from_map}
use kube_armor.Bpflsm.Enforcer.Lifecycle.{
  AreOf, Detached, delete_container_id_from_map-Detached, update_container_rules-Detached,
  update_container_rules_panics,
}
use kube_armor.Bpflsm.Enforcer.Entries.{kernel_entry}
use kube_armor.Bpflsm.Fresh.{fresh_rules}
use kube_armor.Bpflsm.Kernel.{list_kernel, list_map-HasRoom}
use kube_armor.Bpflsm.Keys.{
  ArgumentsKey, InnerKey, Masks, argument_eq, inner_eq, path_of, proc_whitelist, zero_path,
}
use kube_armor.Bpflsm.Samples.{
  blocking, mapped, mapped_web, program, registered, shell_policy, web, web_key,
}
use kube_armor.Bpflsm.Keys.{no_masks}
use kube_armor.Bpflsm.RuleList.{RuleList, init_rules}
use kube_armor.Bpflsm.Sync.{sync_args, sync_inner, sync_rules}
use kube_armor.Bpflsm.Sync.Arguments.{sync_args_stale}
use kube_armor.Bpflsm.Sync.Loops.{posture_entry}
use kube_armor.Bpflsm.Sync.Refines.{
  Covered, claims, lookup-sync_inner, prescribed, section_entry, sync_inner-Covered,
}

-- After the update the kernel finds the rule of the shell and the posture of the whitelist.
run_update :
    Option.map
      (λ be. kernel_entry list_kernel be web_key proc_whitelist)
      (update_container_rules list_kernel []
        (some 7)
        (codes "web")
        (shell_policy ∷ [])
        blocking
        registered)
    ≡ some (some (record { at_process = 141; at_file = 0 }))
unfolding program
run_update = refl

-- The container's map holds a rule of before, which the fresh rule set lacks.
abbrev old_key : InnerKey
old_key = record { path = path_of (codes "/old"); source = zero_path }

abbrev old_rules : RuleList
old_rules = record init_rules {
  process = record { rules = (old_key, no_masks) ∷ []; posture = false };
}

old_rules-Covered : Covered list_kernel old_rules ((old_key, no_masks) ∷ [])
unfolding claims get
old_rules-Covered j h = ground arith

fresh : RuleList
fresh = fresh_rules [] web_key (shell_policy ∷ [])

lookup-sync_inner_example :
    get old_key (sync_inner list_kernel blocking fresh old_rules ((old_key, no_masks) ∷ []))
    ≡ prescribed blocking fresh old_key
lookup-sync_inner_example =
    lookup-sync_inner list_kernel (list_map-HasRoom InnerKey Masks inner_eq) blocking fresh
      old_rules ((old_key, no_masks) ∷ []) old_rules-Covered old_key

sync_inner-Covered_example :
    Covered list_kernel
      (sync_rules fresh old_rules [])
      (sync_inner list_kernel blocking fresh old_rules ((old_key, no_masks) ∷ []))
sync_inner-Covered_example =
    sync_inner-Covered list_kernel (list_map-HasRoom InnerKey Masks inner_eq) blocking fresh
      old_rules ((old_key, no_masks) ∷ []) old_rules-Covered []

-- Nothing is prescribed for the old rule, so it is gone.
old_rule_gone : prescribed blocking fresh old_key ≡ none
unfolding program prescribed section_entry posture_entry fresh
old_rule_gone = refl

delete_container_id_from_map-Detached_example :
    (get (codes "web") (delete_container_id_from_map list_kernel (codes "web") mapped).container_map
      ≡ none)
    × Detached list_kernel
        (codes "web")
        mapped_web
        mapped
        (delete_container_id_from_map list_kernel (codes "web") mapped)
unfolding program AreOf
delete_container_id_from_map-Detached_example =
    delete_container_id_from_map-Detached list_kernel (codes "web") mapped mapped_web refl
      (refl, λ j h. refl) tt

update_container_rules-Detached_example :
    (be' : BpfEnforcer list_kernel) × (update_container_rules list_kernel [] none
        (codes "web")
        []
        blocking
        mapped
      ≡ some be')
    × Detached list_kernel (codes "web") mapped_web mapped be'
unfolding program AreOf
update_container_rules-Detached_example =
    update_container_rules-Detached list_kernel [] none (codes "web") [] blocking mapped mapped_web
      refl (refl, λ j h. refl) tt refl

update_container_rules_panics_example :
    update_container_rules list_kernel [] none (codes "web") (shell_policy ∷ []) blocking registered
    ≡ none
unfolding program
update_container_rules_panics_example =
    update_container_rules_panics list_kernel [] (codes "web") (shell_policy ∷ []) blocking
      registered web refl refl refl

-- The one argument of the shell.
abbrev login_key : ArgumentsKey
login_key = record {
  ns_key = web_key;
  inner_key = record { path = path_of (codes "/bin/bash"); source = zero_path };
  argument = path_of (codes "-l");
}

-- The rule is still there but allows no argument any more.
abbrev strict : RuleList
strict = record init_rules {
  process = record { rules = (login_key.inner_key, no_masks) ∷ []; posture = true };
}

sync_args_stale_example :
    get login_key (sync_args list_kernel web_key strict fresh ((login_key, 1) ∷ [])).1 ≡ some 1
unfolding program
sync_args_stale_example =
    sync_args_stale list_kernel (list_map-HasRoom ArgumentsKey ℕ argument_eq) web_key strict fresh
      ((login_key, 1) ∷ []) login_key refl refl
