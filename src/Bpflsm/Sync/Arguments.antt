-- ===== src/Bpflsm/Sync/Arguments.antt =====
-- The kernel map of allowed arguments, which all containers share.
use kube_armor.Base.{
  Bool, true, false, ◌≡◌, ◌≢◌, refl, ◌∙◌, ap, if◌then◌else◌, ◌||◌, none, some, List, [], ◌∷◌, any,
  arith, Bool-cases, inl, inr,
}
use kube_armor.Base.Comparable.{◌==◌, equal_ne}
use kube_armor.Base.GoMap.{has}
use kube_armor.Base.Text.{Text}
use kube_armor.Bpflsm.Kernel.{HasRoom, Kernel, lookup-put_or_log}
use kube_armor.Bpflsm.Keys.{ArgumentsKey, InnerKey, NsKey, Rules, argument_eq, inner_eq}
use kube_armor.Bpflsm.RuleList.{RuleList}
use kube_armor.Bpflsm.Sync.{
  ArgLists, argument_key, delete_args, drop_args, sync_args, unmap_args, write_args, write_list,
}

-- The list of arguments for `key` yields the kernel key `j`.
unfoldable pub names : NsKey → InnerKey → List Text → ArgumentsKey → Bool
names ns key more j = any (λ a. argument_key ns key a == j) more

-- Some list does.
unfoldable pub allows : ArgLists → ArgumentsKey → Bool
unfolding names
allows [] j = false
allows ((at, allowed) ∷ lists) j = names at.ns_key at.inner_key allowed j || allows lists j

names_other :
    (ns : NsKey) (key : InnerKey) (more : List Text) (j : ArgumentsKey)
    → key ≢ j.inner_key
    → names ns key more j ≡ false
unfolding names argument_key
names_other ns key [] j ne = refl
names_other ns key (a ∷ more) j ne =
    rw (equal_ne (argument_key ns key a) j (λ e. ne (ap (λ x. x.inner_key) e)))
      (names_other ns key more j ne)

module _ (k : Kernel) where
  open k use {args}

  pub lookup-delete_args :
      (ns : NsKey) (key : InnerKey) (more : List Text) (j : ArgumentsKey) (m : args.Map)
      → args.lookup j (delete_args k ns key more m)
        ≡ (if names ns key more j then none else args.lookup j m)
  unfolding delete_args names
  lookup-delete_args ns key [] j m = refl
  lookup-delete_args ns key (a ∷ more) j m =
      lookup-delete_args ns key more j (args.delete (argument_key ns key a) m)
      ∙ ground (arith, args.lookup-delete (argument_key ns key a) j m)

  module _ (room : HasRoom args) where
    lookup-write_list :
        (ns : NsKey) (key : InnerKey) (more : List Text) (j : ArgumentsKey) (m : args.Map)
        → args.lookup j (write_list k ns key more m)
          ≡ (if names ns key more j then some 1 else args.lookup j m)
    unfolding write_list names
    lookup-write_list ns key [] j m = refl
    lookup-write_list ns key (a ∷ more) j m =
        lookup-write_list ns key more j _
        ∙ ground (arith, lookup-put_or_log args room (argument_key ns key a) j 1 m)

    lookup-write_args :
        (lists : ArgLists) (j : ArgumentsKey) (m : args.Map)
        → args.lookup j (write_args k lists m)
          ≡ (if allows lists j then some 1 else args.lookup j m)
    unfolding write_args allows
    lookup-write_args [] j m = refl
    lookup-write_args ((at, allowed) ∷ lists) j m =
        lookup-write_list at.ns_key at.inner_key allowed j _
        ∙ ground (arith, lookup-write_args lists j m)

    -- After an update every argument that the fresh rule set allows is in the kernel map.
    pub lookup-sync_args :
        (ns : NsKey) (new old : RuleList) (m : args.Map) (j : ArgumentsKey)
        → allows new.arguments j ≡ true
        → args.lookup j (sync_args k ns new old m).1 ≡ some 1
    unfolding sync_args
    lookup-sync_args ns new old m j h = lookup-write_args new.arguments j _ ∙ rw h refl

  -- An argument of another rule is not deleted with a rule.
  drop_args_other :
      (ns : NsKey) (key : InnerKey) (s : ArgLists × args.Map) (j : ArgumentsKey)
      → key ≢ j.inner_key
      → args.lookup j (drop_args k ns key s).1 ≡ args.lookup j s.1
  unfolding drop_args
  drop_args_other ns key ([], m) j ne = refl
  drop_args_other ns key (l ∷ lists, m) j ne =
      lookup-delete_args ns key _ j m ∙ rw (names_other ns key _ j ne) refl

  unmap_args_kept :
      (ns : NsKey) (new old : Rules) (s : ArgLists × args.Map) (j : ArgumentsKey)
      → has j.inner_key new ≡ true
      → args.lookup j (unmap_args k ns new old s).1 ≡ args.lookup j s.1
  unfolding unmap_args
  unmap_args_kept ns new [] s j h = refl
  unmap_args_kept ns new ((key, v) ∷ old) s j h = elim (Bool-cases (has key new)) [
    | inl kept ↦ rw kept (unmap_args_kept ns new old s j h)
    | inr dropped ↦ rw dropped (
        drop_args_other ns key (unmap_args k ns new old s) j (λ e. cc)
        ∙ unmap_args_kept ns new old s j h)
  ]

  -- As long as the fresh rule set has the rule of an argument, an update leaves the argument in the
  -- kernel map, also where the rule no longer allows it.
  pub sync_args_stale :
      HasRoom args
      → (ns : NsKey) (new old : RuleList) (m : args.Map) (j : ArgumentsKey)
      → has j.inner_key new.process.rules ≡ true
      → args.lookup j m ≡ some 1
      → args.lookup j (sync_args k ns new old m).1 ≡ some 1
  unfolding sync_args
  sync_args_stale room ns new old m j kept allowed =
      lookup-write_args room new.arguments j _
      ∙ rw
          (
            unmap_args_kept ns new.process.rules old.process.rules (old.arguments, m) j kept,
            allowed,
          )
          (ground arith)
