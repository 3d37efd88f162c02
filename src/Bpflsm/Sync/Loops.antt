-- ===== src/Bpflsm/Sync/Loops.antt =====
-- The loops of an update, seen through `get` and `lookup`: the order of the entries does not matter.
use kube_armor.Base.{
  ◌≡◌, refl, Bool, true, false, ◌&&◌, not, [], ◌∷◌, Option, none, some, arith, if◌then◌else◌,
  or_else,
}
use kube_armor.Base.Comparable.{Comparable, ◌==◌, text_eq}
use kube_armor.Base.GoMap.{GoMap, get, has, get-put}
use kube_armor.Base.Text.{Text, codes}
use kube_armor.Bpflsm.Kernel.{HasRoom, Kernel, lookup-put_or_log}
use kube_armor.Bpflsm.Keys.{
  InnerKey, Masks, Rules, audit_posture, block_posture, inner_beq_iff, inner_eq, no_masks,
}
use kube_armor.Bpflsm.RuleList.{RuleSection}
use kube_armor.Bpflsm.Sync.{
  merge_section, prune, put_all, unmap, write_all, write_posture, write_section,
}

pub get-put_all {ℓ} :
    {K V : Type ℓ} ⦃c : Comparable K⦄ (j : K) (new m : GoMap K V)
    → get j (put_all new m) ≡ or_else (get j new) (get j m)
unfolding get put_all
get-put_all j [] m = refl
get-put_all j ((k, v) ∷ new) m = rw get-put (ground (arith, get-put_all j new m))

pub get-prune :
    (j : InnerKey) (new old : Rules)
    → get j (prune new old) ≡ (if has j new then get j old else none)
unfolding get prune
get-prune j new [] = ground arith
get-prune j new ((k, v) ∷ old) = ground (arith, inner_beq_iff k j, get-prune j new old)

-- The container's rules of a section are those of the fresh rule set.
pub get-merge_section :
    (j : InnerKey) (new old : RuleSection) → get j (merge_section new old).rules ≡ get j new.rules
unfolding merge_section
get-merge_section j new old = rw (get-put_all, get-prune) (ground arith)

-- The entry of the whitelist key.
unfoldable pub posture_entry : Text → Bool → Option Masks
posture_entry action posture =
    if posture
    then some (record no_masks {
      at_process = if action == codes "block" then block_posture else audit_posture;
    })
    else none

module _ (k : Kernel) where
  open k use {inner}

  pub lookup-unmap :
      (j : InnerKey) (new old : Rules) (m : inner.Map)
      → inner.lookup j (unmap k new old m)
        ≡ (if has j old && not (has j new) then none else inner.lookup j m)
  unfolding get unmap
  lookup-unmap j new [] m = refl
  lookup-unmap j new ((key, v) ∷ old) m = ground (
    arith,
    inner_beq_iff key j,
    inner.lookup-delete key j (unmap k new old m),
    lookup-unmap j new old m,
  )

  module _ (room : HasRoom inner) where
    pub lookup-write_all :
        (j : InnerKey) (new : Rules) (m : inner.Map)
        → inner.lookup j (write_all k new m) ≡ or_else (get j new) (inner.lookup j m)
    unfolding get write_all
    lookup-write_all j [] m = refl
    lookup-write_all j ((key, v) ∷ new) m =
        rw (lookup-put_or_log inner room) (ground (arith, lookup-write_all j new m))

    lookup-write_posture :
        (j key : InnerKey) (action : Text) (posture : Bool) (m : inner.Map)
        → inner.lookup j (write_posture k key action posture m)
          ≡ (if key == j then posture_entry action posture else inner.lookup j m)
    unfolding write_posture posture_entry
    lookup-write_posture j key action true m = lookup-put_or_log inner room key j _ m
    lookup-write_posture j key action false m = inner.lookup-delete key j m

    -- The rules of a section hide its posture, and both hide what was there.
    pub lookup-write_section :
        (j key : InnerKey) (action : Text) (new : RuleSection) (m : inner.Map)
        → inner.lookup j (write_section k key action new m)
          ≡ or_else
              (get j new.rules)
              (if key == j then posture_entry action new.posture else inner.lookup j m)
    unfolding write_section
    lookup-write_section j key action new m = rw (lookup-write_all, lookup-write_posture)
