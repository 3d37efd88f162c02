-- ===== src/Bpflsm/Fresh/Fused.antt =====
-- `fuseProcAndFileRules`: what the file rules are afterwards.
use kube_armor.Base.{◌≡◌, [], ◌∷◌, Option, none, some, arith}
use kube_armor.Base.GoMap.{get}
use kube_armor.Bpflsm.Keys.{InnerKey, Masks, Rules, inner_beq_iff, inner_eq}
use kube_armor.Bpflsm.Fresh.{fuse, fuse_masks}

-- What a key of the file rules maps to: its own file mask, and the process mask of the process rule
-- with the same key if there is one. No key is added or lost.
abbrev pub fused_entry : Option Masks → Option Masks → Option Masks
fused_entry procs none = none
fused_entry none (some v) = some v
fused_entry (some p) (some v) = some (record { at_process = p.at_process; at_file = v.at_file })

pub get-fuse :
    (j : InnerKey) (procs files : Rules)
    → get j (fuse procs files) ≡ fused_entry (get j procs) (get j files)
unfolding get fuse fuse_masks
get-fuse j procs [] = ground arith
get-fuse j procs ((k, v) ∷ files) = ground (arith, inner_beq_iff k j, get-fuse j procs files)
