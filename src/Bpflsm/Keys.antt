-- ===== src/Bpflsm/Keys.antt =====
-- mapHelpers.go and the head of rulesHandling.go: the keys of the kernel maps, the rule masks,
-- and the fixed identifiers.
use kube_armor.Base.{ℕ, ◌≡◌, ◌↔◌, Bool, true, ◌&&◌, [], ◌∷◌, arith, copy, replicate}
use kube_armor.Base.Comparable.{Comparable, ◌==◌, text_beq_iff, nat_eq, text_eq}
use kube_armor.Base.GoMap.{GoMap}
use kube_armor.Base.Text.{Text}

-- `[256]byte{}`
unfoldable pub zero_path : Text
zero_path = replicate 256 0

-- `var p [256]byte; copy(p[:], []byte(s))`: cut off at 256 bytes, filled up with zeros.
unfoldable pub path_of : Text → Text
unfolding zero_path
path_of s = copy zero_path s

pub record NsKey : Type 0 where
  pub pid_ns : ℕ
  pub mnt_ns : ℕ

pub record InnerKey : Type 0 where
  pub path : Text
  pub source : Text

pub record ArgumentsKey : Type 0 where
  pub ns_key : NsKey
  pub inner_key : InnerKey
  pub argument : Text

pub record ArgListKey : Type 0 where
  pub ns_key : NsKey
  pub inner_key : InnerKey

unfoldable pub ns_beq : NsKey → NsKey → Bool
ns_beq a b = a.pid_ns == b.pid_ns && a.mnt_ns == b.mnt_ns

pub ns_beq_iff : (a b : NsKey) → (ns_beq a b ≡ true) ↔ (a ≡ b)
unfolding ns_beq
ns_beq_iff a b = ground arith

instance abbrev pub ns_eq : Comparable NsKey
ns_eq = record { equal = ns_beq; equal_iff = ns_beq_iff }

unfoldable pub inner_beq : InnerKey → InnerKey → Bool
inner_beq a b = a.path == b.path && a.source == b.source

pub inner_beq_iff : (a b : InnerKey) → (inner_beq a b ≡ true) ↔ (a ≡ b)
unfolding inner_beq
inner_beq_iff a b = ground (arith, text_beq_iff a.path b.path, text_beq_iff a.source b.source)

instance abbrev pub inner_eq : Comparable InnerKey
inner_eq = record { equal = inner_beq; equal_iff = inner_beq_iff }

unfoldable pub argument_beq : ArgumentsKey → ArgumentsKey → Bool
argument_beq a b = a.ns_key == b.ns_key && a.inner_key == b.inner_key && a.argument == b.argument

pub argument_beq_iff : (a b : ArgumentsKey) → (argument_beq a b ≡ true) ↔ (a ≡ b)
unfolding argument_beq
argument_beq_iff a b = ground (
  arith,
  ns_beq_iff a.ns_key b.ns_key,
  inner_beq_iff a.inner_key b.inner_key,
  text_beq_iff a.argument b.argument,
)

instance abbrev pub argument_eq : Comparable ArgumentsKey
argument_eq = record { equal = argument_beq; equal_iff = argument_beq_iff }

unfoldable pub arg_list_beq : ArgListKey → ArgListKey → Bool
arg_list_beq a b = a.ns_key == b.ns_key && a.inner_key == b.inner_key

pub arg_list_beq_iff : (a b : ArgListKey) → (arg_list_beq a b ≡ true) ↔ (a ≡ b)
unfolding arg_list_beq
arg_list_beq_iff a b =
    ground (arith, ns_beq_iff a.ns_key b.ns_key, inner_beq_iff a.inner_key b.inner_key)

instance abbrev pub arg_list_eq : Comparable ArgListKey
arg_list_eq = record { equal = arg_list_beq; equal_iff = arg_list_beq_iff }

-- `[2]uint16`: the mask at index 0, of process, network and capability rules, and at index 1.
pub record Masks : Type 0 where
  pub at_process : ℕ
  pub at_file : ℕ

pub data Index : Type 0 where
  process_index file_index : Index

abbrev pub mask_at : Index → Masks → ℕ
mask_at process_index v = v.at_process
mask_at file_index v = v.at_file

abbrev pub set_mask_at : Index → ℕ → Masks → Masks
set_mask_at process_index x v = record v { at_process = x }
set_mask_at file_index x v = record v { at_file = x }

abbrev pub no_masks : Masks
no_masks = record { at_process = 0; at_file = 0 }

abbrev pub Rules : Type 0
Rules = GoMap InnerKey Masks

-- The postures that the kernel finds under the whitelist keys.
abbrev pub audit_posture : ℕ
audit_posture = 140

abbrev pub block_posture : ℕ
block_posture = 141

abbrev whitelist_key : ℕ → InnerKey
whitelist_key c = record { path = path_of (c ∷ []); source = zero_path }

unfoldable pub proc_whitelist : InnerKey
unfolding path_of
proc_whitelist = whitelist_key 101

unfoldable pub file_whitelist : InnerKey
unfolding path_of
file_whitelist = whitelist_key 102

unfoldable pub net_whitelist : InnerKey
unfolding path_of
net_whitelist = whitelist_key 103

unfoldable pub cap_whitelist : InnerKey
unfolding path_of
cap_whitelist = whitelist_key 104
