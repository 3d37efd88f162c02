-- ===== src/Bpflsm/RuleList/Names.antt =====
-- How the names of protocols and capabilities are looked up.
use kube_armor.Base.{
  ℕ, ◌-◌, ◌≡◌, ◌≢◌, refl, false, ◌&&◌, [], ◌∷◌, ◌++◌, some, if◌then◌else◌, arith, leb, nat_beq, map,
  ap,
}
use kube_armor.Base.Comparable.{text_beq, text_eq}
use kube_armor.Base.GoMap.{get}
use kube_armor.Base.Text.{Text, codes, contains, has_prefix, to_upper}
use kube_armor.Bpflsm.RuleList.Capability.{capability_name}
use kube_armor.Bpflsm.RuleList.Network.{protocols}

-- One character of `to_upper`.
abbrev upper : ℕ → ℕ
upper c = if leb b'a' c && leb c b'z' then c - 32 else c

upper_ne_v : (c : ℕ) → nat_beq b'v' (upper c) ≡ false
upper_ne_v c = ground arith

-- No upper-case text is `ICMPv6`.
upper_ne_icmpv6 : (s : Text) → text_beq (codes "ICMPv6") (to_upper s) ≡ false
unfolding text_beq to_upper
upper_ne_icmpv6 [] = refl
upper_ne_icmpv6 (a ∷ []) = ground arith
upper_ne_icmpv6 (a ∷ b ∷ []) = ground arith
upper_ne_icmpv6 (a ∷ b ∷ c ∷ []) = ground arith
upper_ne_icmpv6 (a ∷ b ∷ c ∷ d ∷ []) = ground arith
upper_ne_icmpv6 (a ∷ b ∷ c ∷ d ∷ e ∷ s) = ground (arith, upper_ne_v e)

-- The entry for ICMPv6 is never found: the name that is looked up is in upper case, and the key is
-- not.
pub protocols_miss_icmpv6 : (protocol : Text) → get (to_upper protocol) protocols ≢ some 58
unfolding protocols get
protocols_miss_icmpv6 protocol h = ground (arith, upper_ne_icmpv6 protocol)

-- A text in upper case has no `cap_`.
upper_lacks_cap : (s : Text) → to_upper s ≡ s → contains s (codes "cap_") ≡ false
unfolding to_upper contains has_prefix
upper_lacks_cap [] h = refl
upper_lacks_cap (c ∷ s) h =
    let head : upper c ≡ c = cc in
    let rest : map upper s ≡ s = cc in ground (arith, upper_lacks_cap s rest)

prefix_upper : (c : Text) → to_upper c ≡ c → to_upper (codes "CAP_" ++ c) ≡ codes "CAP_" ++ c
unfolding to_upper
prefix_upper c h = ap (λ t. codes "CAP_" ++ t) h

-- A capability that is written in upper case with its prefix, as `CAP_NET_RAW`, is looked up with
-- the prefix twice.
pub capability_name_prefixed :
    (c : Text) → to_upper c ≡ c → capability_name (codes "CAP_" ++ c) ≡ codes "CAP_CAP_" ++ c
unfolding capability_name
capability_name_prefixed c h =
    rw (upper_lacks_cap (codes "CAP_" ++ c) (prefix_upper c h), prefix_upper c h) refl
