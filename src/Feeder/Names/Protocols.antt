-- ===== src/Feeder/Names/Protocols.antt =====
-- policyMatcher.go: the protocols that `fetchProtocol` tells apart.
use kube_armor.Base.{true, ◌++◌, ◌≡◌, arith, [], ◌∷◌, refl}
use kube_armor.Base.Text.{Text, codes, contains, has_prefix}
use kube_armor.Feeder.Names.{fetch_protocol}

has_prefix-shorter : (s p q : Text) → has_prefix s (p ++ q) ≡ true → has_prefix s p ≡ true
unfolding has_prefix
has_prefix-shorter s [] q h = refl
has_prefix-shorter [] (c ∷ p) q h = ground (arith, h)
has_prefix-shorter (d ∷ s) (c ∷ p) q h = ground (arith, h, has_prefix-shorter s p q)

contains-shorter : (s p q : Text) → contains s (p ++ q) ≡ true → contains s p ≡ true
unfolding contains
contains-shorter [] p q h = has_prefix-shorter [] p q h
contains-shorter (c ∷ s) p q h =
    ground (arith, h, has_prefix-shorter (c ∷ s) p q, contains-shorter s p q)

-- A resource is never told to be ICMPv6, unless it is that word itself.
pub fetch_protocol_misses_icmpv6 :
    (resource : Text) → fetch_protocol resource ≡ codes "icmpv6" → resource ≡ codes "icmpv6"
unfolding fetch_protocol
fetch_protocol_misses_icmpv6 resource h =
    ground (arith, h, contains-shorter resource (codes "protocol=ICMP") (codes "v6"))
