-- ===== src/Feeder/Names.antt =====
-- policyMatcher.go: the names of protocols, capabilities and actions.
pub mod Protocols
use kube_armor.Base.{Bool, false, if◌then◌else◌, true, ◌&&◌, ◌||◌, ◌++◌, ℕ, [], ◌∷◌}
use kube_armor.Base.Comparable.{nat_eq, text_eq, ◌==◌}
use kube_armor.Base.Text.{Text, codes, contains, to_lower}
use kube_armor.Feeder.State.{audited}
use kube_armor.Policy.{allow, block}

unfoldable pub get_protocol_from_name : Text → Text
get_protocol_from_name proto =
    if to_lower proto == codes "tcp"
    then codes "protocol=TCP,type=SOCK_STREAM"
    else if to_lower proto == codes "udp"
    then codes "protocol=UDP,type=SOCK_DGRAM"
    else if to_lower proto == codes "icmp"
    then codes "protocol=ICMP,type=SOCK_RAW"
    else if to_lower proto == codes "icmpv6"
    then codes "protocol=ICMPv6,type=SOCK_RAW"
    else if to_lower proto == codes "sctp"
    then codes "protocol=SCTP,type=SOCK_STREAM|SOCK_SEQPACKET"
    else proto

unfoldable pub fetch_protocol : Text → Text
fetch_protocol resource =
    if contains resource (codes "protocol=TCP")
      || (contains resource (codes "SOCK_STREAM") && contains resource (codes "protocol=HOPOPT"))
    then codes "tcp"
    else if contains resource (codes "protocol=UDP")
        || (contains resource (codes "SOCK_DGRAM") && contains resource (codes "protocol=HOPOPT"))
    then codes "udp"
    else if contains resource (codes "protocol=ICMP")
    then codes "icmp"
    else if contains resource (codes "SOCK_RAW")
    then codes "raw"
    else if contains resource (codes "protocol=ICMPv6")
    then codes "icmpv6"
    else if contains resource (codes "protocol=SCTP")
    then codes "sctp"
    else if contains resource (codes "SOCK_STREAM")
    then codes "stream"
    else if contains resource (codes "SOCK_DGRAM")
    then codes "dgram"
    else if contains resource (codes "SOCK_RDM")
    then codes "rdm"
    else if contains resource (codes "SOCK_SEQPACKET")
    then codes "seqpacket"
    else if contains resource (codes "SOCK_DCCP")
    then codes "dccp"
    else if contains resource (codes "SOCK_PACKET")
    then codes "packet"
    else resource

-- The operation and the capability.
unfoldable pub get_operation_and_capability_from_name : Text → Text × Text
get_operation_and_capability_from_name name =
    if to_lower name == codes "net_raw"
    then (codes "Network", codes "raw")
    else ([], codes "unknown")

-- The action of a match, which says so where the end point only audits.
unfoldable pub match_action : ℕ → Text → Text
match_action policy_enabled action =
    if policy_enabled == audited && action == allow
    then codes "Audit (" ++ (action ++ codes ")")
    else if policy_enabled == audited && action == block
    then codes "Audit (" ++ (action ++ codes ")")
    else action
