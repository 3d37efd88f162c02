-- ===== src/Bpflsm/RuleList/Network.antt =====
-- rulesHelper.go, `handleAllNetworkRule`, and the loop over `Spec.Network.MatchProtocols`.
use kube_armor.Base.{
  Bool, true, false, if◌then◌else◌, is_empty, List, [], ◌∷◌, ◌++◌, ℕ, none, some, map, ◌&&◌, not,
}
use kube_armor.Base.Comparable.{◌==◌, text_eq}
use kube_armor.Base.GoMap.{GoMap, get, has, put}
use kube_armor.Base.Text.{Text, codes, to_upper}
use kube_armor.Bpflsm.Keys.{Masks, no_masks, path_of, process_index, zero_path}
use kube_armor.Bpflsm.RuleList.{RuleSection, enforced, put_rule}
use kube_armor.Policy.{MatchSourceType, NetworkProtocolType, allow, block}

unfoldable pub protocols : GoMap Text ℕ
protocols =
    (codes "ICMP", 1)
    ∷ (codes "TCP", 6)
    ∷ (codes "UDP", 17)
    ∷ (codes "ICMPv6", 58)
    ∷ (codes "SCTP", 132)
    ∷ []

unfoldable pub net_type : GoMap Text ℕ
net_type =
    (codes "STREAM", 1)
    ∷ (codes "DGRAM", 2)
    ∷ (codes "RAW", 3)
    ∷ (codes "RDM", 4)
    ∷ (codes "SEQPACKET", 5)
    ∷ (codes "DCCP", 6)
    ∷ (codes "PACKET", 10)
    ∷ []

-- The local variables of `handleAllNetworkRule`.
pub record AllRules : Type 0 where
  pub all_protocols : List NetworkProtocolType
  pub allow_done : Bool
  pub block_done : Bool
  pub sources_allow : GoMap Text Text
  pub sources_block : GoMap Text Text

-- A rule for each socket type, with the action and the sources given and all else zero.
unfoldable pub all_types : Text → List MatchSourceType → List NetworkProtocolType
unfolding net_type
all_types action sources =
    map
      (λ e. record {
        protocol = e.0;
        from_source = sources;
        severity = 0;
        tags = [];
        message = [];
        action = action;
      })
      net_type

unfoldable pub note_source : Text → MatchSourceType → AllRules → AllRules
note_source action src a =
    let sa =
      if not (has src.path a.sources_allow) && action == allow
      then put src.path action a.sources_allow
      else a.sources_allow in
    let sb =
      if not (has src.path a.sources_block) && action == block
      then put src.path action a.sources_block
      else a.sources_block in
    record a { sources_allow = sa; sources_block = sb }

unfoldable pub note_sources : Text → List MatchSourceType → AllRules → AllRules
note_sources action [] a = a
note_sources action (src ∷ rest) a = note_sources action rest (note_source action src a)

unfoldable pub note_all_rule : NetworkProtocolType → AllRules → AllRules
note_all_rule net a =
    if to_upper net.protocol == codes "ALL"
    then if is_empty net.from_source
      then if net.action == allow && not a.allow_done
        then record a {
          all_protocols = a.all_protocols ++ all_types net.action [];
          allow_done = true;
        }
        else if net.action == block && not a.block_done
        then record a {
          all_protocols = a.all_protocols ++ all_types net.action [];
          block_done = true;
        }
        else a
      else note_sources net.action net.from_source a
    else a

unfoldable pub note_all_rules : List NetworkProtocolType → AllRules → AllRules
note_all_rules [] a = a
note_all_rules (net ∷ rest) a = note_all_rules rest (note_all_rule net a)

-- `if len(sources) > 0 { … }`
unfoldable pub sourced_types : Text → GoMap Text Text → List NetworkProtocolType
sourced_types action [] = []
sourced_types action (e ∷ m) = all_types action (map (λ s. record { path = s.0 }) (e ∷ m))

abbrev pub nothing_noted : AllRules
nothing_noted = record {
  all_protocols = [];
  allow_done = false;
  block_done = false;
  sources_allow = [];
  sources_block = [];
}

unfoldable pub handle_all_network_rule : List NetworkProtocolType → List NetworkProtocolType
handle_all_network_rule nets =
    let a : AllRules = note_all_rules nets nothing_noted in
    nets
    ++ (a.all_protocols
        ++ (sourced_types allow a.sources_allow ++ sourced_types block a.sources_block))

-- `key.Path[0]` and `key.Path[1]`: PROTOCOL is 3 and TYPE is 2. An unknown name leaves zeros.
unfoldable pub network_path : Text → Text
network_path protocol = elim (get (to_upper protocol) protocols) [
  | some c ↦ path_of (3 ∷ c ∷ [])
  | none ↦ elim (get (to_upper protocol) net_type) [
    | some c ↦ path_of (2 ∷ c ∷ [])
    | none ↦ zero_path
  ]
]

-- A rule with no flags but DENY, under a path with each source.
unfoldable pub plain_sources :
    Text → Text → List MatchSourceType → Masks → RuleSection → RuleSection
plain_sources path action [] val s = s
plain_sources path action (src ∷ rest) val s =
    let val' : Masks = enforced process_index action val in
    plain_sources path action rest val'
      (put_rule action (record { path = path; source = path_of src.path }) val' s)

unfoldable pub add_plain : Text → Text → List MatchSourceType → RuleSection → RuleSection
add_plain path action [] s =
    put_rule action (record { path = path; source = zero_path })
      (enforced process_index action no_masks) s
add_plain path action (src ∷ rest) s = plain_sources path action (src ∷ rest) no_masks s

unfoldable pub add_network : NetworkProtocolType → RuleSection → RuleSection
add_network net s = add_plain (network_path net.protocol) net.action net.from_source s
