-- ===== src/Bpflsm/Fresh/Plain.antt =====
-- Network and capability rules: when they turn their section into a whitelist. The rules that
-- `handleAllNetworkRule` adds allow only if a rule of the policy does.
use kube_armor.Base.{
  ◌≡◌, ◌∙◌, refl, Bool, true, false, ◌||◌, List, [], ◌∷◌, ◌++◌, any, arith, ℕ, is_empty,
  if◌then◌else◌, Bool-cases, inl, inr,
}
use kube_armor.Base.Comparable.{◌==◌, text_beq, text_eq}
use kube_armor.Base.GoMap.{GoMap}
use kube_armor.Base.Text.{Text}
use kube_armor.Bpflsm.Fresh.Posture.{absorb, put_rule-posture}
use kube_armor.Bpflsm.Keys.{Masks}
use kube_armor.Bpflsm.RuleList.{RuleSection}
use kube_armor.Bpflsm.RuleList.Capability.{add_capability}
use kube_armor.Bpflsm.RuleList.Network.{
  AllRules, add_network, add_plain, all_types, handle_all_network_rule, nothing_noted,
  note_all_rule, note_all_rules, note_source, note_sources, plain_sources, sourced_types,
}
use kube_armor.Policy.{
  CapabilitiesCapabilityType, MatchSourceType, NetworkProtocolType, allow, block,
}

plain_sources-posture :
    (path action : Text) (srcs : List MatchSourceType) (val : Masks) (s : RuleSection)
    → (plain_sources path action srcs val s).posture
      ≡ (if is_empty srcs then s.posture else (action == allow) || s.posture)
unfolding plain_sources
plain_sources-posture path action [] val s = refl
plain_sources-posture path action (src ∷ srcs) val s =
    plain_sources-posture path action srcs _ _
    ∙ rw put_rule-posture (absorb (is_empty srcs) (action == allow) s.posture)

add_plain-posture :
    (path action : Text) (srcs : List MatchSourceType) (s : RuleSection)
    → (add_plain path action srcs s).posture ≡ ((action == allow) || s.posture)
unfolding add_plain
add_plain-posture path action [] s = put_rule-posture _ _ _ _
add_plain-posture path action (src ∷ srcs) s = plain_sources-posture path action (src ∷ srcs) _ s

pub add_capability-posture :
    (codes : GoMap Text ℕ) (c : CapabilitiesCapabilityType) (s : RuleSection)
    → (add_capability codes c s).posture ≡ ((c.action == allow) || s.posture)
unfolding add_capability
add_capability-posture codes c s = add_plain-posture _ _ _ s

pub add_network-posture :
    (net : NetworkProtocolType) (s : RuleSection)
    → (add_network net s).posture ≡ ((net.action == allow) || s.posture)
unfolding add_network
add_network-posture net s = add_plain-posture _ _ _ s

abbrev pub any_allow : List NetworkProtocolType → Bool
any_allow = any (λ net. net.action == allow)

any_allow-append :
    (xs ys : List NetworkProtocolType) → any_allow (xs ++ ys) ≡ (any_allow xs || any_allow ys)
any_allow-append [] ys = refl
any_allow-append (x ∷ xs) ys = rw (any_allow-append xs ys) (ground arith)

any_allow-all_types :
    (action : Text) (srcs : List MatchSourceType)
    → (action == allow) ≡ false
    → any_allow (all_types action srcs) ≡ false
unfolding all_types
any_allow-all_types action srcs h = ground arith

-- Nothing noted so far allows.
record Quiet (a : AllRules) : Type 0 where
  no_types : any_allow a.all_protocols ≡ false
  no_sources : is_empty a.sources_allow ≡ true

note_sources-Quiet :
    (action : Text) (srcs : List MatchSourceType) (a : AllRules)
    → (action == allow) ≡ false
    → Quiet a
    → Quiet (note_sources action srcs a)
unfolding note_sources note_source
note_sources-Quiet action [] a h q = q
note_sources-Quiet action (src ∷ srcs) a h q =
    note_sources-Quiet action srcs (note_source action src a) h (ground arith)

note_all_rule-Quiet :
    (net : NetworkProtocolType) (a : AllRules)
    → (net.action == allow) ≡ false
    → Quiet a
    → Quiet (note_all_rule net a)
unfolding note_all_rule
note_all_rule-Quiet net a h q = ground (
  arith,
  any_allow-append a.all_protocols (all_types net.action []),
  any_allow-all_types net.action [] h,
  note_sources-Quiet net.action net.from_source a h q,
)

note_all_rules-Quiet :
    (nets : List NetworkProtocolType) (a : AllRules)
    → any_allow nets ≡ false
    → Quiet a
    → Quiet (note_all_rules nets a)
unfolding note_all_rules
note_all_rules-Quiet [] a h q = q
note_all_rules-Quiet (net ∷ nets) a h q =
    note_all_rules-Quiet nets (note_all_rule net a) (ground arith)
      (note_all_rule-Quiet net a (ground arith) q)

-- `Allow` and `Block` are two texts.
block-ne-allow : (block == allow) ≡ false
unfolding allow block text_beq
block-ne-allow = refl

any_allow-sourced_types :
    (action : Text) (m : GoMap Text Text)
    → (action == allow) ≡ false
    → any_allow (sourced_types action m) ≡ false
unfolding sourced_types
any_allow-sourced_types action [] h = refl
any_allow-sourced_types action (e ∷ m) h = any_allow-all_types action _ h

sourced_types-nil :
    (action : Text) (m : GoMap Text Text) → is_empty m ≡ true → sourced_types action m ≡ []
unfolding sourced_types
sourced_types-nil action [] h = refl
sourced_types-nil action (e ∷ m) h = cc

-- The rules with `all` written out allow something exactly if the rules of the policy do.
pub any_allow-handle_all_network_rule :
    (nets : List NetworkProtocolType) → any_allow (handle_all_network_rule nets) ≡ any_allow nets
unfolding handle_all_network_rule
any_allow-handle_all_network_rule nets = elim (Bool-cases (any_allow nets)) [
  | inl some_allow ↦ rw (any_allow-append, some_allow) refl
  | inr none_allow ↦
      let q =
        note_all_rules-Quiet nets nothing_noted none_allow
          (record { no_types = refl; no_sources = refl }) in
      rw
        (
          any_allow-append,
          none_allow,
          any_allow-append,
          q.no_types,
          any_allow-append,
          sourced_types-nil allow _ q.no_sources,
          any_allow-sourced_types block _ block-ne-allow,
        )
        refl
]
