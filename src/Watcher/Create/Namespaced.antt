-- ===== src/Watcher/Create/Namespaced.antt =====
-- kubeUpdate.go, `CreateSecurityPolicy`, with `MatchIdentities` of common.go: a policy of a namespace
-- selects end points of its namespace alone.
use mathlib.Core.Option.{some-injective}
use kube_armor.Base.{
  Bool, Bool-cases, List, Option, inl, inr, not, some, true, ◌&&◌, ◌||◌, ◌++◌, ◌≡◌, ◌∷◌, [], ap,
  arith, refl, sym, ◌∙◌,
}
use kube_armor.Base.Comparable.{equal_refl, text_beq_iff, text_eq, ◌==◌}
use kube_armor.Base.Text.{Text, codes, contains}
use kube_armor.Feeder.State.{EndPoint}
use kube_armor.Policy.{SecurityPolicy}
use kube_armor.Watcher.Create.{CrdSpec, create_rules, create_security_policy, create_selector}
use kube_armor.Watcher.Create.Labels.{insert, label_identities, sort}
use kube_armor.Watcher.Points.{kube_armor_policy, selected_by}
use kube_armor.Watcher.Selectors.{all_met, contains_element, identity_met, match_identities}

contains_element-insert :
    (x : Text) (ys : List Text) (z : Text)
    → contains_element (insert x ys) z ≡ x == z || contains_element ys z
unfolding contains_element insert
contains_element-insert x [] z = refl
contains_element-insert x (y ∷ ys) z = ground (arith, contains_element-insert x ys z)

-- A label that does not name a container or a host is looked up as it stands.
unfoldable pub is_plain : Text → Bool
is_plain identity =
    not (contains identity (codes "kubearmor.io/container.name"))
    && not (contains identity (codes "kubearmor.io/hostname"))

module _ (compile_posix : Text → Option (Text → Bool)) where
  identity_met-plain :
      (i : Text) (super : List Text)
      → is_plain i ≡ true
      → identity_met compile_posix i super ≡ contains_element super i
  unfolding identity_met is_plain
  identity_met-plain i super h = ground (arith, h)

  contains_element-all_met :
      (identities super : List Text) (x : Text)
      → is_plain x ≡ true
      → contains_element identities x ≡ true
      → all_met compile_posix identities super ≡ true
      → contains_element super x ≡ true
  unfolding all_met contains_element
  contains_element-all_met [] super x plain h k = cc
  contains_element-all_met (i ∷ is) super x plain h k = elim (Bool-cases (i == x)) [
    | inl same ↦
        let e = (text_beq_iff i x).0 same in
        ground (
          arith,
          k,
          identity_met-plain i super (ap is_plain e ∙ plain),
          ap (contains_element super) e,
        )
    | inr other ↦
        contains_element-all_met is super x plain (ground (arith, h, other)) (ground (arith, k))
  ]

  contains_element-match_identities :
      (identities super : List Text) (x : Text)
      → is_plain x ≡ true
      → contains_element identities x ≡ true
      → match_identities compile_posix identities super ≡ true
      → contains_element super x ≡ true
  unfolding match_identities
  contains_element-match_identities identities super x plain h k =
      contains_element-all_met identities super x plain h (ground (arith, k))

  -- A policy that is created for a namespace selects an end point only if the namespace is among
  -- the end point's identities, if the name of the namespace is not one that is matched as a
  -- pattern.
  pub selected_by-create_security_policy :
      (namespace name : Text) (cluster : Option (List Text)) (crd : CrdSpec) (p : SecurityPolicy)
      (e : EndPoint)
      → is_plain (codes "namespaceName=" ++ namespace) ≡ true
      → create_security_policy kube_armor_policy namespace name cluster crd ≡ some p
      → selected_by compile_posix kube_armor_policy p e ≡ true
      → contains_element e.identities (codes "namespaceName=" ++ namespace) ≡ true
  unfolding create_security_policy create_rules create_selector selected_by match_identities sort
  selected_by-create_security_policy namespace name cluster crd p e plain made chosen =
      let own = codes "namespaceName=" ++ namespace in
      let rest = sort (label_identities crd.match_labels) in
      let there : contains_element (insert own rest) own ≡ true =
        ground (arith, contains_element-insert own rest own, equal_refl own) in
      let same =
        ap (λ (q : SecurityPolicy). q.spec.selector.identities) (some-injective _ _ made) in
      contains_element-match_identities p.spec.selector.identities e.identities own plain
        (ap (λ ids. contains_element ids own) (sym same) ∙ there) (ground (arith, chosen))
