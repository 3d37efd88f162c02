-- ===== src/Watcher/Create.antt =====
-- kubeUpdate.go, `CreateSecurityPolicy`: a policy from the object that Kubernetes has, with
-- `ObjCommaExpandFirstDupOthers` of common.go. The namespaces of the cluster are an argument, none if
-- they cannot be fetched. Cloning a specification does not fail.
pub mod Fill
pub mod Labels
pub mod Acted
pub mod Namespaced
use kube_armor.Base.{
  Bool, List, Option, false, if◌then◌else◌, is_empty, none, not, some, true, ◌&&◌, ◌||◌, ◌++◌, ◌∷◌,
  [],
}
use kube_armor.Base.Comparable.{text_eq, ◌==◌}
use kube_armor.Base.GoMap.{GoMap}
use kube_armor.Base.Text.{Text, codes}
use kube_armor.Policy.{
  CapabilitiesCapabilityType, FileType, MatchExpressionType, NetworkProtocolType, ProcessType,
  SecurityPolicy, SecuritySpec, SelectorType, SyscallsType, no_selector,
}
use kube_armor.Watcher.Create.Fill.{
  Defaults, fill_capability, fill_file, fill_network, fill_process, fill_syscalls,
}
use kube_armor.Watcher.Create.Labels.{expand, label_identities, read_labels, sort}
use kube_armor.Watcher.Points.{PolicyType, kube_armor_cluster_policy, kube_armor_policy}
use kube_armor.Watcher.Selectors.{Namespaces, contains_element}

-- The specification of a policy object: labels, expressions, and the rules of each group with
-- the defaults of the group.
pub record CrdSpec : Type 0 where
  pub match_labels : GoMap Text Text
  pub match_expressions : List MatchExpressionType
  pub process : ProcessType
  pub process_defaults : Defaults
  pub file : FileType
  pub file_defaults : Defaults
  pub network : List NetworkProtocolType
  pub network_defaults : Defaults
  pub capabilities : List CapabilitiesCapabilityType
  pub capabilities_defaults : Defaults
  pub syscalls : SyscallsType
  pub syscalls_defaults : Defaults
  pub app_armor : Text
  pub defaults : Defaults

unfoldable pub spec_action : Text → Text
spec_action action =
    if action == codes "allow"
    then codes "Allow"
    else if action == codes "audit"
    then codes "Audit"
    else if action == codes "block"
    then codes "Block"
    else if is_empty action
    then codes "Block"
    else action

-- The labels of the expressions: those to meet, those not to meet, and whether one was met.
pub record Labelled : Type 0 where
  pub met : List Text
  pub unmet : List Text
  pub has_in : Bool

unfoldable pub read_label : MatchExpressionType → Labelled → Labelled
read_label e l =
    if not (e.key == codes "label")
    then l
    else if e.operator == codes "In"
    then record l { met = l.met ++ e.values; has_in = l.has_in || not (is_empty e.values) }
    else if e.operator == codes "NotIn" && not l.has_in
    then record l { unmet = l.unmet ++ e.values }
    else l

unfoldable pub read_label_expressions : List MatchExpressionType → Labelled → Labelled
read_label_expressions [] l = l
read_label_expressions (e ∷ es) l = read_label_expressions es (read_label e l)

abbrev pub no_labels : Labelled
no_labels = record { met = []; unmet = []; has_in = false }

-- The namespaces that the expressions of a policy of the cluster name.
unfoldable pub read_namespaces : List MatchExpressionType → Namespaces → Namespaces
read_namespaces [] n = n
read_namespaces (e ∷ es) n = read_namespaces es (
    if not (e.key == codes "namespace")
    then n
    else if e.operator == codes "In"
    then record n { has_in = true; listed = n.listed ++ e.values }
    else if e.operator == codes "NotIn" && not n.has_in
    then record n { excluded = n.excluded ++ e.values }
    else n)

unfoldable pub not_excluded : List Text → List Text → List Text
not_excluded excluded [] = []
not_excluded excluded (name ∷ names) =
    let rest = not_excluded excluded names in
    if contains_element excluded name then rest else name ∷ rest

unfoldable pub create_selector :
    PolicyType → Text → Option (List Text) → CrdSpec → Option SelectorType
create_selector kube_armor_policy namespace cluster crd =
    let l = read_label_expressions crd.match_expressions no_labels in
    some (record {
      match_expressions = crd.match_expressions;
      containers = read_labels crd.match_labels;
      identities = sort ((codes "namespaceName=" ++ namespace) ∷ label_identities crd.match_labels);
      match_exp_identities = sort l.met;
      non_identities = sort l.unmet;
      namespace_list = [];
    })
create_selector kube_armor_cluster_policy namespace cluster crd =
    let l = read_label_expressions crd.match_expressions no_labels in
    let n =
      read_namespaces crd.match_expressions
        (record { listed = []; has_in = false; excluded = [] }) in
    let selector : List Text → SelectorType = λ names. record no_selector {
      match_expressions = crd.match_expressions;
      match_exp_identities = sort l.met;
      non_identities = sort l.unmet;
      namespace_list = names;
    } in
    if n.has_in then some (selector n.listed) else elim cluster [
      | none ↦ none
      | some names ↦ some (selector (n.listed ++ not_excluded n.excluded names))
    ]

-- The rules of a policy, for the top-level defaults: the lists of protocols and capabilities are
-- expanded, and the defaults filled in.
unfoldable pub create_rules : Defaults → SelectorType → CrdSpec → SecuritySpec
create_rules top selector crd = record {
  selector = selector;
  process = fill_process crd.process_defaults top crd.process;
  file = fill_file crd.file_defaults top crd.file;
  network = fill_network crd.network_defaults top (
      expand (λ (r : NetworkProtocolType). r.protocol)
        (λ t (r : NetworkProtocolType). record r { protocol = t }) crd.network);
  capabilities = fill_capability crd.capabilities_defaults top (
      expand (λ (r : CapabilitiesCapabilityType). r.capability)
        (λ t (r : CapabilitiesCapabilityType). record r { capability = t }) crd.capabilities);
  syscalls = fill_syscalls crd.syscalls_defaults top crd.syscalls;
  app_armor = crd.app_armor;
}

unfoldable pub create_security_policy :
    PolicyType → Text → Text → Option (List Text) → CrdSpec → Option SecurityPolicy
create_security_policy type namespace name cluster crd =
    let top : Defaults = record crd.defaults { action = spec_action crd.defaults.action } in
    elim (create_selector type namespace cluster crd) [
      | none ↦ none
      | some selector ↦ some (record {
        metadata = (codes "namespaceName", namespace) ∷ (codes "policyName", name) ∷ [];
        spec = create_rules top selector crd;
      })
    ]
