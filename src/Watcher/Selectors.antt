-- ===== src/Watcher/Selectors.antt =====
-- common.go, the matching of identities, and kubeUpdate.go, `updateNamespaceListforCSP`. Compiling a
-- POSIX pattern, which gives how it matches, and the namespaces of the cluster are arguments.
pub mod Decides
use kube_armor.Base.{
  Bool, List, Option, false, if◌then◌else◌, is_empty, none, not, some, true, ◌&&◌, ◌||◌, ◌++◌, ◌∷◌,
  [],
}
use kube_armor.Base.Comparable.{Comparable, text_eq, ◌==◌}
use kube_armor.Base.Text.{Text, codes, contains}
use kube_armor.Policy.{MatchExpressionType, SelectorType}

unfoldable pub contains_element : List Text → Text → Bool
contains_element [] element = false
contains_element (item ∷ slice) element = item == element || contains_element slice element

-- `MatchExpIdentities`: the loop over the identities.
unfoldable pub some_met : List Text → List Text → Bool
some_met [] super = false
some_met (identity ∷ identities) super =
    contains_element super identity || some_met identities super

-- The loop over the identities that must not be met. The last of them sets the result.
unfoldable pub none_met : List Text → List Text → Bool → Bool
none_met [] super matched = matched
none_met (identity ∷ identities) super matched =
    if contains_element super identity
    then false
    else none_met identities super (is_empty identities || matched)

unfoldable pub match_exp_identities : SelectorType → List Text → Bool
match_exp_identities selector super =
    if is_empty selector.match_exp_identities && is_empty selector.non_identities
    then true
    else none_met selector.non_identities super (some_met selector.match_exp_identities super)

module _ (compile_posix : Text → Option (Text → Bool)) where
  unfoldable pub matches_regex : Text → Text → List Text → Bool
  matches_regex key element [] = true
  matches_regex key element (item ∷ array) =
      if contains item key
      then elim (compile_posix element) [ none ↦ false | some match_string ↦ match_string item ]
      else matches_regex key element array

  unfoldable pub identity_met : Text → List Text → Bool
  identity_met identity super =
      if contains identity (codes "kubearmor.io/container.name")
      then matches_regex (codes "kubearmor.io/container.name") identity super
      else if contains identity (codes "kubearmor.io/hostname")
      then matches_regex (codes "kubearmor.io/hostname") identity super
      else contains_element super identity

  unfoldable pub all_met : List Text → List Text → Bool
  all_met [] super = true
  all_met (identity ∷ identities) super =
      if identity_met identity super then all_met identities super else false

  unfoldable pub match_identities : List Text → List Text → Bool
  match_identities identities super =
      if is_empty identities then false else all_met identities super

-- The variables of the loop over the expressions of `updateNamespaceListforCSP`.
pub record Namespaces : Type 0 where
  pub listed : List Text
  pub has_in : Bool
  pub excluded : List Text

-- Values that are not in the list yet are appended.
unfoldable pub append_new : List Text → List Text → List Text
append_new [] listed = listed
append_new (value ∷ values) listed =
    append_new values (if contains_element listed value then listed else listed ++ (value ∷ []))

unfoldable pub read_expression : MatchExpressionType → Namespaces → Namespaces
read_expression e n =
    if not (e.key == codes "namespace")
    then n
    else if e.operator == codes "In"
    then record n { has_in = true; listed = append_new e.values n.listed }
    else if e.operator == codes "NotIn" && not n.has_in
    then record n { excluded = n.excluded ++ e.values }
    else n

unfoldable pub read_expressions : List MatchExpressionType → Namespaces → Namespaces
read_expressions [] n = n
read_expressions (e ∷ es) n = read_expressions es (read_expression e n)

-- The namespaces of the cluster that are not excluded are appended.
unfoldable pub append_included : List Text → List Text → List Text → List Text
append_included [] excluded listed = listed
append_included (name ∷ names) excluded listed = append_included names excluded (
    if not (contains_element excluded name) && not (contains_element listed name)
    then listed ++ (name ∷ [])
    else listed)

-- The namespaces of the cluster are none if they cannot be fetched.
unfoldable pub update_namespace_list : Option (List Text) → SelectorType → SelectorType
update_namespace_list cluster s =
    if not (is_empty s.identities)
    then s
    else let n =
        read_expressions s.match_expressions
          (record { listed = s.namespace_list; has_in = false; excluded = [] }) in
      if n.has_in then record s { namespace_list = n.listed } else elim cluster [
        | none ↦ record s { namespace_list = n.listed }
        | some names ↦ record s { namespace_list = append_included names n.excluded n.listed }
      ]
