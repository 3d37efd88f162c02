-- ===== src/Watcher/Selectors/Decides.antt =====
-- common.go, `MatchExpIdentities`, and kubeUpdate.go, `updateNamespaceListforCSP`: which identities and
-- namespaces they let through.
use kube_armor.Base.{
  Bool, Bool-cases, List, Option, false, if◌then◌else◌, inl, inr, is_empty, none, not, some, true,
  ◌&&◌, ◌||◌, ◌++◌, ◌≡◌, ◌∷◌, [], arith, refl, ap,
}
use kube_armor.Base.Comparable.{text_beq_iff, text_eq, ◌==◌}
use kube_armor.Base.Text.{Text, codes}
use kube_armor.Policy.{MatchExpressionType, SelectorType}
use kube_armor.Watcher.Selectors.{
  Namespaces, append_included, append_new, contains_element, match_exp_identities, none_met,
  read_expression, read_expressions, some_met, update_namespace_list,
}

-- With identities that must not be met these decide, and else the other identities do.
unfoldable pub selects : SelectorType → List Text → Bool
selects s super =
    if is_empty s.non_identities
    then is_empty s.match_exp_identities || some_met s.match_exp_identities super
    else not (some_met s.non_identities super)

none_met-some_met :
    (n : Text) (ns super : List Text) (matched : Bool)
    → none_met (n ∷ ns) super matched ≡ not (some_met (n ∷ ns) super)
unfolding none_met some_met
none_met-some_met n [] super matched = ground arith
none_met-some_met n (m ∷ ns) super matched =
    ground (arith, none_met-some_met m ns super (is_empty (m ∷ ns) || matched))

selects-lists :
    (ids nons super : List Text)
    → (if is_empty ids && is_empty nons then true else none_met nons super (some_met ids super))
      ≡ (if is_empty nons then is_empty ids || some_met ids super else not (some_met nons super))
unfolding none_met
selects-lists [] [] super = refl
selects-lists (i ∷ ids) [] super = refl
selects-lists [] (n ∷ nons) super = none_met-some_met n nons super (some_met [] super)
selects-lists (i ∷ ids) (n ∷ nons) super = none_met-some_met n nons super (some_met (i ∷ ids) super)

-- MatchExpIdentities lets an end point through exactly if it has none of the identities that must
-- not be met, or, where there are none of these, if there is nothing to meet or it has one of the
-- others.
pub match_exp_identities-selects :
    (s : SelectorType) (super : List Text) → match_exp_identities s super ≡ selects s super
unfolding match_exp_identities selects
match_exp_identities-selects s super = selects-lists s.match_exp_identities s.non_identities super

contains_element-append :
    (xs ys : List Text) (x : Text)
    → contains_element (xs ++ ys) x ≡ contains_element xs x || contains_element ys x
unfolding contains_element
contains_element-append [] ys x = refl
contains_element-append (y ∷ xs) ys x = ground (arith, contains_element-append xs ys x)

-- Whether the element is appended or there already, it is in the list then.
contains_element-append_one :
    (listed : List Text) (v x : Text)
    → contains_element (if contains_element listed v then listed else listed ++ (v ∷ [])) x
      ≡ contains_element listed x || v == x
unfolding contains_element
contains_element-append_one listed v x = elim (Bool-cases (v == x)) [
  | inl same ↦
      let there = ap (contains_element listed) ((text_beq_iff v x).0 same) in
      ground (arith, same, there, contains_element-append listed (v ∷ []) x)
  | inr other ↦ ground (arith, other, contains_element-append listed (v ∷ []) x)
]

contains_element-append_new :
    (values listed : List Text) (x : Text)
    → contains_element (append_new values listed) x
      ≡ contains_element listed x || contains_element values x
unfolding append_new contains_element
contains_element-append_new [] listed x = ground arith
contains_element-append_new (v ∷ values) listed x = ground (
  arith,
  contains_element-append_one listed v x,
  contains_element-append_new values
      (if contains_element listed v then listed else listed ++ (v ∷ [])) x,
)

unfoldable pub included : List Text → List Text → Text → Bool
included names excluded x = contains_element names x && not (contains_element excluded x)

contains_element-append_included :
    (names excluded listed : List Text) (x : Text)
    → contains_element (append_included names excluded listed) x
      ≡ contains_element listed x || included names excluded x
unfolding append_included contains_element included
contains_element-append_included [] excluded listed x = ground arith
contains_element-append_included (v ∷ names) excluded listed x = elim (Bool-cases (v == x)) [
  | inl same ↦
      let e = (text_beq_iff v x).0 same in
      ground (
        arith,
        same,
        ap (contains_element excluded) e,
        ap (contains_element listed) e,
        contains_element-append listed (v ∷ []) x,
        contains_element-append_included names excluded listed x,
        contains_element-append_included names excluded (listed ++ (v ∷ [])) x,
      )
  | inr other ↦ ground (
    arith,
    other,
    contains_element-append listed (v ∷ []) x,
    contains_element-append_included names excluded listed x,
    contains_element-append_included names excluded (listed ++ (v ∷ [])) x,
  )
]

unfoldable pub is_in : MatchExpressionType → Bool
is_in e = e.key == codes "namespace" && e.operator == codes "In"

unfoldable pub is_not_in : MatchExpressionType → Bool
is_not_in e = e.key == codes "namespace" && e.operator == codes "NotIn"

-- Some expression of this kind has the namespace among its values.
unfoldable pub names : (MatchExpressionType → Bool) → List MatchExpressionType → Text → Bool
names kind [] x = false
names kind (e ∷ es) x = (kind e && contains_element e.values x) || names kind es x

unfoldable pub some_in : List MatchExpressionType → Bool
some_in [] = false
some_in (e ∷ es) = is_in e || some_in es

names-some_in :
    (es : List MatchExpressionType) (x : Text) → some_in es ≡ false → names is_in es x ≡ false
unfolding some_in names
names-some_in [] x h = refl
names-some_in (e ∷ es) x h = ground (arith, h, names-some_in es x)

read_expressions-some_in :
    (es : List MatchExpressionType) (n : Namespaces)
    → (read_expressions es n).has_in ≡ n.has_in || some_in es
unfolding read_expressions read_expression some_in is_in
read_expressions-some_in [] n = ground arith
read_expressions-some_in (e ∷ es) n =
    ground (arith, read_expressions-some_in es (read_expression e n))

contains_element-read_expressions :
    (es : List MatchExpressionType) (n : Namespaces) (x : Text)
    → contains_element (read_expressions es n).listed x
      ≡ contains_element n.listed x || names is_in es x
unfolding read_expressions read_expression names is_in
contains_element-read_expressions [] n x = ground arith
contains_element-read_expressions (e ∷ es) n x = ground (
  arith,
  contains_element-read_expressions es (read_expression e n) x,
  contains_element-append_new e.values n.listed x,
)

excluded-read_expressions :
    (es : List MatchExpressionType) (n : Namespaces) (x : Text)
    → (n.has_in || some_in es) ≡ false
    → contains_element (read_expressions es n).excluded x
      ≡ contains_element n.excluded x || names is_not_in es x
unfolding read_expressions read_expression names is_in is_not_in some_in
excluded-read_expressions [] n x h = ground arith
excluded-read_expressions (e ∷ es) n x h = ground (
  arith,
  h,
  excluded-read_expressions es (read_expression e n) x,
  contains_element-append n.excluded e.values x,
)

-- The namespaces that a cluster policy is for: those it lists, with the ones its In expressions
-- name, or, where there is no such expression, those of the cluster that no NotIn expression names.
unfoldable pub covers : Option (List Text) → SelectorType → Text → Bool
covers cluster s x =
    contains_element s.namespace_list x
    || (if some_in s.match_expressions then names is_in s.match_expressions x else elim cluster [
      | none ↦ false
      | some cs ↦ contains_element cs x && not (names is_not_in s.match_expressions x)
    ])

-- For a policy without identities, which is one of the cluster, updateNamespaceListforCSP lists
-- exactly the namespaces that the policy covers.
pub update_namespace_list-covers :
    (cluster : Option (List Text)) (s : SelectorType) (x : Text)
    → s.identities ≡ []
    → contains_element (update_namespace_list cluster s).namespace_list x ≡ covers cluster s x
unfolding update_namespace_list covers included contains_element
update_namespace_list-covers none s x h =
    let n : Namespaces = record { listed = s.namespace_list; has_in = false; excluded = [] } in
    ground (
      arith,
      ap is_empty h,
      read_expressions-some_in s.match_expressions n,
      contains_element-read_expressions s.match_expressions n x,
      names-some_in s.match_expressions x,
    )
update_namespace_list-covers (some cs) s x h =
    let n : Namespaces = record { listed = s.namespace_list; has_in = false; excluded = [] } in
    let m = read_expressions s.match_expressions n in
    ground (
      arith,
      ap is_empty h,
      read_expressions-some_in s.match_expressions n,
      contains_element-read_expressions s.match_expressions n x,
      excluded-read_expressions s.match_expressions n x,
      names-some_in s.match_expressions x,
      contains_element-append_included cs m.excluded m.listed x,
    )
