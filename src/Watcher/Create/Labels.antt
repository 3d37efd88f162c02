-- ===== src/Watcher/Create/Labels.antt =====
-- kubeUpdate.go, `CreateSecurityPolicy`: labels and lists in texts, with `ObjCommaExpandFirstDupOthers`
-- of common.go.
use kube_armor.Base.{
  Bool, List, false, if◌then◌else◌, is_empty, length, drop_last, ltb, map, not, true, ◌&&◌, ◌||◌,
  ◌++◌, ◌∷◌, [], ℕ,
}
use kube_armor.Base.Comparable.{nat_eq, text_eq, ◌==◌}
use kube_armor.Base.GoMap.{GoMap}
use kube_armor.Base.Text.{Text, codes, drop, split}

-- `s < t`
unfoldable pub text_ltb : Text → Text → Bool
text_ltb s [] = false
text_ltb [] (d ∷ t) = true
text_ltb (c ∷ s) (d ∷ t) = ltb c d || (c == d && text_ltb s t)

-- `sort.Slice` with that order, in which texts that are equal are the same.
unfoldable pub insert : Text → List Text → List Text
insert x [] = x ∷ []
insert x (y ∷ ys) = if text_ltb y x then y ∷ insert x ys else x ∷ y ∷ ys

unfoldable pub sort : List Text → List Text
sort [] = []
sort (x ∷ xs) = insert x (sort xs)

-- White space of ASCII.
unfoldable pub is_space : ℕ → Bool
is_space c = c == 32 || (ltb 8 c && ltb c 14)

unfoldable pub trim_left : Text → Text
trim_left [] = []
trim_left (c ∷ s) = if is_space c then trim_left s else c ∷ s

unfoldable pub trim_right : Text → Text
trim_right [] = []
trim_right (c ∷ s) = let rest = trim_right s in if is_space c && is_empty rest then [] else c ∷ rest

-- The containers between the brackets of the label, those that are not empty before they are
-- trimmed.
unfoldable pub container_names : List Text → List Text
container_names [] = []
container_names (name ∷ names) =
    let rest = container_names names in
    if is_empty name then rest else trim_right (trim_left name) ∷ rest

unfoldable pub containers_of : Text → List Text
containers_of v =
    if ltb 2 (length v) then container_names (split b',' (drop_last (drop 1 v))) else []

abbrev pub container_label : Text
container_label = codes "kubearmor.io/container.name"

unfoldable pub read_labels : GoMap Text Text → List Text
read_labels [] = []
read_labels ((k, v) ∷ m) =
    if k == container_label then containers_of v ++ read_labels m else read_labels m

unfoldable pub label_identities : GoMap Text Text → List Text
label_identities [] = []
label_identities ((k, v) ∷ m) =
    let rest = label_identities m in
    if k == container_label then rest else (k ++ (codes "=" ++ v)) ∷ rest

unfoldable pub without_spaces : Text → Text
without_spaces [] = []
without_spaces (c ∷ s) = if c == 32 then without_spaces s else c ∷ without_spaces s

unfoldable pub head_part : List Text → Text
head_part [] = []
head_part (s ∷ ss) = s

-- A list of structures by their first field, which `field` gives and `put_field` sets.
module _ {A : Type 0} (field : A → Text) (put_field : Text → A → A) where
  -- Only the first element is looked at.
  unfoldable pub can_be_expanded : List A → Bool
  can_be_expanded [] = false
  can_be_expanded (a ∷ as') = not (head_part (split b',' (field a)) == field a)

  unfoldable pub expand_all : List A → List A
  expand_all [] = []
  expand_all (a ∷ as') =
      map (λ part. put_field (without_spaces part) a) (split b',' (field a)) ++ expand_all as'

  unfoldable pub expand : List A → List A
  expand xs = if can_be_expanded xs then expand_all xs else xs
