-- ===== src/Bpflsm/RuleList/Sources.antt =====
-- The keys under which a rule with sources is entered.
use kube_armor.Base.{
  Bool, true, ℕ, ◌<◌, ◌≤◌, replicate, ◌≡◌, ◌≢◌, ◌∙◌, ap, sym, [], ◌∷◌, ◌++◌, some, if◌then◌else◌,
  arith, length, get_elem?, get_elem?-copy_kept, get_elem?-copy_middle, get_elem?-replicate,
  length-replicate,
}
use kube_armor.Base.Comparable.{◌==◌, equal_ne, text_eq}
use kube_armor.Base.GoMap.{get, get-put}
use kube_armor.Base.Text.{Text}
use kube_armor.Bpflsm.Keys.{InnerKey, Masks, inner_eq, path_of, zero_path}
use kube_armor.Bpflsm.RuleList.{RuleSection, put_rule}
use kube_armor.Bpflsm.RuleList.Process.{
  path_masks, process_path_rules, process_sources, program_name, zero_key,
}
use kube_armor.Policy.{MatchSourceType, ProcessPathType, allow, block}

-- The rule is enforced at all.
abbrev pub acts : Text → Bool
acts action = if action == allow then true else action == block

get-put_rule_ne :
    (action : Text) (key j : InnerKey) (val : Masks) (s : RuleSection)
    → key ≢ j
    → get j (put_rule action key val s).rules ≡ get j s.rules
unfolding put_rule
get-put_rule_ne action key j val s ne = ground (arith, get-put key j val s.rules, equal_ne key j ne)

pub get-put_rule :
    (action : Text) (key j : InnerKey) (val : Masks) (s : RuleSection)
    → acts action ≡ true
    → get j (put_rule action key val s).rules ≡ (if key == j then some val else get j s.rules)
unfolding put_rule
get-put_rule action key j val s h = ground (arith, get-put key j val s.rules)

-- The bytes of a key past the end of its text are zero.
get_elem?-path_of : (s : Text) (i : ℕ) → length s ≤ i → i < 256 → get_elem? (path_of s) i ≡ some 0
unfolding path_of zero_path
get_elem?-path_of s i past room =
    get_elem?-copy_kept (replicate 256 0) s i past ∙ get_elem?-replicate 256 i 0 room

get_elem?-path_of_middle :
    (a : Text) (c : ℕ) (rest : Text)
    → length a < 256
    → get_elem? (path_of (a ++ (c ∷ rest))) (length a) ≡ some c
unfolding path_of zero_path
get_elem?-path_of_middle a c rest room =
    get_elem?-copy_middle (replicate 256 0) a c rest (rw (length-replicate {A = ℕ} 256 0) room)

-- A key whose source has a byte other than zero past the end of `s` is not the key for `s`.
source_ne :
    (k : InnerKey) (path s : Text) (i c : ℕ)
    → length s ≤ i
    → i < 256
    → c ≢ 0
    → get_elem? k.source i ≡ some c
    → k ≢ record { path = path; source = path_of s }
source_ne k path s i c past room nonzero at e =
    let here : some 0 ≡ some c =
      sym (get_elem?-path_of s i past room)
      ∙ (sym (ap (λ (x : InnerKey). get_elem? x.source i) e) ∙ at) in
    nonzero (cc)

two_sources :
    (p : ProcessPathType) (first second : MatchSourceType) (a rest : Text) (c : ℕ) (val : Masks)
    (path : Text) (s : RuleSection)
    → first.path ≡ a ++ (c ∷ rest)
    → length a ≡ length second.path
    → length a < 256
    → c ≢ 0
    → get
        (record { path = path; source = path_of second.path })
        (process_sources p (first ∷ second ∷ []) zero_key val s).1.rules
      ≡ get (record { path = path; source = path_of second.path }) s.rules
unfolding process_sources path_of
two_sources p first second a rest c val path s longer same room nonzero =
    let middle : get_elem? (path_of first.path) (length a) ≡ some c =
      rw longer (get_elem?-path_of_middle a c rest room) in
    get-put_rule_ne p.action _ _ _ _ (
      source_ne _ path second.path (length a) c (omega arith) room nonzero
        (get_elem?-copy_kept (path_of first.path) second.path (length a) (omega arith) ∙ middle))
    ∙ get-put_rule_ne p.action _ _ _ _
        (source_ne _ path second.path (length a) c (omega arith) room nonzero middle)

-- A process rule with two sources, the second one shorter: the rule is not entered under the second
-- source. The bytes of the first one that are longer stay in the key.
pub process_sources_overlap :
    (p : ProcessPathType) (first second : MatchSourceType) (a rest : Text) (c : ℕ) (s : RuleSection)
    → p.from_source ≡ first ∷ second ∷ []
    → first.path ≡ a ++ (c ∷ rest)
    → length a ≡ length second.path
    → length a < 256
    → c ≢ 0
    → get
        (record { path = path_of (program_name p); source = path_of second.path })
        (process_path_rules p s).1.rules
      ≡ get (record { path = path_of (program_name p); source = path_of second.path }) s.rules
unfolding process_path_rules
process_sources_overlap p first second a rest c s sources longer same room nonzero = simp sources (
    two_sources p first second a rest c (path_masks p) (path_of (program_name p)) s longer same room
      nonzero)
