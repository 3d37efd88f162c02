-- ===== src/Bpflsm/RuleList/Entered.antt =====
-- A file rule is entered under its path with each of its sources.
use kube_armor.Base.{true, false, ◌≡◌, ◌∙◌, refl, List, [], ◌∷◌, some, arith, is_empty}
use kube_armor.Base.Comparable.{equal_refl, text_eq}
use kube_armor.Base.GoMap.{get}
use kube_armor.Base.Text.{Text}
use kube_armor.Bpflsm.Keys.{InnerKey, Masks, Rules, file_index, inner_eq, path_of}
use kube_armor.Bpflsm.Masks.{deny_twice}
use kube_armor.Bpflsm.RuleList.{RuleSection, enforced, put_rule}
use kube_armor.Bpflsm.RuleList.File.{add_file_path, file_masks, file_sources}
use kube_armor.Bpflsm.RuleList.Sources.{acts, get-put_rule}
use kube_armor.Policy.{FilePathType, MatchSourceType}

enforced_twice :
    (action : Text) (val : Masks)
    → enforced file_index action (enforced file_index action val) ≡ enforced file_index action val
unfolding enforced
enforced_twice action val = ground (arith, deny_twice val.at_file)

abbrev pub file_key_of : FilePathType → MatchSourceType → InnerKey
file_key_of p src = record { path = path_of p.path; source = path_of src.path }

-- Every source has the rule, with the given mask.
abbrev pub AllEntered : FilePathType → Masks → List MatchSourceType → Rules → Type 0
AllEntered p v [] rules = Unit
AllEntered p v (src ∷ srcs) rules =
    (get (file_key_of p src) rules ≡ some v) × AllEntered p v srcs rules

module _ (p : FilePathType) (w : Masks) (acting : acts p.action ≡ true)
    (stable : enforced file_index p.action w ≡ w) where
  file_sources_step :
      (src : MatchSourceType) (srcs : List MatchSourceType) (s : RuleSection)
      → file_sources p (src ∷ srcs) w s
        ≡ file_sources p srcs w (put_rule p.action (file_key_of p src) w s)
  unfolding file_sources
  file_sources_step src srcs s = simp stable refl

  file_sources_kept :
      (srcs : List MatchSourceType) (j : InnerKey) (s : RuleSection)
      → get j s.rules ≡ some w
      → get j (file_sources p srcs w s).rules ≡ some w
  unfolding file_sources
  file_sources_kept [] j s h = h
  file_sources_kept (src ∷ srcs) j s h = rw (file_sources_step src srcs s) (
      file_sources_kept srcs j (put_rule p.action (file_key_of p src) w s)
        (get-put_rule p.action (file_key_of p src) j w s acting ∙ ground arith))

  file_sources-AllEntered :
      (srcs : List MatchSourceType) (s : RuleSection)
      → AllEntered p w srcs (file_sources p srcs w s).rules
  unfolding file_sources
  file_sources-AllEntered [] s = tt
  file_sources-AllEntered (src ∷ srcs) s =
      let s' : RuleSection = put_rule p.action (file_key_of p src) w s in
      rw (file_sources_step src srcs s) (
        file_sources_kept srcs (file_key_of p src) s' (
            get-put_rule p.action (file_key_of p src) (file_key_of p src) w s acting
            ∙ rw equal_refl refl),
        file_sources-AllEntered srcs s',
      )

-- The first round gives the mask that all rounds give.
file_sources-enforced :
    (p : FilePathType) (srcs : List MatchSourceType) (val : Masks) (s : RuleSection)
    → file_sources p srcs val s ≡ file_sources p srcs (enforced file_index p.action val) s
unfolding file_sources
file_sources-enforced p [] val s = refl
file_sources-enforced p (src ∷ srcs) val s = rw (enforced_twice p.action val) refl

-- A file rule that allows or blocks is entered for each of its sources, if it has any, and with the
-- mask that its fields and its action give.
pub add_file_path-AllEntered :
    (p : FilePathType) (s : RuleSection)
    → acts p.action ≡ true
    → is_empty p.from_source ≡ false
    → AllEntered p
        (enforced file_index p.action (file_masks p))
        p.from_source
        (add_file_path p s).rules
unfolding add_file_path
add_file_path-AllEntered p s acting sourced =
    rw (sourced, file_sources-enforced p p.from_source (file_masks p) s)
      (file_sources-AllEntered p (enforced file_index p.action (file_masks p)) acting
        (enforced_twice p.action (file_masks p)) p.from_source s)
