-- ===== src/Bpflsm/Fresh/Posture.antt =====
-- When a section becomes a whitelist: exactly when some rule of it says Allow.
use kube_armor.Base.{
  ◌≡◌, ◌∙◌, refl, Bool, ◌||◌, List, [], ◌∷◌, any, each, arith, is_empty, if◌then◌else◌, Bool-cases,
  inl, inr,
}
use kube_armor.Base.Comparable.{◌==◌, text_eq}
use kube_armor.Base.Text.{Text}
use kube_armor.Bpflsm.Keys.{Index, InnerKey, Masks, NsKey}
use kube_armor.Bpflsm.RuleList.{RuleList, RuleSection, put_dir, put_rule}
use kube_armor.Bpflsm.RuleList.File.{add_file_dir, add_file_path, file_dir_sources, file_sources}
use kube_armor.Bpflsm.RuleList.Process.{
  add_process_dir, add_process_path, process_dir_sources, process_path_rules, process_sources,
}
use kube_armor.Policy.{
  FileDirectoryType, FilePathType, MatchSourceType, ProcessDirectoryType, ProcessPathType, allow,
}

pub put_rule-posture :
    (action : Text) (key : InnerKey) (val : Masks) (s : RuleSection)
    → (put_rule action key val s).posture ≡ ((action == allow) || s.posture)
unfolding put_rule
put_rule-posture action key val s = ground arith

put_dir-posture :
    (idx : Index) (action directory src : Text) (val : Masks) (s : RuleSection)
    → (put_dir idx action directory src val s).posture ≡ ((action == allow) || s.posture)
unfolding put_dir
put_dir-posture idx action directory src val s = ground arith

-- A second round of a loop adds nothing.
pub absorb : (e a b : Bool) → (if e then a || b else a || (a || b)) ≡ (a || b)
absorb e a b = ground arith

process_sources-posture :
    (p : ProcessPathType) (srcs : List MatchSourceType) (key : InnerKey) (val : Masks)
    (s : RuleSection)
    → (process_sources p srcs key val s).1.posture
      ≡ (if is_empty srcs then s.posture else (p.action == allow) || s.posture)
unfolding process_sources
process_sources-posture p [] key val s = refl
process_sources-posture p (src ∷ srcs) key val s =
    process_sources-posture p srcs _ _ _
    ∙ rw put_rule-posture (absorb (is_empty srcs) (p.action == allow) s.posture)

process_dir_sources-posture :
    (p : ProcessDirectoryType) (srcs : List MatchSourceType) (val : Masks) (s : RuleSection)
    → (process_dir_sources p srcs val s).posture
      ≡ (if is_empty srcs then s.posture else (p.action == allow) || s.posture)
unfolding process_dir_sources
process_dir_sources-posture p [] val s = refl
process_dir_sources-posture p (src ∷ srcs) val s =
    process_dir_sources-posture p srcs _ _
    ∙ rw put_dir-posture (absorb (is_empty srcs) (p.action == allow) s.posture)

file_sources-posture :
    (p : FilePathType) (srcs : List MatchSourceType) (val : Masks) (s : RuleSection)
    → (file_sources p srcs val s).posture
      ≡ (if is_empty srcs then s.posture else (p.action == allow) || s.posture)
unfolding file_sources
file_sources-posture p [] val s = refl
file_sources-posture p (src ∷ srcs) val s =
    file_sources-posture p srcs _ _
    ∙ rw put_rule-posture (absorb (is_empty srcs) (p.action == allow) s.posture)

file_dir_sources-posture :
    (p : FileDirectoryType) (srcs : List MatchSourceType) (val : Masks) (s : RuleSection)
    → (file_dir_sources p srcs val s).posture
      ≡ (if is_empty srcs then s.posture else (p.action == allow) || s.posture)
unfolding file_dir_sources
file_dir_sources-posture p [] val s = refl
file_dir_sources-posture p (src ∷ srcs) val s =
    file_dir_sources-posture p srcs _ _
    ∙ rw put_dir-posture (absorb (is_empty srcs) (p.action == allow) s.posture)

process_path_rules-posture :
    (p : ProcessPathType) (s : RuleSection)
    → (process_path_rules p s).1.posture ≡ ((p.action == allow) || s.posture)
unfolding process_path_rules
process_path_rules-posture p s = elim (Bool-cases (is_empty p.from_source)) [
  | inl e ↦ rw e (put_rule-posture _ _ _ _)
  | inr e ↦ rw e (process_sources-posture p p.from_source _ _ s ∙ rw e refl)
]

pub add_process_path-posture :
    (ns : NsKey) (p : ProcessPathType) (r : RuleList)
    → (add_process_path ns p r).process.posture ≡ ((p.action == allow) || r.process.posture)
unfolding add_process_path
add_process_path-posture ns p r = elim (Bool-cases (is_empty p.allowed_args)) [
  | inl e ↦ rw e (process_path_rules-posture p r.process)
  | inr e ↦ rw e (process_path_rules-posture p r.process)
]

pub add_process_dir-posture :
    (p : ProcessDirectoryType) (s : RuleSection)
    → (add_process_dir p s).posture ≡ ((p.action == allow) || s.posture)
unfolding add_process_dir
add_process_dir-posture p s = elim (Bool-cases (is_empty p.from_source)) [
  | inl e ↦ rw e (put_dir-posture _ _ _ _ _ _)
  | inr e ↦ rw e (process_dir_sources-posture p p.from_source _ s ∙ rw e refl)
]

pub add_file_path-posture :
    (p : FilePathType) (s : RuleSection)
    → (add_file_path p s).posture ≡ ((p.action == allow) || s.posture)
unfolding add_file_path
add_file_path-posture p s = elim (Bool-cases (is_empty p.from_source)) [
  | inl e ↦ rw e (put_rule-posture _ _ _ _)
  | inr e ↦ rw e (file_sources-posture p p.from_source _ s ∙ rw e refl)
]

pub add_file_dir-posture :
    (p : FileDirectoryType) (s : RuleSection)
    → (add_file_dir p s).posture ≡ ((p.action == allow) || s.posture)
unfolding add_file_dir
add_file_dir-posture p s = elim (Bool-cases (is_empty p.from_source)) [
  | inl e ↦ rw e (put_dir-posture _ _ _ _ _ _)
  | inr e ↦ rw e (file_dir_sources-posture p p.from_source _ s ∙ rw e refl)
]

-- A loop whose rounds each turn the posture on by a test.
pub each-posture {ℓ κ} :
    {A : Type ℓ} {S : Type κ} (f : A → S → S) (posture : S → Bool) (test : A → Bool)
    → ((x : A) (s : S) → posture (f x s) ≡ (test x || posture s))
    → (xs : List A) (s : S) → posture (each f xs s) ≡ (any test xs || posture s)
each-posture f posture test h [] s = refl
each-posture f posture test h (x ∷ xs) s =
    each-posture f posture test h xs (f x s) ∙ rw (h x s) (ground arith)
