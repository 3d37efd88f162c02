-- ===== src/Bpflsm/RuleList/File.antt =====
-- The loops over `Spec.File.MatchPaths` and `Spec.File.MatchDirectories`.
use kube_armor.Base.{if◌then◌else◌, is_empty, List, [], ◌∷◌}
use kube_armor.Bpflsm.Keys.{InnerKey, Masks, file_index, no_masks, path_of, zero_path}
use kube_armor.Bpflsm.Masks.{owner, read, recursive, with_flag, write}
use kube_armor.Bpflsm.RuleList.{RuleSection, enforced, put_dir, put_rule}
use kube_armor.Policy.{FileDirectoryType, FilePathType, MatchSourceType}

unfoldable pub file_masks : FilePathType → Masks
file_masks p =
    let x = with_flag read 0 in
    let y = if p.owner_only then with_flag owner x else x in
    record no_masks { at_file = if p.read_only then y else with_flag write y }

unfoldable pub file_sources :
    FilePathType → List MatchSourceType → Masks → RuleSection → RuleSection
file_sources p [] val s = s
file_sources p (src ∷ rest) val s =
    let key : InnerKey = record { path = path_of p.path; source = path_of src.path } in
    let val' : Masks = enforced file_index p.action val in
    file_sources p rest val' (put_rule p.action key val' s)

unfoldable pub add_file_path : FilePathType → RuleSection → RuleSection
add_file_path p s =
    if is_empty p.from_source
    then put_rule p.action (record { path = path_of p.path; source = zero_path })
        (enforced file_index p.action (file_masks p)) s
    else file_sources p p.from_source (file_masks p) s

unfoldable pub file_dir_masks : FileDirectoryType → Masks
file_dir_masks d =
    let x = with_flag read 0 in
    let y = if d.owner_only then with_flag owner x else x in
    let z = if d.read_only then y else with_flag write y in
    record no_masks { at_file = if d.recursive then with_flag recursive z else z }

unfoldable pub file_dir_sources :
    FileDirectoryType → List MatchSourceType → Masks → RuleSection → RuleSection
file_dir_sources d [] val s = s
file_dir_sources d (src ∷ rest) val s =
    let val' : Masks = enforced file_index d.action val in
    file_dir_sources d rest val' (put_dir file_index d.action d.directory src.path val' s)

unfoldable pub add_file_dir : FileDirectoryType → RuleSection → RuleSection
add_file_dir d s =
    if is_empty d.from_source
    then put_dir file_index d.action d.directory []
        (enforced file_index d.action (file_dir_masks d)) s
    else file_dir_sources d d.from_source (file_dir_masks d) s
