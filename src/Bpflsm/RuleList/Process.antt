-- ===== src/Bpflsm/RuleList/Process.antt =====
-- The loops over `Spec.Process.MatchPaths` and `Spec.Process.MatchDirectories`.
use kube_armor.Base.{if◌then◌else◌, is_empty, List, [], ◌∷◌, copy}
use kube_armor.Base.GoMap.{put}
use kube_armor.Base.Text.{Text}
use kube_armor.Bpflsm.Keys.{InnerKey, Masks, NsKey, arg_list_eq, no_masks, process_index, zero_path}
use kube_armor.Bpflsm.Masks.{argset, exec, owner, recursive, with_flag}
use kube_armor.Bpflsm.RuleList.{RuleList, RuleSection, enforced, put_dir, put_rule}
use kube_armor.Policy.{MatchSourceType, ProcessDirectoryType, ProcessPathType}

abbrev pub set_process : RuleList → RuleSection → RuleList
set_process r s = record r { process = s }

-- `ExecName` if there is one, else `Path`.
unfoldable pub program_name : ProcessPathType → Text
program_name p = if is_empty p.exec_name then p.path else p.exec_name

unfoldable pub path_masks : ProcessPathType → Masks
path_masks p =
    let x = with_flag exec 0 in
    let y = if p.owner_only then with_flag owner x else x in
    record no_masks { at_process = if is_empty p.allowed_args then y else with_flag argset y }

-- The loop over `path.FromSource`. `key` is declared outside of it, so each round copies over what
-- the round before has left there. The key of the last round is returned.
unfoldable pub process_sources :
    ProcessPathType → List MatchSourceType → InnerKey → Masks → RuleSection → InnerKey × RuleSection
process_sources p [] key val s = (key, s)
process_sources p (src ∷ rest) key val s =
    let key' : InnerKey = record {
      path = copy key.path (program_name p);
      source = copy key.source src.path;
    } in
    let val' : Masks = enforced process_index p.action val in
    process_sources p rest key' val' (put_rule p.action key' val' s)

abbrev pub zero_key : InnerKey
zero_key = record { path = zero_path; source = zero_path }

-- `if len(path.FromSource) == 0 { … } else { … }`
unfoldable pub process_path_rules : ProcessPathType → RuleSection → InnerKey × RuleSection
process_path_rules p s =
    if is_empty p.from_source
    then (let key : InnerKey = record zero_key { path = copy zero_path (program_name p) } in
        (key, put_rule p.action key (enforced process_index p.action (path_masks p)) s))
    else process_sources p p.from_source zero_key (path_masks p) s

-- One round of the loop over the paths. `ns` is the key under which the container is registered.
unfoldable pub add_process_path : NsKey → ProcessPathType → RuleList → RuleList
add_process_path ns p r =
    let (key, s) = process_path_rules p r.process in
    if is_empty p.allowed_args then record r { process = s } else record r {
      process = s;
      arguments = put (record { ns_key = ns; inner_key = key }) p.allowed_args r.arguments;
    }

unfoldable pub process_dir_masks : ProcessDirectoryType → Masks
process_dir_masks d =
    let x = with_flag exec 0 in
    let y = if d.owner_only then with_flag owner x else x in
    record no_masks { at_process = if d.recursive then with_flag recursive y else y }

unfoldable pub process_dir_sources :
    ProcessDirectoryType → List MatchSourceType → Masks → RuleSection → RuleSection
process_dir_sources d [] val s = s
process_dir_sources d (src ∷ rest) val s =
    let val' : Masks = enforced process_index d.action val in
    process_dir_sources d rest val' (put_dir process_index d.action d.directory src.path val' s)

unfoldable pub add_process_dir : ProcessDirectoryType → RuleSection → RuleSection
add_process_dir d s =
    if is_empty d.from_source
    then put_dir process_index d.action d.directory []
        (enforced process_index d.action (process_dir_masks d)) s
    else process_dir_sources d d.from_source (process_dir_masks d) s
