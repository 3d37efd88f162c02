-- ===== src/Feeder/Resources.antt =====
-- policyMatcher.go, `matchResources`: whether a match covers the resource of a log.
pub mod Directories
use kube_armor.Base.{Bool, List, false, if◌then◌else◌, leb, not, true, ◌&&◌, ◌||◌, ◌++◌, ◌∷◌, [], ℕ}
use kube_armor.Base.Comparable.{nat_eq, text_eq, ◌==◌}
use kube_armor.Base.Paths.{count, path_dir}
use kube_armor.Base.Text.{Text, codes, has_prefix, split}
use kube_armor.Feeder.State.{Log, MatchPolicy}

unfoldable pub get_directory_part : Text → Text
get_directory_part path =
    let dir = path_dir path in
    if has_prefix dir (codes "/") then dir ++ codes "/" else codes "__not_absolute_path__"

-- `strings.Split(s, " ")[0]`
unfoldable pub first_word : List Text → Text
first_word [] = []
first_word (w ∷ ws) = w

-- The directory of a rule against the directory of an event: the same depth, or for a recursive
-- rule at least that.
unfoldable pub dir_covers : Text → Bool → Text → Bool
dir_covers resource recursive dir =
    has_prefix dir resource
    && ((not recursive && count b'/' dir == count b'/' resource)
        || (recursive && leb (count b'/' resource) (count b'/' dir)))

module _ {Regexp : Type 0} where
  unfoldable pub match_file : MatchPolicy Regexp → Log → Bool
  match_file m log =
      let first = first_word (split b' ' log.resource) in
      (m.resource_type == codes "Path" && m.resource == first)
      || (m.resource_type == codes "Directory"
          && dir_covers m.resource m.recursive (get_directory_part first))
      || m.resource == log.resource ++ codes "/"
      || (m.resource == codes "/" && m.recursive)

  unfoldable pub match_process : MatchPolicy Regexp → Log → Bool
  match_process m log =
      (m.resource_type == codes "Path" && m.resource == log.process_name)
      || (m.resource_type == codes "Directory"
          && dir_covers m.resource m.recursive (get_directory_part log.process_name))

  unfoldable pub match_resources : MatchPolicy Regexp → Log → Bool
  match_resources m log =
      (m.operation == codes "File" && match_file m log)
      || (m.operation == codes "Process" && match_process m log)
