-- ===== src/Monitor/Tree.antt =====
-- processTree.go, the process tree. What `/proc/PID/exe` links to is an argument, none where it
-- cannot be read. The argument `lock` of the source says who holds the lock, and is left out.
use kube_armor.Base.{
  Bool, List, Option, false, get_or, if◌then◌else◌, is_empty, none, not, some, true, ◌&&◌, ◌++◌,
  ◌∷◌, [], ℕ,
}
use kube_armor.Base.Comparable.{nat_eq, text_eq, ◌==◌}
use kube_armor.Base.GoMap.{get, put}
use kube_armor.Base.Text.{Text, codes, contains, has_prefix, replace_first}
use kube_armor.Monitor.State.{Active, PidMap, PidNode, SyscallContext}

-- `path != "/" && strings.HasPrefix(path, "/")`
unfoldable pub is_full : Text → Bool
is_full path = not (path == codes "/") && has_prefix path (codes "/")

-- `path` after `if node, ok := pidMap[pid]; ok { path = … }`.
unfoldable pub path_from : (PidNode → Text) → ℕ → PidMap → Text → Text
path_from field pid m path = elim (get pid m) [ none ↦ path | some node ↦ field node ]

-- What the first part of `GetParentExecPath` finds: the path that the node has of its parent, and
-- unless that is full the path that the parent's node has.
unfoldable pub known_parent : SyscallContext → PidMap → Text
known_parent ctx m =
    let own = path_from (λ node. node.parent_exec_path) ctx.host_pid m [] in
    if is_full own then own else path_from (λ node. node.exec_path) ctx.host_ppid m own

-- `err == nil && data != "" && data != "/"`
unfoldable pub usable : Option Text → Option Text
usable none = none
usable (some path) = if not (is_empty path) && not (path == codes "/") then some path else none

-- `pidMap[pid] = f(node)` in the map of a container, for a node that is there.
unfoldable pub change_node : Text → ℕ → (PidNode → PidNode) → Active → Active
change_node id pid f active = elim (get id active) [
  | none ↦ active
  | some m ↦ elim (get pid m) [ none ↦ active | some node ↦ put id (put pid (f node) m) active ]
]

unfoldable pub has_node : Text → ℕ → Active → Bool
has_node id pid active = elim (get id active) [
  | none ↦ false
  | some m ↦ elim (get pid m) [ none ↦ false | some node ↦ true ]
]

-- The path that procfs gave for the parent is kept, in the parent's node or else in the child's.
unfoldable pub remember_parent : Text → SyscallContext → Text → Active → Active
remember_parent id ctx path active =
    if has_node id ctx.host_ppid active
    then change_node id ctx.host_ppid (λ node. record node { exec_path = path }) active
    else change_node id ctx.host_pid (λ node. record node { parent_exec_path = path }) active

unfoldable pub get_parent_exec_path :
    (ℕ → Option Text) → Text → SyscallContext → Bool → Active → Text × Active
get_parent_exec_path link id ctx readlink active =
    let path : Text = elim (get id active) [ none ↦ [] | some m ↦ known_parent ctx m ] in
    if is_full path
    then (path, active)
    else if readlink
    then elim (usable (link ctx.host_ppid)) [
      | none ↦ (path, active)
      | some found ↦ (found, remember_parent id ctx found active)
    ]
    else (path, active)

-- The arguments from the second on, joined by spaces.
unfoldable pub join_args : Text → List Text → Text
join_args out [] = out
join_args out (arg ∷ more) = join_args (out ++ (b' ' ∷ arg)) more

unfoldable pub args_text : List Text → Text
args_text [] = []
args_text (program ∷ []) = []
args_text (program ∷ arg ∷ more) = join_args arg more

-- Go's zero values stand in the fields that are not set.
unfoldable pub build_pid_node :
    (ℕ → Option Text) → Text → SyscallContext → Text → List Text → Active → PidNode
build_pid_node link id ctx exec_path args active = record {
  pid_id = 0;
  mnt_id = 0;
  host_ppid = ctx.host_ppid;
  host_pid = ctx.host_pid;
  ppid = ctx.ppid;
  pid = ctx.pid;
  uid = ctx.uid;
  parent_exec_path = (get_parent_exec_path link id ctx false active).0;
  exec_path = exec_path;
  source = exec_path;
  args = args_text args;
  exited = false;
  exited_time = 0;
}

unfoldable pub add_active_pid : Text → PidNode → Active → Active
add_active_pid id node active = elim (get id active) [
  | some m ↦ put id (put node.host_pid node m) active
  | none ↦ put id ((node.host_pid, node) ∷ []) active
]

-- The node with its full path. The source is replaced too where the path contains it, less `./`.
unfoldable pub with_exec_path : Text → PidNode → PidNode
with_exec_path path node =
    if node.exec_path == path
    then node
    else if contains path (replace_first node.source (codes "./") [])
    then record node { source = path; exec_path = path }
    else record node { exec_path = path }

unfoldable pub update_exec_path : Text → ℕ → Text → Active → Active
update_exec_path id pid path active =
    if is_full path then change_node id pid (with_exec_path path) active else active

-- The path that procfs gave is kept in the node, or in a new one.
unfoldable pub remember_exec : (ℕ → Option Text) → Text → SyscallContext → Text → Active → Active
remember_exec link id ctx path active = elim (get id active) [
  | none ↦ active
  | some m ↦ elim (get ctx.host_pid m) [
    | some node ↦ put id (put ctx.host_pid (record node { exec_path = path }) m) active
    | none ↦ put id (put ctx.host_pid (build_pid_node link id ctx path [] active) m) active
  ]
]

unfoldable pub get_exec_path :
    (ℕ → Option Text) → Text → SyscallContext → Bool → Active → Text × Active
get_exec_path link id ctx readlink active =
    let path : Text = elim (get id active) [
      | none ↦ []
      | some m ↦ path_from (λ node. node.exec_path) ctx.host_pid m []
    ] in
    if is_full path
    then (path, active)
    else if readlink
    then elim (usable (link ctx.host_pid)) [
      | none ↦ (path, active)
      | some found ↦ (found, remember_exec link id ctx found active)
    ]
    else (path, active)

unfoldable pub command_of : PidNode → Text
command_of node = if is_empty node.args then node.source else node.source ++ (b' ' ∷ node.args)

unfoldable pub get_command : (ℕ → Option Text) → Text → SyscallContext → Bool → Active → Text
get_command link id ctx readlink active =
    let from_link = if readlink then get_or (usable (link ctx.host_pid)) [] else [] in
    elim (get id active) [
      | none ↦ from_link
      | some m ↦ elim (get ctx.host_pid m) [ none ↦ from_link | some node ↦ command_of node ]
    ]

unfoldable pub delete_active_pid : ℕ → Text → SyscallContext → Active → Active
delete_active_pid now id ctx active =
    change_node id ctx.host_pid (λ node. record node { exited = true; exited_time = now }) active
