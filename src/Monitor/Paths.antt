-- ===== src/Monitor/Paths.antt =====
-- processTree.go: the paths that the process tree gives after each of its operations.
pub mod Nodes
use mathlib.Core.Option
use mathlib.Core.Logic.{inl, inr}
use kube_armor.Base.{◌∙◌, ap, ◌≢◌, sym, ◌||◌, not}
use kube_armor.Base.{
  Bool, Bool-cases, Option, Option-cases, false, if◌then◌else◌, none, some, true, ◌&&◌, ◌≡◌, refl,
  ℕ, arith, [], ◌∷◌, List,
}
use kube_armor.Base.Comparable.{nat_eq, text_eq, text_beq, text_beq_iff, ◌==◌}
use kube_armor.Base.GoMap.{get, get-put, put, has}
use kube_armor.Base.Text.{Text, has_prefix, codes, contains, replace_first}
use kube_armor.Monitor.Paths.Nodes.{
  node_of, node_of-add_active_pid, node_of-change_node, node_of-put,
}
use kube_armor.Monitor.State.{Active, PidNode, SyscallContext}
use kube_armor.Monitor.Tree.{
  add_active_pid, build_pid_node, change_node, delete_active_pid, get_exec_path,
  get_parent_exec_path, usable, remember_exec, is_full, known_parent, path_from, update_exec_path,
  with_exec_path,
}

-- The two lookups read nothing but the nodes of the process and of its parent.
unfoldable pub exec_path_of : Option PidNode → Text
exec_path_of none = []
exec_path_of (some node) = node.exec_path

is_full_empty : is_full [] ≡ false
unfolding is_full has_prefix text_beq
is_full_empty = refl

exit : ℕ → PidNode → PidNode
exit now node = record node { exited = true; exited_time = now }

exec_path_of-exit :
    (now : ℕ) (here : Bool) (o : Option PidNode)
    → exec_path_of (if here then Option.map (exit now) o else o) ≡ exec_path_of o
unfolding exec_path_of exit
exec_path_of-exit now true none = refl
exec_path_of-exit now true (some node) = refl
exec_path_of-exit now false o = refl

module _ (link : ℕ → Option Text) (id : Text) (ctx : SyscallContext) where
  -- The path that the node of the process has, empty where there is no node.
  abbrev pub recorded : Active → Text
  recorded active = exec_path_of (node_of id ctx.host_pid active)

  get_exec_path-recorded :
      (active : Active) (readlink : Bool)
      → is_full (recorded active) ≡ true
      → get_exec_path link id ctx readlink active ≡ (recorded active, active)
  unfolding get_exec_path path_from node_of exec_path_of
  get_exec_path-recorded active readlink full = elim (Option-cases (get id active)) [
    | inl missing ↦ ground (arith, full, missing, is_full_empty)
    | inr (m, here) ↦ ground (arith, here, full)
  ]

  get_exec_path-at :
      (active : Active) (path : Text) (readlink : Bool)
      → recorded active ≡ path
      → is_full path ≡ true
      → get_exec_path link id ctx readlink active ≡ (path, active)
  get_exec_path-at active path readlink e full =
      get_exec_path-recorded active readlink (ap is_full e ∙ full) ∙ ap (λ p. (p, active)) e

  -- `GetExecPath` on every branch: the recorded path where it is full or procfs is not asked or
  -- has no better one, and else the path of procfs, which is then kept.
  pub get_exec_path_lem :
      (active : Active) (readlink : Bool)
      → get_exec_path link id ctx readlink active ≡ (
          if is_full (recorded active) || not readlink
          then (recorded active, active)
          else elim (usable (link ctx.host_pid)) [
            | none ↦ (recorded active, active)
            | some path ↦ (path, remember_exec link id ctx path active)
          ])
  unfolding get_exec_path path_from node_of exec_path_of
  get_exec_path_lem active readlink = elim (Option-cases (get id active)) [
    | inl missing ↦ ground (arith, missing, is_full_empty)
    | inr (m, here) ↦ ground (arith, here)
  ]

  built :
      (active : Active) (path : Text)
      → exec_path_of (some (build_pid_node link id ctx path [] active)) ≡ path
  unfolding build_pid_node exec_path_of
  built active path = refl

  recorded-remember_exec :
      (path : Text) (active : Active)
      → has id active ≡ true
      → recorded (remember_exec link id ctx path active) ≡ path
  unfolding remember_exec exec_path_of
  recorded-remember_exec path active known = elim (Option-cases (get id active)) [
    | inl missing ↦ ground (arith, missing)
    | inr (m, here) ↦ elim (Option-cases (get ctx.host_pid m)) [
      | inl missing ↦
          rw (remember_exec, here, missing)
            (ap exec_path_of
                (node_of-put id ctx.host_pid (build_pid_node link id ctx path [] active) m active)
              ∙ built active path)
      | inr (node, found) ↦
          rw (remember_exec, here, found)
            (ap exec_path_of
              (node_of-put id ctx.host_pid (record node { exec_path = path }) m active))
    ]
  ]

  -- A registered process with a full path is found under that path, without procfs.
  pub get_exec_path-add_active_pid :
      (node : PidNode) (active : Active) (readlink : Bool)
      → node.host_pid ≡ ctx.host_pid
      → is_full node.exec_path ≡ true
      → get_exec_path link id ctx readlink (add_active_pid id node active)
        ≡ (node.exec_path, add_active_pid id node active)
  unfolding exec_path_of
  get_exec_path-add_active_pid node active readlink same full =
      let found : node_of id ctx.host_pid (add_active_pid id node active) ≡ some node =
        node_of-add_active_pid id node active id ctx.host_pid
        ∙ ground (arith, text_beq_iff id id, nat_eq.equal_iff node.host_pid ctx.host_pid) in
      get_exec_path-at (add_active_pid id node active) node.exec_path readlink
        (ap exec_path_of found) full

  parent_path-found :
      (active : Active) (parent : PidNode)
      → node_of id ctx.host_pid active ≡ none
      → node_of id ctx.host_ppid active ≡ some parent
      → is_full parent.exec_path ≡ true
      → get_parent_exec_path link id ctx false active ≡ (parent.exec_path, active)
  unfolding get_parent_exec_path known_parent path_from node_of
  parent_path-found active parent fresh found full = elim (Option-cases (get id active)) [
    | inl missing ↦ ground (arith, found, missing)
    | inr (m, here) ↦ ground (arith, found, fresh, here, full, is_full_empty)
  ]

  -- The node built for a child of a registered process takes the path of that process as its
  -- parent's path, where the parent's is full and the child has no node yet.
  pub build_pid_node-add_active_pid :
      (parent : PidNode) (active : Active) (path : Text) (args : List Text)
      → parent.host_pid ≡ ctx.host_ppid
      → ctx.host_pid ≢ ctx.host_ppid
      → node_of id ctx.host_pid active ≡ none
      → is_full parent.exec_path ≡ true
      → (build_pid_node link id ctx path args (add_active_pid id parent active)).parent_exec_path
        ≡ parent.exec_path
  unfolding build_pid_node
  build_pid_node-add_active_pid parent active path args same differ fresh full =
      ap (λ r. r.0)
        (parent_path-found (add_active_pid id parent active) parent
          (node_of-add_active_pid id parent active id ctx.host_pid
            ∙ ground (arith, nat_eq.equal_iff parent.host_pid ctx.host_pid, fresh))
          (node_of-add_active_pid id parent active id ctx.host_ppid
            ∙ ground (arith, text_beq_iff id id, nat_eq.equal_iff parent.host_pid ctx.host_ppid))
          full)

  -- The path that is reported for a process stays the same when it or another process exits, until
  -- the exited process is swept.
  pub get_exec_path-delete_active_pid :
      (now : ℕ) (j : Text) (other : SyscallContext) (active : Active) (readlink : Bool)
      → (get_exec_path link id ctx readlink (delete_active_pid now j other active)).0
        ≡ (get_exec_path link id ctx readlink active).0
  unfolding delete_active_pid exit
  get_exec_path-delete_active_pid now j other active readlink =
      let same : recorded (delete_active_pid now j other active) ≡ recorded active =
        ap exec_path_of (node_of-change_node j other.host_pid (exit now) active id ctx.host_pid)
        ∙ exec_path_of-exit now ((j == id) && (other.host_pid == ctx.host_pid))
            (node_of id ctx.host_pid active) in
      ground (
        arith,
        get_exec_path_lem (delete_active_pid now j other active) readlink,
        get_exec_path_lem active readlink,
        same,
      )

exec_path_of-with_exec_path :
    (path : Text) (node : PidNode) → exec_path_of (some (with_exec_path path node)) ≡ path
unfolding exec_path_of with_exec_path
exec_path_of-with_exec_path path node = elim (Bool-cases (node.exec_path == path)) [
  | inl same ↦ rw same ((text_beq_iff node.exec_path path).0 same)
  | inr other ↦ elim (Bool-cases (contains path (replace_first node.source (codes "./") []))) [
    | inl inside ↦ rw (other, inside) refl
    | inr outside ↦ rw (other, outside) refl
  ]
]

node_of-update_exec_path :
    (id : Text) (pid : ℕ) (path : Text) (active : Active) (node : PidNode)
    → node_of id pid active ≡ some node
    → is_full path ≡ true
    → node_of id pid (update_exec_path id pid path active) ≡ some (with_exec_path path node)
unfolding update_exec_path
node_of-update_exec_path id pid path active node here full = rw full (
    node_of-change_node id pid (with_exec_path path) active id pid
    ∙ ground (arith, text_beq_iff id id, nat_eq.equal_iff pid pid, here))

-- After `UpdateExecPath` with a full path the process of the node is found under it.
pub get_exec_path-update_exec_path :
    (link : ℕ → Option Text) (id : Text) (ctx : SyscallContext) (path : Text) (active : Active)
    (node : PidNode) (readlink : Bool)
    → node_of id ctx.host_pid active ≡ some node
    → is_full path ≡ true
    → get_exec_path link id ctx readlink (update_exec_path id ctx.host_pid path active)
      ≡ (path, update_exec_path id ctx.host_pid path active)
get_exec_path-update_exec_path link id ctx path active node readlink here full =
    get_exec_path-at link id ctx (update_exec_path id ctx.host_pid path active) path readlink
      (ap exec_path_of (node_of-update_exec_path id ctx.host_pid path active node here full)
        ∙ exec_path_of-with_exec_path path node)
      full

module _ (link link' : ℕ → Option Text) (id : Text) (ctx : SyscallContext) where
  recorded-kept :
      (active : Active) (path : Text) (active' : Active)
      → has id active ≡ true
      → get_exec_path link id ctx true active ≡ (path, active')
      → is_full path ≡ true
      → recorded link' id ctx active' ≡ path
  recorded-kept active path active' known ran full =
      elim (Bool-cases (is_full (recorded link id ctx active))) [
        | inl old ↦
            let e = sym (get_exec_path-recorded link id ctx active true old) ∙ ran in
            sym (ap (λ r. recorded link id ctx r.1) e) ∙ ap (λ r. r.0) e
        | inr short ↦ elim (Option-cases (usable (link ctx.host_pid))) [
          | inl missing ↦
              ground (arith, get_exec_path_lem link id ctx active true, ran, missing, short, full)
          | inr (found, here) ↦
              let kept : Text × Active = (found, remember_exec link id ctx found active) in
              let e : kept ≡ (path, active') =
                ground (arith, get_exec_path_lem link id ctx active true, ran, here, short) in
              sym (ap (λ r. recorded link id ctx r.1) e)
              ∙ recorded-remember_exec link id ctx found active known
              ∙ ap (λ r. r.0) e
        ]
      ]

  -- If the container is known, a full path that `GetExecPath` gives for a process of it, possibly from
  -- procfs, is kept: the next call on the state that the first one leaves gives it, changes nothing, and
  -- does not depend on procfs.
  pub get_exec_path-cached :
      (active : Active) (path : Text) (active' : Active) (readlink : Bool)
      → has id active ≡ true
      → get_exec_path link id ctx true active ≡ (path, active')
      → is_full path ≡ true
      → get_exec_path link' id ctx readlink active' ≡ (path, active')
  get_exec_path-cached active path active' readlink known ran full =
      get_exec_path-at link' id ctx active' path readlink
        (recorded-kept active path active' known ran full) full
