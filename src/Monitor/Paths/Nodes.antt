-- ===== src/Monitor/Paths/Nodes.antt =====
-- The node of a process after each operation of processTree.go.
use mathlib.Core.Option
use mathlib.Core.Logic.{inl, inr}
use kube_armor.Base.{Option-cases, Option, if◌then◌else◌, none, some, ◌&&◌, ◌≡◌, ℕ, arith, [], ◌∷◌}
use kube_armor.Base.Comparable.{nat_eq, text_eq, text_beq_iff, ◌==◌}
use kube_armor.Base.GoMap.{get, get-put, put}
use kube_armor.Base.Text.{Text}
use kube_armor.Monitor.State.{Active, PidMap, PidNode}
use kube_armor.Monitor.Tree.{add_active_pid, change_node}

-- The node that the container's map has for a host pid.
unfoldable pub node_of : Text → ℕ → Active → Option PidNode
node_of id pid active = elim (get id active) [ none ↦ none | some m ↦ get pid m ]

-- The equations of `get` are given for the maps that the operation writes.
pub node_of-change_node :
    (id : Text) (pid : ℕ) (f : PidNode → PidNode) (active : Active) (j : Text) (q : ℕ)
    → node_of j q (change_node id pid f active)
      ≡ (if (id == j) && (pid == q) then Option.map f (node_of j q active) else node_of j q active)
unfolding node_of change_node
node_of-change_node id pid f active j q = elim (Option-cases (get id active)) [
  | inl missing ↦ ground (arith, text_beq_iff id j, missing)
  | inr (m, found) ↦ elim (Option-cases (get pid m)) [
    | inl missing ↦ ground (arith, text_beq_iff id j, nat_eq.equal_iff pid q, found, missing)
    | inr (node, here) ↦ ground (
      arith,
      text_beq_iff id j,
      nat_eq.equal_iff pid q,
      get-put id j (put pid (f node) m) active,
      get-put pid q (f node) m,
      found,
      here,
    )
  ]
]

pub node_of-add_active_pid :
    (id : Text) (node : PidNode) (active : Active) (j : Text) (q : ℕ)
    → node_of j q (add_active_pid id node active)
      ≡ (if (id == j) && (node.host_pid == q) then some node else node_of j q active)
unfolding node_of add_active_pid get
node_of-add_active_pid id node active j q = elim (Option-cases (get id active)) [
  | inl missing ↦ ground (
    arith,
    text_beq_iff id j,
    nat_eq.equal_iff node.host_pid q,
    get-put id j ((node.host_pid, node) ∷ []) active,
    missing,
  )
  | inr (m, found) ↦ ground (
    arith,
    text_beq_iff id j,
    nat_eq.equal_iff node.host_pid q,
    get-put id j (put node.host_pid node m) active,
    get-put node.host_pid q node m,
    found,
  )
]

-- A node that is written is found.
pub node_of-put :
    (id : Text) (pid : ℕ) (node : PidNode) (m : PidMap) (active : Active)
    → node_of id pid (put id (put pid node m) active) ≡ some node
unfolding node_of
node_of-put id pid node m active = ground (
  arith,
  text_beq_iff id id,
  nat_eq.equal_iff pid pid,
  get-put id id (put pid node m) active,
  get-put pid pid node m,
)
