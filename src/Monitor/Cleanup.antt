-- ===== src/Monitor/Cleanup.antt =====
-- processTree.go, `CleanUpExitedHostPids`: one round of its loop.
pub mod Sweep
use kube_armor.Base.{
  Bool, List, Option, false, if◌then◌else◌, is_empty, ltb, none, not, some, true, ◌*◌, ◌+◌, ◌∷◌, [],
  ℕ,
}
use kube_armor.Base.Comparable.{nat_eq}
use kube_armor.Base.GoMap.{GoMap, delete}
use kube_armor.Base.Text.{Text}
use kube_armor.Monitor.State.{Active, PidMap, PidNode, second}

-- `cleanMaps` is called for the node. `signal pid` is none if the process is not found, and else
-- whether signal 0 can be sent to it.
unfoldable pub is_stale : (ℕ → Option Bool) → ℕ → ℕ → PidNode → Bool
is_stale signal now pid node =
    if (if node.exited then ltb (node.exited_time + 5 * second) now else false)
    then true
    else if ltb (node.exited_time + 30 * second) now
    then elim (signal pid) [ none ↦ true | some sent ↦ not sent ]
    else false

module _ {Log : Type 0} (signal : ℕ → Option Bool) (now : ℕ) where
  -- The loop over one map of process nodes, with the map of the logs of exec events.
  unfoldable pub sweep : PidMap → GoMap ℕ Log → PidMap × GoMap ℕ Log
  sweep [] logs = ([], logs)
  sweep ((pid, node) ∷ m) logs =
      let (kept, left) = sweep m logs in
      if is_stale signal now pid node
      then (delete pid kept, delete pid left)
      else ((pid, node) ∷ kept, left)

  -- The loop over the containers. One whose map is empty afterwards is dropped.
  unfoldable pub clean_up : Active → GoMap ℕ Log → Active × GoMap ℕ Log
  clean_up [] logs = ([], logs)
  clean_up ((id, m) ∷ active) logs =
      let (others, left) = clean_up active logs in
      let (kept, rest) = sweep m left in
      if is_empty kept then (others, rest) else ((id, kept) ∷ others, rest)
