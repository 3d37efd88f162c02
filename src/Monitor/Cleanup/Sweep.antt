-- ===== src/Monitor/Cleanup/Sweep.antt =====
-- processTree.go: what one round of `CleanUpExitedHostPids` leaves.
use mathlib.Core.Logic.{inl, inr}
use kube_armor.Base.{
  false, not, ltb, ◌+◌, ◌&&◌, ◌||◌, Option-cases, Bool, Bool-cases, Option, if◌then◌else◌, is_empty,
  none, some, true, ◌≡◌, refl, ℕ, arith, [], ◌∷◌, sym,
}
use kube_armor.Base.Comparable.{nat_eq, text_eq, text_beq_iff, ◌==◌}
use kube_armor.Base.GoMap.{Distinct, GoMap, get, get-delete}
use kube_armor.Base.Text.{Text}
use kube_armor.Monitor.Cleanup.{clean_up, is_stale, sweep}
use kube_armor.Monitor.Paths.Nodes.{node_of}
use kube_armor.Monitor.State.{Active, PidMap, PidNode}

-- A process that is found and can be sent signal 0.
unfoldable pub reached : Option Bool → Bool
reached none = false
reached (some sent) = sent

-- The node of a process that is to stay. One whose exit has been seen stays for 5 seconds; any other,
-- or one whose process is reached, stays for 30 seconds after its exit time, and then as long as
-- its process is reached. The time of a node that has not exited is as it was set before.
unfoldable pub live : (ℕ → Option Bool) → ℕ → ℕ → Option PidNode → Option PidNode
live signal now q none = none
live signal now q (some node) =
    if (node.exited && ltb (node.exited_time + 5_000_000_000) now)
      || (ltb (node.exited_time + 30_000_000_000) now && not (reached (signal q)))
    then none
    else some node

live-is_stale :
    (signal : ℕ → Option Bool) (now q : ℕ) (node : PidNode)
    → live signal now q (some node) ≡ (if is_stale signal now q node then none else some node)
unfolding live is_stale reached
live-is_stale signal now q node = elim (Option-cases (signal q)) [
  | inl missing ↦ ground (arith, missing)
  | inr (sent, found) ↦ ground (arith, found)
]

node_of-missing :
    (active : Active) (j : Text) (q : ℕ) → get j active ≡ none → node_of j q active ≡ none
unfolding node_of
node_of-missing active j q h = rw (node_of, h) refl

get-is_empty : (m : PidMap) (q : ℕ) → is_empty m ≡ true → get q m ≡ none
unfolding get
get-is_empty [] q h = refl
get-is_empty (x ∷ m) q h = cc

node_of-cons :
    (id : Text) (m : PidMap) (active : Active) (j : Text) (q : ℕ)
    → node_of j q ((id, m) ∷ active) ≡ (if id == j then get q m else node_of j q active)
unfolding node_of get
node_of-cons id m active j q = ground arith

live-node_of-nil :
    (signal : ℕ → Option Bool) (now : ℕ) (j : Text) (q : ℕ)
    → node_of j q [] ≡ live signal now q (node_of j q [])
unfolding node_of get live
live-node_of-nil signal now j q = refl

live-none : (signal : ℕ → Option Bool) (now q : ℕ) → live signal now q none ≡ none
unfolding live
live-none signal now q = refl

module _ {Log : Type 0} (signal : ℕ → Option Bool) (now : ℕ) where
  pub get-sweep :
      (m : PidMap) (logs : GoMap ℕ Log) (q : ℕ)
      → get q (sweep signal now m logs).0 ≡ live signal now q (get q m)
  unfolding sweep get
  get-sweep [] logs q = sym (live-none signal now q)
  get-sweep ((pid, node) ∷ m) logs q =
      let same = live-is_stale signal now q node in
      elim (Bool-cases (is_stale signal now pid node)) [
        | inl stale ↦ ground (
          arith,
          stale,
          same,
          nat_eq.equal_iff pid q,
          get-sweep m logs q,
          get-delete pid q (sweep signal now m logs).0,
        )
        | inr kept ↦ ground (arith, kept, same, nat_eq.equal_iff pid q, get-sweep m logs q)
      ]

  -- If no container stands twice in the process tree, one round of the cleanup keeps exactly the nodes
  -- of the processes that are to stay: it removes those whose exit was seen more than 5 seconds ago, and
  -- those whose exit time is more than 30 seconds ago and whose process is not reached by signal 0.
  pub node_of-clean_up :
      (active : Active) (logs : GoMap ℕ Log) (j : Text) (q : ℕ)
      → Distinct active
      → node_of j q (clean_up signal now active logs).0 ≡ live signal now q (node_of j q active)
  unfolding clean_up Distinct
  node_of-clean_up [] logs j q h = live-node_of-nil signal now j q
  node_of-clean_up ((id, m) ∷ active) logs j q (fresh, h) =
      let left = (clean_up signal now active logs).1 in
      let kept = (sweep signal now m left).0 in
      let swept = get-sweep m left q in
      let below = node_of-clean_up active logs j q h in
      ground (
        arith,
        text_beq_iff id j,
        node_of-missing active id q fresh,
        get-is_empty kept q,
        live-none signal now q,
        swept,
        below,
        node_of-cons id m active j q,
        node_of-cons id kept (clean_up signal now active logs).0 j q,
      )
