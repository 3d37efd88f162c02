-- ===== src/Watcher/Containers.antt =====
-- unorchestratedUpdates.go, `handlePolicyEvent`, for containers without Kubernetes. An index of -1 is
-- none, an index out of range is a panic, the result none. The calls for AppArmor profiles and of
-- the presets are left out, and so are the fields of an end point that only they and the log read.
pub mod Stored
use kube_armor.Base.{
  Bool, List, Option, if◌then◌else◌, is_empty, none, not, some, ◌&&◌, ◌++◌, ◌∷◌, [], ℕ, zero, suc,
}
use kube_armor.Base.Comparable.{nat_eq, text_eq, ◌==◌}
use kube_armor.Base.Text.{Text, codes}
use kube_armor.Feeder.Collect.{update_security_policies}
use kube_armor.Feeder.State.{Config, EndPoint, enabled}
use kube_armor.Policy.{SecurityPolicy}
use kube_armor.Watcher.Hosts.{PolicyStatus, applied_status, not_exist_status}
use kube_armor.Watcher.Points.{
  Daemon, Settings, added, deleted, kube_armor_policy, lists, meta, modified, remove, same_policy,
}

module _ {A : Type 0} where
  -- `xs[i] = a`
  unfoldable pub set_at : ℕ → A → List A → Option (List A)
  set_at i a [] = none
  set_at zero a (x ∷ xs) = some (a ∷ xs)
  set_at (suc i) a (x ∷ xs) = elim (set_at i a xs) [ none ↦ none | some ys ↦ some (x ∷ ys) ]

  -- `append(xs[:i], xs[i+1:]...)`
  unfoldable pub remove_at : ℕ → List A → List A
  remove_at i [] = []
  remove_at zero (x ∷ xs) = xs
  remove_at (suc i) (x ∷ xs) = x ∷ remove_at i xs

  unfoldable pub set_index : Option ℕ → A → List A → Option (List A)
  set_index none a xs = none
  set_index (some i) a xs = set_at i a xs

-- One less than an index.
unfoldable pub before : ℕ → Option ℕ
before zero = none
before (suc i) = some i

-- The loop over the policies of the end point replaces every one that is the same, but deletes
-- only the first.
unfoldable pub replace_all : SecurityPolicy → List SecurityPolicy → List SecurityPolicy
replace_all p [] = []
replace_all p (q ∷ qs) = (if same_policy kube_armor_policy p q then p else q) ∷ replace_all p qs

-- The type that the event has after the loop.
unfoldable pub event_type : Text → Bool → Text
event_type event there = if there && not (event == deleted) then modified else event

unfoldable pub new_end_point : SecurityPolicy → Text → EndPoint → EndPoint
new_end_point p name e = record e {
  namespace_name = meta (codes "namespaceName") p;
  end_point_name = name;
  container_name = name;
  policy_enabled = enabled;
  identities = p.spec.selector.identities;
  containers = [];
}

-- `handlePolicyEvent` gives an index and a status.
abbrev pub Handled : Type 0 → Type 0
Handled Regexp = Option ((Option ℕ × PolicyStatus) × Daemon Regexp)

module _ {Regexp : Type 0} (compile : Text → Option Regexp) where
  unfoldable pub announce_event : Settings → Text → EndPoint → Daemon Regexp → Daemon Regexp
  announce_event cfg event e dm =
      if cfg.policy
      then record dm {
        feeder = update_security_policies compile event e dm.feeder;
        enforced =
            if e.policy_enabled == enabled && cfg.has_enforcer
            then dm.enforced ++ (e ∷ [])
            else dm.enforced;
      }
      else dm

  -- The end points are stored, and the event goes on.
  unfoldable pub stored :
      Settings
      → Text
      → EndPoint
      → Option ℕ
      → Option (List EndPoint)
      → Daemon Regexp
      → Handled Regexp
  stored cfg event e index none dm = none
  stored cfg event e index (some es) dm =
      some ((index, applied_status), announce_event cfg event e (record dm { end_points = es }))

  unfoldable pub handle_added :
      Settings → Bool → SecurityPolicy → EndPoint → Option ℕ → Text → Daemon Regexp → Handled Regexp
  handle_added cfg create p e index name dm =
      let e' : EndPoint = record e { security_policies = e.security_policies ++ (p ∷ []) } in
      if create
      then stored cfg added (new_end_point p name e') index
          (some (dm.end_points ++ (new_end_point p name e' ∷ []))) dm
      else stored cfg added e' index (set_index index e' dm.end_points) dm

  -- The end point is taken out where it has neither containers nor policies.
  unfoldable pub handle_deleted : Settings → EndPoint → Option ℕ → Daemon Regexp → Handled Regexp
  handle_deleted cfg e none dm = some ((none, applied_status), dm)
  handle_deleted cfg e (some i) dm = elim (set_at i e dm.end_points) [
    | none ↦ none
    | some es ↦
        let gone = is_empty e.containers && is_empty e.security_policies in
        some (
          (if gone then before i else some i, applied_status),
          record dm {
            end_points = if gone then remove_at i es else es;
            feeder = update_security_policies compile deleted e dm.feeder;
            enforced = if cfg.has_enforcer then dm.enforced ++ (e ∷ []) else dm.enforced;
          },
        )
  ]

  unfoldable pub handle_policy_event :
      Settings
      → Config
      → Text
      → Bool
      → SecurityPolicy
      → EndPoint
      → Option ℕ
      → Text
      → Daemon Regexp
      → Handled Regexp
  handle_policy_event cfg global event create p e index container dm =
      let name = if is_empty container then e.container_name else container in
      let there = lists (same_policy kube_armor_policy p) e.security_policies in
      let e' : EndPoint = record e {
        default_posture = global.default_posture;
        security_policies =
            if event == deleted
            then remove (same_policy kube_armor_policy p) e.security_policies
            else replace_all p e.security_policies;
      } in
      let event' = event_type event there in
      if not there && event == deleted
      then some ((index, not_exist_status), dm)
      else if event' == added
      then handle_added cfg create p e' index name dm
      else if event' == modified
      then stored cfg modified e' index (set_index index e' dm.end_points) dm
      else handle_deleted cfg e' index dm
