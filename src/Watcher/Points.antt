-- ===== src/Watcher/Points.antt =====
-- kubeUpdate.go, `GetSecurityPolicies` and `UpdateSecurityPolicy`. A call of the enforcer is noted with
-- its end point; the calls of the presets are left out. Cloning a policy does not fail.
pub mod Lists
pub mod Announced
use kube_armor.Base.{
  Bool, List, Option, false, get_or, if◌then◌else◌, is_empty, none, not, some, true, ◌&&◌, ◌||◌,
  ◌++◌, ◌∷◌, [],
}
use kube_armor.Base.Comparable.{nat_eq, text_eq, ◌==◌}
use kube_armor.Base.GoMap.{GoMap, get}
use kube_armor.Base.Text.{Text, codes}
use kube_armor.Feeder.Collect.{update_security_policies}
use kube_armor.Feeder.State.{EndPoint, Feeder, enabled}
use kube_armor.Policy.{DefaultPosture, SecurityPolicy, SelectorType}
use kube_armor.Watcher.Selectors.{
  contains_element, match_exp_identities, match_identities, update_namespace_list,
}

unfoldable pub added : Text
added = codes "ADDED"

unfoldable pub modified : Text
modified = codes "MODIFIED"

unfoldable pub deleted : Text
deleted = codes "DELETED"

-- A policy is of a namespace or of the cluster.
pub data PolicyType : Type 0 where
  kube_armor_policy kube_armor_cluster_policy : PolicyType

-- `policy.Metadata[key]`
unfoldable pub meta : Text → SecurityPolicy → Text
meta key p = get_or (get key p.metadata) []

-- By what a policy is found again: its name, and for one of a namespace this too.
unfoldable pub same_policy : PolicyType → SecurityPolicy → SecurityPolicy → Bool
same_policy kube_armor_policy p q =
    meta (codes "namespaceName") q == meta (codes "namespaceName") p
    && meta (codes "policyName") q == meta (codes "policyName") p
same_policy kube_armor_cluster_policy p q =
    meta (codes "policyName") q == meta (codes "policyName") p

unfoldable pub contains_policy : List SecurityPolicy → SecurityPolicy → Bool
contains_policy [] p = false
contains_policy (q ∷ qs) p =
    meta (codes "policyName") q == meta (codes "policyName") p || contains_policy qs p

-- The loops over the policies of an end point, with the test for the policy that is changed.
module _ (same : SecurityPolicy → Bool) where
  unfoldable pub lists : List SecurityPolicy → Bool
  lists [] = false
  lists (q ∷ qs) = if same q then true else lists qs

  unfoldable pub remove : List SecurityPolicy → List SecurityPolicy
  remove [] = []
  remove (q ∷ qs) = if same q then qs else q ∷ remove qs

  unfoldable pub replace : SecurityPolicy → List SecurityPolicy → List SecurityPolicy
  replace p [] = []
  replace p (q ∷ qs) = if same q then p ∷ qs else q ∷ replace p qs

  -- The three events, for a policy that selects the end point or does not.
  unfoldable pub change : Text → Bool → SecurityPolicy → List SecurityPolicy → List SecurityPolicy
  change action selected p qs =
      if action == added
      then if selected && not (lists qs) then qs ++ (p ∷ []) else qs
      else if action == modified
      then if lists qs
        then if not selected then remove qs else replace p qs
        else if selected
        then qs ++ (p ∷ [])
        else qs
      else if action == deleted
      then remove qs
      else qs

module _ (compile_posix : Text → Option (Text → Bool)) where
  unfoldable pub selected_by : PolicyType → SecurityPolicy → EndPoint → Bool
  selected_by kube_armor_policy p e =
      match_identities compile_posix p.spec.selector.identities e.identities
      && match_exp_identities p.spec.selector e.identities
  selected_by kube_armor_cluster_policy p e =
      contains_element p.spec.selector.namespace_list e.namespace_name
      && match_exp_identities p.spec.selector e.identities

  -- The end points that an event on the policy is for.
  unfoldable pub concerns : PolicyType → SecurityPolicy → EndPoint → Bool
  concerns kube_armor_policy p e =
      is_empty p.spec.selector.containers
      || contains_element p.spec.selector.containers e.container_name
  concerns kube_armor_cluster_policy p e =
      contains_element p.spec.selector.namespace_list e.namespace_name
      || contains_policy e.security_policies p

  unfoldable pub change_point : Text → PolicyType → SecurityPolicy → EndPoint → EndPoint
  change_point action type p e = record e {
    security_policies =
        change (same_policy type p) action (selected_by type p e) p e.security_policies;
  }

  -- A policy, as a copy with its namespaces up to date, if it matches the end point.
  unfoldable pub get_security_policies :
      Option (List Text) → List SecurityPolicy → EndPoint → List SecurityPolicy
  get_security_policies cluster [] e = []
  get_security_policies cluster (p ∷ ps) e =
      let s = update_namespace_list cluster p.spec.selector in
      let rest = get_security_policies cluster ps e in
      if (match_identities compile_posix s.identities e.identities
          && match_exp_identities s e.identities)
        || (contains_element s.namespace_list e.namespace_name
            && match_exp_identities s e.identities)
      then record p { spec = record p.spec { selector = s } } ∷ rest
      else rest

-- The parts of the daemon that events on policies and postures change, and its calls of the enforcer.
pub record Daemon (Regexp : Type 0) : Type 0 where
  pub end_points : List EndPoint
  pub feeder : Feeder Regexp
  pub default_postures : GoMap Text DefaultPosture
  pub enforced : List EndPoint

-- `cfg.GlobalCfg.Policy`, the namespaces that are not tracked, and whether there is an enforcer.
pub record Settings : Type 0 where
  pub policy : Bool
  pub untracked : List Text
  pub has_enforcer : Bool

module _ {Regexp : Type 0} (compile : Text → Option Regexp) where
  -- What follows the change of an end point, where `Policy` is set.
  unfoldable pub announce : Settings → EndPoint → Daemon Regexp → Daemon Regexp
  announce cfg e dm =
      if cfg.policy
      then record dm {
        feeder = update_security_policies compile (codes "UPDATED") e dm.feeder;
        enforced =
            if e.policy_enabled == enabled
              && not (contains_element cfg.untracked e.namespace_name)
              && cfg.has_enforcer
            then dm.enforced ++ (e ∷ [])
            else dm.enforced;
      }
      else dm

  module _ (compile_posix : Text → Option (Text → Bool)) where
    -- The round for one end point; those of the daemon are the ones before it.
    unfoldable pub update_round :
        Settings → Text → PolicyType → SecurityPolicy → EndPoint → Daemon Regexp → Daemon Regexp
    update_round cfg action type p e dm =
        let e' : EndPoint = change_point compile_posix action type p e in
        if concerns compile_posix type p e
        then announce cfg e' (record dm { end_points = dm.end_points ++ (e' ∷ []) })
        else record dm { end_points = dm.end_points ++ (e ∷ []) }

    unfoldable pub update_points :
        Settings
        → Text
        → PolicyType
        → SecurityPolicy
        → List EndPoint
        → Daemon Regexp
        → Daemon Regexp
    update_points cfg action type p [] dm = dm
    update_points cfg action type p (e ∷ es) dm =
        update_points cfg action type p es (update_round cfg action type p e dm)

    unfoldable pub update_security_policy :
        Settings → Text → PolicyType → SecurityPolicy → Daemon Regexp → Daemon Regexp
    update_security_policy cfg action type p dm =
        update_points cfg action type p dm.end_points (record dm { end_points = [] })
