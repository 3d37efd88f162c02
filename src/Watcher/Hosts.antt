-- ===== src/Watcher/Hosts.antt =====
-- kubeUpdate.go, `ParseAndUpdateHostSecurityPolicy` and `UpdateHostSecurityPolicies`. A host policy has
-- the fields of a policy, with the identities of its node selector. `reflect.DeepEqual` on policies
-- is an argument, cloning does not fail, and the backup files are left out.
pub mod Events
use kube_armor.Base.{
  Bool, List, Option, false, if◌then◌else◌, is_empty, none, not, some, true, ◌&&◌, ◌||◌, ◌++◌, ◌∷◌,
  [], ℕ,
}
use kube_armor.Base.Comparable.{nat_eq, text_eq, ◌==◌}
use kube_armor.Base.GoMap.{GoMap}
use kube_armor.Base.Text.{Text, codes}
use kube_armor.Feeder.Host.{update_host_security_policies}
use kube_armor.Feeder.State.{Feeder, enabled}
use kube_armor.Policy.{SecurityPolicy, no_selector}
use kube_armor.Watcher.Create.{CrdSpec, create_rules, spec_action}
use kube_armor.Watcher.Create.Fill.{Defaults}
use kube_armor.Watcher.Create.Labels.{sort}
use kube_armor.Watcher.Points.{
  added, deleted, kube_armor_cluster_policy, lists, modified, remove, replace, same_policy,
}
use kube_armor.Watcher.Selectors.{match_identities}

-- `pb.PolicyStatus`, without the one of a failure.
pub data PolicyStatus : Type 0 where
  applied_status modified_status deleted_status not_exist_status : PolicyStatus

-- `cfg.GlobalCfg.HostPolicy`, the identities of the node, and whether there is an enforcer.
pub record HostSettings : Type 0 where
  pub host_policy : Bool
  pub identities : List Text
  pub has_enforcer : Bool

-- The parts of the daemon that change: the policies, the feeder, and the calls of the enforcer.
pub record Host (Regexp : Type 0) : Type 0 where
  pub policies : List SecurityPolicy
  pub feeder : Feeder Regexp
  pub enforced : List (List SecurityPolicy)

-- The range over the labels of the node selector.
unfoldable pub node_identities : GoMap Text Text → List Text
node_identities [] = []
node_identities ((k, v) ∷ m) = (k ++ (codes "=" ++ v)) ∷ node_identities m

-- The policy of the event. The lowest severity is one, by default.
unfoldable pub host_security_policy : Text → CrdSpec → SecurityPolicy
host_security_policy name crd =
    let top : Defaults = record crd.defaults {
      severity = if crd.defaults.severity == 0 then 1 else crd.defaults.severity;
      action = spec_action crd.defaults.action;
    } in
    record {
      metadata = (codes "policyName", name) ∷ [];
      spec =
          create_rules top
            (record no_selector { identities = sort (node_identities crd.match_labels) }) crd;
    }

-- Policies are the same if they have the same name.
abbrev pub named : SecurityPolicy → SecurityPolicy → Bool
named = same_policy kube_armor_cluster_policy

unfoldable pub find : SecurityPolicy → List SecurityPolicy → Option SecurityPolicy
find p [] = none
find p (q ∷ qs) = if named p q then some q else find p qs

-- What an event does to the list: it returns at once with a status, or goes on with the type that
-- the event has then.
pub data HostChange : Type 0 where
  stops : PolicyStatus → HostChange
  goes_on : Text → List SecurityPolicy → HostChange

unfoldable pub status_of : Text → PolicyStatus
status_of action =
    if action == added
    then applied_status
    else if action == deleted
    then deleted_status
    else modified_status

module _ (deep_equal : SecurityPolicy → SecurityPolicy → Bool) where
  unfoldable pub store : SecurityPolicy → SecurityPolicy → List SecurityPolicy → HostChange
  store q p ps =
      if deep_equal q p then stops applied_status else goes_on modified (replace (named p) p ps)

  unfoldable pub host_change : Text → SecurityPolicy → List SecurityPolicy → HostChange
  host_change action p ps =
      if action == added
      then elim (find p ps) [ none ↦ goes_on added (ps ++ (p ∷ [])) | some q ↦ store q p ps ]
      else if action == modified
      then elim (find p ps) [ none ↦ goes_on modified ps | some q ↦ store q p ps ]
      else if action == deleted
      then if lists (named p) ps
        then goes_on deleted (remove (named p) ps)
        else stops not_exist_status
      else goes_on action ps

module _ (compile_posix : Text → Option (Text → Bool)) where
  unfoldable pub node_policies : List Text → List SecurityPolicy → List SecurityPolicy
  node_policies identities [] = []
  node_policies identities (p ∷ ps) =
      let rest = node_policies identities ps in
      if match_identities compile_posix p.spec.selector.identities identities
      then p ∷ rest
      else rest

  module _ {Regexp : Type 0} (compile : Text → Option Regexp) where
    unfoldable pub apply_host_policies : HostSettings → Host Regexp → Host Regexp
    apply_host_policies cfg h =
        let ps = node_policies cfg.identities h.policies in
        if cfg.host_policy
        then record h {
          feeder = update_host_security_policies compile (codes "UPDATED") ps h.feeder;
          enforced =
              if cfg.has_enforcer && h.feeder.node.policy_enabled == enabled
              then h.enforced ++ (ps ∷ [])
              else h.enforced;
        }
        else h

    module _ (deep_equal : SecurityPolicy → SecurityPolicy → Bool) where
      unfoldable pub finish_event :
          HostSettings → Host Regexp → HostChange → PolicyStatus × Host Regexp
      finish_event cfg h (stops status) = (status, h)
      finish_event cfg h (goes_on action ps) =
          (status_of action, apply_host_policies cfg (record h { policies = ps }))

      unfoldable pub parse_and_update_host_security_policy :
          HostSettings → Text → Text → CrdSpec → Host Regexp → PolicyStatus × Host Regexp
      parse_and_update_host_security_policy cfg action name crd h =
          finish_event cfg h
            (host_change deep_equal action (host_security_policy name crd) h.policies)
