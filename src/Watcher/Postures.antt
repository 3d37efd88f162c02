-- ===== src/Watcher/Postures.antt =====
-- kubeUpdate.go, the default postures of namespaces. An invalid annotation is replaced in Kubernetes,
-- which is left out. The values of the configuration map are an argument.
pub mod Points
use kube_armor.Base.{
  Bool, List, Option, false, get_or, if◌then◌else◌, none, not, some, true, ◌&&◌, ◌||◌, ◌++◌, ◌∷◌,
  [],
}
use kube_armor.Base.Comparable.{nat_eq, text_eq, ◌==◌}
use kube_armor.Base.GoMap.{GoMap, delete, get, put}
use kube_armor.Base.Text.{Text, codes}
use kube_armor.Feeder
use kube_armor.Feeder.State.{Config, EndPoint, Feeder, enabled}
use kube_armor.Policy.{DefaultPosture}
use kube_armor.Watcher.Points.{Daemon, Settings, deleted}
use kube_armor.Watcher.Selectors.{contains_element}

-- The posture, and whether it is the annotation's.
unfoldable pub validate_default_posture : Text → GoMap Text Text → Text → Text × Bool
validate_default_posture key annotations default = elim (get key annotations) [
  | none ↦ (default, false)
  | some posture ↦
      if posture == codes "audit" || posture == codes "Audit"
      then (codes "audit", true)
      else if posture == codes "block" || posture == codes "Block"
      then (codes "block", true)
      else (default, false)
]

unfoldable pub validate_global_default_posture : Text → Text
validate_global_default_posture posture =
    if posture == codes "audit" || posture == codes "Audit"
    then codes "audit"
    else if posture == codes "block" || posture == codes "Block"
    then codes "block"
    else codes "audit"

-- `UpdateGlobalPosture`
unfoldable pub update_global_posture : DefaultPosture → Config → Config
update_global_posture p cfg = record cfg {
  default_posture = record {
    file_action = validate_global_default_posture p.file_action;
    network_action = validate_global_default_posture p.network_action;
    capabilities_action = validate_global_default_posture p.capabilities_action;
  };
}

-- Two postures are the same structure.
unfoldable pub same_posture : DefaultPosture → DefaultPosture → Bool
same_posture p q =
    p.file_action == q.file_action
    && p.network_action == q.network_action
    && p.capabilities_action == q.capabilities_action

module _ {Regexp : Type 0} where
  -- The call of the enforcer for an end point whose posture has changed.
  unfoldable pub enforce : Settings → EndPoint → Daemon Regexp → Daemon Regexp
  enforce cfg e dm =
      if cfg.policy
        && cfg.has_enforcer
        && e.policy_enabled == enabled
        && not (contains_element cfg.untracked e.namespace_name)
      then record dm { enforced = dm.enforced ++ (e ∷ []) }
      else dm

  -- The round for one end point; those of the daemon are the ones before it.
  unfoldable pub posture_round :
      Settings → Text → DefaultPosture → EndPoint → Daemon Regexp → Daemon Regexp
  posture_round cfg namespace p e dm =
      let e' : EndPoint = record e { default_posture = p } in
      if namespace == e.namespace_name && not (same_posture e.default_posture p)
      then enforce cfg e' (record dm { end_points = dm.end_points ++ (e' ∷ []) })
      else record dm { end_points = dm.end_points ++ (e ∷ []) }

  unfoldable pub posture_rounds :
      Settings → Text → DefaultPosture → List EndPoint → Daemon Regexp → Daemon Regexp
  posture_rounds cfg namespace p [] dm = dm
  posture_rounds cfg namespace p (e ∷ es) dm =
      posture_rounds cfg namespace p es (posture_round cfg namespace p e dm)

  -- `UpdateDefaultPosture` of the daemon, which calls the feeder's.
  unfoldable pub update_default_posture :
      Settings → Text → Text → DefaultPosture → Bool → Daemon Regexp → Daemon Regexp
  update_default_posture cfg action namespace p annotated dm =
      let kept =
        if action == deleted then delete namespace dm.default_postures else dm.default_postures in
      let postures = if annotated then put namespace p kept else kept in
      posture_rounds cfg namespace p dm.end_points (record dm {
        default_postures = postures;
        feeder = Feeder.Postures.update_default_posture action namespace p dm.feeder;
        end_points = [];
      })
