-- ===== src/Watcher/Postures/Points.antt =====
-- kubeUpdate.go, `UpdateDefaultPosture`: the end points and the calls of the enforcer.
use mathlib.Core.List.{append-nil, append_assoc}
use kube_armor.Base.{
  Bool, List, if◌then◌else◌, map, not, true, ◌&&◌, ◌++◌, ◌≡◌, ◌∷◌, [], ap, arith, sym, ◌∙◌,
}
use kube_armor.Base.Comparable.{nat_eq, text_beq_iff, text_eq, ◌==◌}
use kube_armor.Base.Text.{Text}
use kube_armor.Feeder.State.{EndPoint, enabled}
use kube_armor.Policy.{DefaultPosture}
use kube_armor.Watcher.Points.{Daemon, Settings}
use kube_armor.Watcher.Postures.{
  enforce, posture_round, posture_rounds, same_posture, update_default_posture,
}
use kube_armor.Watcher.Selectors.{contains_element}

-- An end point with the posture of its namespace.
unfoldable pub with_namespace_posture : Text → DefaultPosture → EndPoint → EndPoint
with_namespace_posture namespace p e =
    if namespace == e.namespace_name then record e { default_posture = p } else e

-- Whether the enforcer is told of the end point.
unfoldable pub is_told : Settings → Text → DefaultPosture → EndPoint → Bool
is_told cfg namespace p e =
    (namespace == e.namespace_name && not (same_posture e.default_posture p))
    && (cfg.policy
        && cfg.has_enforcer
        && e.policy_enabled == enabled
        && not (contains_element cfg.untracked e.namespace_name))

unfoldable pub told : Settings → Text → DefaultPosture → List EndPoint → List EndPoint
told cfg namespace p [] = []
told cfg namespace p (e ∷ es) =
    let rest = told cfg namespace p es in
    if is_told cfg namespace p e then with_namespace_posture namespace p e ∷ rest else rest

same_posture-eq : (p q : DefaultPosture) → same_posture p q ≡ true → p ≡ q
unfolding same_posture
same_posture-eq p q h = ground (
  arith,
  h,
  text_beq_iff p.file_action q.file_action,
  text_beq_iff p.network_action q.network_action,
  text_beq_iff p.capabilities_action q.capabilities_action,
)

module _ {Regexp : Type 0} where
  end_points-posture_round :
      (cfg : Settings) (namespace : Text) (p : DefaultPosture) (e : EndPoint) (dm : Daemon Regexp)
      → (posture_round cfg namespace p e dm).end_points
        ≡ dm.end_points ++ (with_namespace_posture namespace p e ∷ [])
  unfolding posture_round enforce with_namespace_posture
  end_points-posture_round cfg namespace p e dm =
      ground (arith, same_posture-eq e.default_posture p)

  enforced-posture_round :
      (cfg : Settings) (namespace : Text) (p : DefaultPosture) (e : EndPoint) (dm : Daemon Regexp)
      → (posture_round cfg namespace p e dm).enforced ≡ (
          if is_told cfg namespace p e
          then dm.enforced ++ (with_namespace_posture namespace p e ∷ [])
          else dm.enforced)
  unfolding posture_round enforce with_namespace_posture is_told
  enforced-posture_round cfg namespace p e dm = ground arith

  end_points-posture_rounds :
      (cfg : Settings) (namespace : Text) (p : DefaultPosture) (es : List EndPoint)
      (dm : Daemon Regexp)
      → (posture_rounds cfg namespace p es dm).end_points
        ≡ dm.end_points ++ map (with_namespace_posture namespace p) es
  unfolding posture_rounds
  end_points-posture_rounds cfg namespace p [] dm = sym (append-nil dm.end_points)
  end_points-posture_rounds cfg namespace p (e ∷ es) dm =
      let e' : EndPoint = with_namespace_posture namespace p e in
      end_points-posture_rounds cfg namespace p es (posture_round cfg namespace p e dm)
      ∙ ap (λ xs. xs ++ map (with_namespace_posture namespace p) es)
          (end_points-posture_round cfg namespace p e dm)
      ∙ append_assoc dm.end_points (e' ∷ []) (map (with_namespace_posture namespace p) es)

  enforced-posture_rounds :
      (cfg : Settings) (namespace : Text) (p : DefaultPosture) (es : List EndPoint)
      (dm : Daemon Regexp)
      → (posture_rounds cfg namespace p es dm).enforced ≡ dm.enforced ++ told cfg namespace p es
  unfolding posture_rounds told
  enforced-posture_rounds cfg namespace p [] dm = sym (append-nil dm.enforced)
  enforced-posture_rounds cfg namespace p (e ∷ es) dm = ground (
    arith,
    enforced-posture_rounds cfg namespace p es (posture_round cfg namespace p e dm),
    enforced-posture_round cfg namespace p e dm,
    append_assoc dm.enforced (with_namespace_posture namespace p e ∷ []) (told cfg namespace p es),
  )

  -- UpdateDefaultPosture gives every end point of the namespace the posture and leaves the others,
  -- and the enforcer is told of exactly those whose posture changed, that enforce policies and
  -- whose namespace is tracked, if policies are on and there is an enforcer.
  pub update_default_posture-told :
      (cfg : Settings) (action namespace : Text) (p : DefaultPosture) (annotated : Bool)
      (dm : Daemon Regexp)
      → ((update_default_posture cfg action namespace p annotated dm).end_points
          ≡ map (with_namespace_posture namespace p) dm.end_points)
        × ((update_default_posture cfg action namespace p annotated dm).enforced
            ≡ dm.enforced ++ told cfg namespace p dm.end_points)
  unfolding update_default_posture
  update_default_posture-told cfg action namespace p annotated dm = (
    end_points-posture_rounds cfg namespace p dm.end_points _,
    enforced-posture_rounds cfg namespace p dm.end_points _,
  )
