-- ===== src/Watcher/Points/Announced.antt =====
-- kubeUpdate.go, `UpdateSecurityPolicy`: what the end points, the feeder and the enforcer are left with.
use mathlib.Core.List.{append-nil, append_assoc}
use kube_armor.Base.{
  Bool, List, Option, if◌then◌else◌, map, not, ◌&&◌, ◌++◌, ◌≡◌, ◌∷◌, [], arith, ap, sym, ◌∙◌,
}
use kube_armor.Base.Comparable.{nat_eq, text_eq, ◌==◌}
use kube_armor.Base.Text.{Text}
use kube_armor.Feeder.State.{EndPoint, enabled}
use kube_armor.Policy.{SecurityPolicy}
use kube_armor.Watcher.Selectors.{contains_element}
use kube_armor.Watcher.Points.{
  Daemon, PolicyType, Settings, announce, change_point, concerns, update_points, update_round,
  update_security_policy,
}

module _ (compile_posix : Text → Option (Text → Bool)) where
  -- An end point after the event.
  unfoldable pub changed : Text → PolicyType → SecurityPolicy → EndPoint → EndPoint
  changed action type p e =
      if concerns compile_posix type p e then change_point compile_posix action type p e else e

  -- Whether the enforcer is given the end point.
  unfoldable pub is_given : Settings → PolicyType → SecurityPolicy → EndPoint → Bool
  is_given cfg type p e =
      concerns compile_posix type p e
      && cfg.policy
      && (e.policy_enabled == enabled
          && not (contains_element cfg.untracked e.namespace_name)
          && cfg.has_enforcer)

  unfoldable pub given :
      Settings → Text → PolicyType → SecurityPolicy → List EndPoint → List EndPoint
  given cfg action type p [] = []
  given cfg action type p (e ∷ es) =
      let rest = given cfg action type p es in
      if is_given cfg type p e then change_point compile_posix action type p e ∷ rest else rest

module _ {Regexp : Type 0} (compile : Text → Option Regexp)
    (compile_posix : Text → Option (Text → Bool)) where
  end_points-update_round :
      (cfg : Settings) (action : Text) (type : PolicyType) (p : SecurityPolicy) (e : EndPoint)
      (dm : Daemon Regexp)
      → (update_round compile compile_posix cfg action type p e dm).end_points
        ≡ dm.end_points ++ (changed compile_posix action type p e ∷ [])
  unfolding update_round announce changed
  end_points-update_round cfg action type p e dm = ground arith

  enforced-update_round :
      (cfg : Settings) (action : Text) (type : PolicyType) (p : SecurityPolicy) (e : EndPoint)
      (dm : Daemon Regexp)
      → (update_round compile compile_posix cfg action type p e dm).enforced ≡ (
          if is_given compile_posix cfg type p e
          then dm.enforced ++ (change_point compile_posix action type p e ∷ [])
          else dm.enforced)
  unfolding update_round announce is_given change_point
  enforced-update_round cfg action type p e dm = ground arith

  end_points-update_points :
      (cfg : Settings) (action : Text) (type : PolicyType) (p : SecurityPolicy) (es : List EndPoint)
      (dm : Daemon Regexp)
      → (update_points compile compile_posix cfg action type p es dm).end_points
        ≡ dm.end_points ++ map (changed compile_posix action type p) es
  unfolding update_points
  end_points-update_points cfg action type p [] dm = sym (append-nil dm.end_points)
  end_points-update_points cfg action type p (e ∷ es) dm =
      let dm' : Daemon Regexp = update_round compile compile_posix cfg action type p e dm in
      end_points-update_points cfg action type p es dm'
      ∙ ap (λ xs. xs ++ map (changed compile_posix action type p) es)
          (end_points-update_round cfg action type p e dm)
      ∙ append_assoc dm.end_points (changed compile_posix action type p e ∷ [])
          (map (changed compile_posix action type p) es)

  enforced-update_points :
      (cfg : Settings) (action : Text) (type : PolicyType) (p : SecurityPolicy) (es : List EndPoint)
      (dm : Daemon Regexp)
      → (update_points compile compile_posix cfg action type p es dm).enforced
        ≡ dm.enforced ++ given compile_posix cfg action type p es
  unfolding update_points given
  enforced-update_points cfg action type p [] dm = sym (append-nil dm.enforced)
  enforced-update_points cfg action type p (e ∷ es) dm =
      let dm' : Daemon Regexp = update_round compile compile_posix cfg action type p e dm in
      let e' : EndPoint = change_point compile_posix action type p e in
      ground (
        arith,
        enforced-update_points cfg action type p es dm',
        enforced-update_round cfg action type p e dm,
        append_assoc dm.enforced (e' ∷ []) (given compile_posix cfg action type p es),
      )

  -- UpdateSecurityPolicy changes exactly the end points that the policy concerns, each by itself,
  -- and keeps their order; the enforcer is given, in this order, those of them that enforce
  -- policies and whose namespace is tracked, if policies are on and there is an enforcer.
  pub update_security_policy-Announced :
      (cfg : Settings) (action : Text) (type : PolicyType) (p : SecurityPolicy) (dm : Daemon Regexp)
      → ((update_security_policy compile compile_posix cfg action type p dm).end_points
          ≡ map (changed compile_posix action type p) dm.end_points)
        × ((update_security_policy compile compile_posix cfg action type p dm).enforced
            ≡ dm.enforced ++ given compile_posix cfg action type p dm.end_points)
  unfolding update_security_policy
  update_security_policy-Announced cfg action type p dm = (
    end_points-update_points cfg action type p dm.end_points (record dm { end_points = [] }),
    enforced-update_points cfg action type p dm.end_points (record dm { end_points = [] }),
  )
