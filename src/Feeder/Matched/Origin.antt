-- ===== src/Feeder/Matched/Origin.antt =====
-- policyMatcher.go, `UpdateMatchedPolicy`: the policies that a log can be put down to.
use mathlib.Core.Logic.{◌⊎◌, inl}
use kube_armor.Base.{Bool, List, some, ◌≡◌, ◌∷◌, [], arith, refl}
use kube_armor.Base.Comparable.{text_eq}
use kube_armor.Base.Ensures.{get_or-Ensures, if-Ensures, if_else, or_else-Ensures}
use kube_armor.Base.Text.{Text, codes, split}
use kube_armor.Feeder.Matched.Alerts.{
  Scan, posture_after, set_match, set_plain, set_policy, set_posture, set_tags, violation,
}
use kube_armor.Feeder.Matched.Files.{
  Patterns, clear_tags, file_hit, file_posture, file_rule, file_violation, step_file,
}
use kube_armor.Feeder.Matched.Loop.{note_allow, round, step}
use kube_armor.Feeder.Matched.Shared.{
  capability_hit, capability_rule, network_rule, rule_hit, step_capability, step_network,
}
use kube_armor.Feeder.Matched.Syscalls.{step_syscall}
use kube_armor.Policy.{DefaultPosture}
use kube_armor.Feeder.State.{Log, MatchPolicy}

module _ {Regexp : Type 0} where
  -- A name that was there, or that the policy or a default posture gives.
  unfoldable pub From : MatchPolicy Regexp → Log → Log → Type 0
  From m old new =
      (new.policy_name ≡ old.policy_name)
      ⊎ ((new.policy_name ≡ codes "DefaultPosture") ⊎ (new.policy_name ≡ m.policy_name))

  file_hit-From :
      (enforcer : Text) (m : MatchPolicy Regexp) (s s' : Scan)
      → file_hit enforcer m s ≡ some s'
      → From m s.log s'.log
  unfolding file_hit From set_match set_policy set_tags
  file_hit-From enforcer m s s' h = ground (arith, h)

  violation-From :
      (posture : Text) (m : MatchPolicy Regexp) (log log' : Log)
      → violation posture m log ≡ some log'
      → From m log log'
  unfolding violation From set_posture
  violation-From posture m log log' h = ground (arith, h)

  file_violation-From :
      (posture : Text) (m : MatchPolicy Regexp) (s s' : Scan)
      → file_violation posture m s ≡ some s'
      → From m s.log s'.log
  unfolding file_violation From clear_tags violation set_posture
  file_violation-From posture m s s' h = ground (arith, h)

  file_posture-From :
      (posture : Text) (m : MatchPolicy Regexp) (log : Log)
      → From m log (file_posture posture m log)
  unfolding file_posture From clear_tags set_posture
  file_posture-From posture m log = ground arith

  same : (m : MatchPolicy Regexp) (log : Log) → From m log log
  unfolding From
  same m log = inl refl

  step_file-From :
      (ps : Patterns Regexp) (enforcer posture : Text) (m : MatchPolicy Regexp) (s : Scan)
      → From m s.log (step_file ps enforcer posture m s).log
  unfolding step_file file_rule
  step_file-From ps enforcer posture m s =
      let P : Scan → Type 0 = λ s'. From m s.log s'.log in
      if_else P _ _ _ (same m s.log) (
        get_or-Ensures P _ _
          (if-Ensures P _ _ (
            or_else-Ensures P _ _ (if-Ensures P _ _ (file_hit-From enforcer m s))
              (file_violation-From posture m s)))
          (file_posture-From posture m s.log))

  rule_hit-From :
      (enforcer : Text) (m : MatchPolicy Regexp) (log log' : Log)
      → rule_hit enforcer m log ≡ some log'
      → From m log log'
  unfolding rule_hit From set_match set_plain set_policy set_tags
  rule_hit-From enforcer m log log' h = ground (arith, h)

  posture_after-From :
      (posture : Text) (m : MatchPolicy Regexp) (log : Log)
      → From m log (posture_after posture m log)
  unfolding posture_after From set_posture
  posture_after-From posture m log = ground arith

  network_rule-From :
      (last : Bool) (enforcer posture : Text) (m : MatchPolicy Regexp) (s s' : Scan)
      → network_rule last enforcer posture m s ≡ some s'
      → From m s.log s'.log
  unfolding network_rule rule_hit violation From set_match set_plain set_policy set_tags set_posture
  network_rule-From last enforcer posture m s s' h = ground (arith, h)

  step_network-From :
      (last : Bool) (enforcer posture : Text) (m : MatchPolicy Regexp) (s : Scan)
      → From m s.log (step_network last enforcer posture m s).log
  unfolding step_network
  step_network-From last enforcer posture m s =
      let P : Scan → Type 0 = λ s'. From m s.log s'.log in
      if_else P _ _ _ (same m s.log) (
        get_or-Ensures P _ _ (if-Ensures P _ _ (network_rule-From last enforcer posture m s))
          (posture_after-From posture m s.log))

  capability_hit-From :
      (enforcer : Text) (m : MatchPolicy Regexp) (caps : List Text) (log log' : Log)
      → capability_hit enforcer m caps log ≡ some log'
      → From m log log'
  unfolding capability_hit
  capability_hit-From enforcer m [] log log' h = cc
  capability_hit-From enforcer m (cap ∷ caps) log log' h =
      ground
        (arith, h, rule_hit-From enforcer m log log', capability_hit-From enforcer m caps log log')

  step_capability-From :
      (enforcer posture : Text) (m : MatchPolicy Regexp) (s : Scan)
      → From m s.log (step_capability enforcer posture m s).log
  unfolding step_capability capability_rule
  step_capability-From enforcer posture m s =
      let P : Log → Type 0 = From m s.log in
      if_else (λ (s' : Scan). From m s.log s'.log) _ _ _ (same m s.log)
        (get_or-Ensures P _ _
          (if-Ensures P _ _ (
            or_else-Ensures P _ _ (capability_hit-From enforcer m (split b',' m.resource) s.log)
              (violation-From posture m s.log)))
          (posture_after-From posture m s.log))

  step_syscall-From :
      (m : MatchPolicy Regexp) (s s' : Scan) → step_syscall m s ≡ some s' → From m s.log s'.log
  unfolding step_syscall From set_policy
  step_syscall-From m s s' h = ground (arith, h)

  note_allow-log : (m : MatchPolicy Regexp) (s : Scan) → (note_allow m s).log ≡ s.log
  unfolding note_allow
  note_allow-log m s = ground arith

  pub round-From :
      (ps : Patterns Regexp) (enforcer : Text) (p : DefaultPosture) (last : Bool)
      (m : MatchPolicy Regexp) (s s' : Scan)
      → round ps enforcer p last m s ≡ some s'
      → From m s.log s'.log
  unfolding round step From
  round-From ps enforcer p last m s s' h =
      let t = note_allow m s in
      ground (
        arith,
        h,
        note_allow-log m s,
        step_file-From ps enforcer p.file_action m t,
        step_network-From last enforcer p.network_action m t,
        step_capability-From enforcer p.capabilities_action m t,
        step_syscall-From m t s',
      )
