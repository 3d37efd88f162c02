-- ===== src/Feeder/Matched/Reason.antt =====
-- policyMatcher.go, `UpdateMatchedPolicy`: the policies that the returned log can be put down to.
use mathlib.Core.Logic.{◌⊎◌}
use kube_armor.Base.{Bool, List, Option, false, true, ◌||◌, ◌≡◌, ◌∷◌, []}
use kube_armor.Base.Comparable.{text_eq, ◌==◌}
use kube_armor.Base.Ensures.{Ensures}
use kube_armor.Base.Text.{Text, codes}
use kube_armor.Feeder.Matched.Finish.{kept}
use kube_armor.Feeder.State.{Feeder, Log, MatchPolicy}

-- What the last stage does to the name of the policy.
Named : Log → Log → Type 0
Named old new =
    (new.policy_name ≡ old.policy_name)
    ⊎ ((new.policy_name ≡ codes "DefaultPosture") ⊎ (new.policy_name ≡ []))

-- The same for what is kept of a result.
KeptNamed : Log → Option (Bool × Log) → Type 0
KeptNamed old r = Named old (kept r)

module _ {Regexp : Type 0} where
  unfoldable pub has_policy : Text → List (MatchPolicy Regexp) → Bool
  has_policy name [] = false
  has_policy name (m ∷ ms) = m.policy_name == name || has_policy name ms

  -- No policy, the one that the log named before, the default posture or a policy of the list.
  unfoldable pub Reasoned : List (MatchPolicy Regexp) → Log → Log → Type 0
  Reasoned ms old new =
      (new.policy_name ≡ old.policy_name)
      ⊎ ((new.policy_name ≡ codes "DefaultPosture") ⊎ (has_policy new.policy_name ms ≡ true))
