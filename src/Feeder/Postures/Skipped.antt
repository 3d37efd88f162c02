-- ===== src/Feeder/Postures/Skipped.antt =====
-- policyMatcher.go: which logs `setLogFields` keeps.
use kube_armor.Base.{Bool, not, ◌&&◌, ◌||◌, ◌≡◌, arith}
use kube_armor.Base.Comparable.{text_eq, ◌==◌}
use kube_armor.Base.Text.{Text, codes}
use kube_armor.Base.{if◌then◌else◌}
use kube_armor.Feeder.Postures.{posture_log, set_log_fields}
use kube_armor.Feeder.State.{Log}

-- An auditing posture is met by what passed, a blocking one by what did not.
unfoldable pub posture_met : Text → Text → Bool
posture_met posture result =
    (posture == codes "audit" && result == codes "Passed")
    || (posture == codes "block" && not (result == codes "Passed"))

-- A log is kept exactly if it is of a container, or its kind is visible, or there is an allowing
-- policy whose default posture it meets.
pub set_log_fields-kept :
    (log : Log) (exist_allow_policy : Bool) (posture : Text) (visibility container_event : Bool)
    → (set_log_fields log exist_allow_policy posture visibility container_event).0
      ≡ container_event || visibility || (exist_allow_policy && posture_met posture log.result)
unfolding set_log_fields posture_met
set_log_fields-kept log exist_allow_policy posture visibility container_event = ground arith

-- A log is put down to the default posture exactly if there is an allowing policy whose default
-- posture it meets, and else keeps its policy.
pub set_log_fields-policy_name :
    (log : Log) (exist_allow_policy : Bool) (posture : Text) (visibility container_event : Bool)
    → (set_log_fields log exist_allow_policy posture visibility container_event).1.policy_name ≡ (
        if exist_allow_policy && posture_met posture log.result
        then codes "DefaultPosture"
        else log.policy_name)
unfolding set_log_fields posture_met posture_log
set_log_fields-policy_name log exist_allow_policy posture visibility container_event = ground arith
