-- ===== src/Feeder/Matched/Alerts.antt =====
-- policyMatcher.go, `UpdateMatchedPolicy`: what a policy or a default posture writes into a log.
use kube_armor.Base.{Bool, Option, if◌then◌else◌, is_empty, none, not, some, ◌&&◌, ◌||◌, []}
use kube_armor.Base.Comparable.{nat_eq, text_eq, ◌==◌}
use kube_armor.Base.Text.{Text, codes, join}
use kube_armor.Feeder.State.{Log, MatchPolicy, audited}

-- The state of the loop over the policies: the log, and the variables declared before the loop.
pub record Scan : Type 0 where
  pub log : Log
  pub skip : Bool
  pub file_allow : Bool
  pub network_allow : Bool
  pub capabilities_allow : Bool

unfoldable pub passed : Log → Bool
passed log = log.result == codes "Passed"

unfoldable pub set_posture : Text → Log → Log
set_posture action log = record log {
  type_name = codes "MatchedPolicy";
  policy_name = codes "DefaultPosture";
  severity = [];
  tags = [];
  message = [];
  enforcer = codes "eBPF Monitor";
  action = action;
}

module _ {Regexp : Type 0} where
  unfoldable pub allows : MatchPolicy Regexp → Bool
  allows m = m.action == codes "Allow" || m.action == codes "Audit (Allow)"

  -- The fields of the policy, without the list of its tags.
  unfoldable pub set_policy : MatchPolicy Regexp → Log → Log
  set_policy m log = record log {
    type_name = codes "MatchedPolicy";
    policy_name = m.policy_name;
    severity = m.severity;
    tags = if is_empty m.tags then log.tags else join b',' m.tags;
    message = if is_empty m.message then log.message else m.message;
  }

  unfoldable pub set_tags : MatchPolicy Regexp → Log → Log
  set_tags m log = record log { a_tags = if is_empty m.tags then log.a_tags else m.tags }

  -- The fields of the policy, then the enforcer and the action.
  unfoldable pub set_match : Text → Text → MatchPolicy Regexp → Log → Log
  set_match enforcer action m log = record (set_tags m (set_policy m log)) {
    enforcer = enforcer;
    action = action;
  }

  -- The same without the list of the tags.
  unfoldable pub set_plain : Text → Text → MatchPolicy Regexp → Log → Log
  set_plain enforcer action m log = record (set_policy m log) {
    enforcer = enforcer;
    action = action;
  }

unfoldable pub enforcer_of : Text → Log → Text
enforcer_of enforcer log = if log.policy_enabled == audited then codes "eBPF Monitor" else enforcer

-- The default postures after a network or capability rule, for the posture of that kind.
unfoldable pub posture_after : {Regexp : Type 0} → Text → MatchPolicy Regexp → Log → Log
posture_after posture m log =
    let log₁ =
      if posture == codes "block" && m.action == codes "Audit (Allow)" && passed log
      then set_posture (codes "Audit (Block)") log
      else log in
    if posture == codes "audit" && allows m && passed log₁
    then set_posture (codes "Audit") log₁
    else log₁

-- What an allowing rule does that does not name the resource: some if the loop continues.
unfoldable pub violation : {Regexp : Type 0} → Text → MatchPolicy Regexp → Log → Option Log
violation posture m log =
    if m.action == codes "Allow" && not (passed log)
    then some (set_posture (codes "Block") log)
    else if m.action == codes "Audit (Allow)" && passed log
    then some (
        set_posture (if posture == codes "block" then codes "Audit (Block)" else codes "Audit") log)
    else none
