-- ===== src/Feeder/Matched/Allowed.antt =====
-- policyMatcher.go, `UpdateMatchedPolicy`: an event that a policy allows is no alert.
use kube_armor.Base.{Bool, Option, false, none, some, true, ◌&&◌, ◌||◌, ◌≡◌, [], ap, arith, refl}
use kube_armor.Base.Comparable.{text_beq, text_beq_iff, text_eq, ◌==◌}
use kube_armor.Base.Ensures.{Ensures, bind-Ensures, if_cases, if_else, some-Ensures}
use kube_armor.Base.Text.{Text, codes}
use kube_armor.Feeder.Matched.Alerts.{Scan, passed}
use kube_armor.Feeder.Matched.Files.{Patterns}
use kube_armor.Feeder.Matched.Finish.{
  alert, default_fields, finish, finish_container, finish_host, host_alert, kept, posture_of,
  with_posture,
}
use kube_armor.Feeder.Matched.Loop.{first_scan, update_matched_policy}
use kube_armor.Feeder.Postures.{posture_log, set_log_fields}
use kube_armor.Feeder.State.{Config, Feeder, Log, empty_log}
use kube_armor.Policy.{DefaultPosture}

-- An alert of a container or of the host.
unfoldable pub is_alert : Log → Bool
is_alert log = log.type_name == codes "MatchedPolicy" || log.type_name == codes "MatchedHostPolicy"

unfoldable pub is_allowed : Log → Bool
is_allowed log = log.action == codes "Allow" && passed log

-- No alert of an event that was allowed and passed.
unfoldable pub Silent : Log → Type 0
Silent log = (is_alert log && is_allowed log) ≡ false

KeptSilent : Option (Bool × Log) → Type 0
KeptSilent r = Silent (kept r)

empty-Silent : Silent empty_log
unfolding Silent is_alert is_allowed text_beq passed
empty-Silent = refl

nothing-Silent : KeptSilent none
unfolding KeptSilent kept
nothing-Silent = empty-Silent

not_allowed-Silent : (log : Log) → is_allowed log ≡ false → Silent log
unfolding Silent
not_allowed-Silent log h = ground (arith, h)

not_alert-Silent : (log : Log) → is_alert log ≡ false → Silent log
unfolding Silent
not_alert-Silent log h = ground (arith, h)

system_event-Silent : (log : Log) → (log.type_name == codes "SystemEvent") ≡ true → Silent log
unfolding is_alert text_beq
system_event-Silent log h = not_alert-Silent log (
    ap (λ name. name == codes "MatchedPolicy" || name == codes "MatchedHostPolicy")
      ((text_beq_iff log.type_name (codes "SystemEvent")).0 h))

PairSilent : Bool × Log → Type 0
PairSilent r = KeptSilent (some r)

-- The alert of a default posture.
posture_log-Silent :
    (container : Bool) (action : Text) (log : Log)
    → (action == codes "Allow") ≡ false
    → PairSilent (true, posture_log container action log)
unfolding PairSilent KeptSilent kept posture_log is_allowed
posture_log-Silent container action log h =
    not_allowed-Silent (posture_log container action log) (ground (arith, h))

container_log-Silent :
    (log : Log) → PairSilent (true, record log { type_name = codes "ContainerLog" })
unfolding PairSilent KeptSilent kept is_alert text_beq
container_log-Silent log = not_alert-Silent (record log { type_name = codes "ContainerLog" }) refl

host_log-Silent :
    (visibility : Bool) (log : Log)
    → PairSilent (visibility, record log { type_name = codes "HostLog" })
unfolding PairSilent KeptSilent kept is_alert text_beq
host_log-Silent visibility log =
    let out : Log = record log { type_name = codes "HostLog" } in
    if_else Silent visibility out empty_log (not_alert-Silent out refl) empty-Silent

set_log_fields-PairSilent :
    (log : Log) (exist : Bool) (posture : Text) (visibility container : Bool)
    → PairSilent (set_log_fields log exist posture visibility container)
unfolding set_log_fields text_beq
set_log_fields-PairSilent log exist posture visibility container =
    if_else PairSilent _ _ _ (posture_log-Silent container (codes "Audit") log refl) (
      if_else PairSilent _ _ _ (posture_log-Silent container (codes "Block") log refl)
        (if_else PairSilent _ _ _ (container_log-Silent log) (host_log-Silent visibility log)))

set_log_fields-Silent :
    (log : Log) (exist : Bool) (posture : Text) (visibility container : Bool)
    → KeptSilent (some (set_log_fields log exist posture visibility container))
unfolding PairSilent
set_log_fields-Silent log exist posture visibility container =
    set_log_fields-PairSilent log exist posture visibility container

default_fields-Silent :
    (p : DefaultPosture) (process file network capabilities container : Bool) (s : Scan)
    → KeptSilent (default_fields p process file network capabilities container s)
unfolding default_fields
default_fields-Silent p process file network capabilities container s =
    let fields = set_log_fields-Silent s.log in
    if_else KeptSilent _ _ _ (fields s.file_allow p.file_action process container) (
      if_else KeptSilent _ _ _ (fields s.file_allow p.file_action file container) (
        if_else KeptSilent _ _ _ (fields s.network_allow p.network_action network container) (
          if_else KeptSilent _ _ _
            (fields s.capabilities_allow p.capabilities_action capabilities container)
            (if_else KeptSilent _ _ _ (fields false [] true container) nothing-Silent))))

alert-Silent : (log : Log) → Silent (alert log)
unfolding alert is_allowed
alert-Silent log =
    if_else Silent _ _ _ empty-Silent
      (if_cases Silent _ _ _ (λ h. empty-Silent) (not_allowed-Silent log))

host_alert-Silent : (log : Log) → Silent (host_alert log)
unfolding host_alert is_allowed passed
host_alert-Silent log =
    let out : Log = record log { type_name = codes "MatchedHostPolicy" } in
    if_else Silent _ _ _ empty-Silent
      (if_cases Silent _ _ out (λ h. empty-Silent) (not_allowed-Silent out))

module _ {Regexp : Type 0} where
  finish-Silent : (cfg : Config) (fd : Feeder Regexp) (s : Scan) → Silent (finish cfg fd s).0
  unfolding finish finish_container finish_host KeptSilent
  finish-Silent cfg fd s =
      let P : Log × Feeder Regexp → Type 0 = λ r. Silent r.0 in
      let fd' : Feeder Regexp = with_posture cfg s.log.namespace_name fd in
      if_else P _ _ _
        (if_else P _ _ _
          (default_fields-Silent cfg.default_posture fd.node.process_visibility
            fd.node.file_visibility fd.node.network_visibility fd.node.capabilities_visibility false
            s)
          (host_alert-Silent s.log))
        (if_else P _ _ _
          (default_fields-Silent (posture_of fd' s.log.namespace_name) s.log.process_visibility
            s.log.file_visibility s.log.network_visibility s.log.capabilities_visibility true s)
          (alert-Silent s.log))

  -- Whatever the policies and the log are, `UpdateMatchedPolicy` does not return an alert, of a
  -- container or of the host, whose action is Allow and whose event passed.
  pub update_matched_policy-Silent :
      (ps : Patterns Regexp) (cfg : Config) (fd : Feeder Regexp) (log : Log)
      (r : Log × Feeder Regexp)
      → update_matched_policy ps cfg log fd ≡ some r
      → Silent r.0
  unfolding update_matched_policy
  update_matched_policy-Silent ps cfg fd log =
      let C : Log × Feeder Regexp → Type 0 = λ r. Silent r.0 in
      let finished : (s : Scan) → Ensures C (some (finish cfg fd s)) =
        λ s. some-Ensures C (finish cfg fd s) (finish-Silent cfg fd s) in
      if_else (Ensures C) _ _ _ (finished (first_scan log)) (
        if_cases (Ensures C) _ _ _ (λ h. some-Ensures C (log, fd) (system_event-Silent log h))
          (λ h. bind-Ensures C _ _ (λ s e. finished s)))
