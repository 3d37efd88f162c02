-- ===== src/Feeder/Matched/Decided.antt =====
-- policyMatcher.go, `UpdateMatchedPolicy`: once a policy has set `skip`, it stands.
use kube_armor.Base.{
  Bool, List, false, is_empty, some, true, ◌||◌, ◌≡◌, ◌∷◌, [], ap, arith, refl, ◌∙◌,
}
use kube_armor.Base.Comparable.{equal_refl, text_beq, text_eq, ◌==◌}
use kube_armor.Base.Text.{Text, codes}
use kube_armor.Feeder.Matched.Alerts.{
  Scan, allows, enforcer_of, passed, set_match, set_policy, set_tags,
}
use kube_armor.Feeder.Matched.Files.{
  Patterns, block_met, file_hit, file_rule, file_source, matched_regex, step_file,
}
use kube_armor.Feeder.Matched.Finish.{alert, finish, finish_container, posture_of}
use kube_armor.Feeder.Matched.Loop.{
  comparable_result, first_scan, note_allow, policies_of, round, scan, step, update_matched_policy,
}
use kube_armor.Feeder.Matched.Shared.{step_network}
use kube_armor.Feeder.Resources.{match_resources}
use kube_armor.Feeder.State.{Config, Feeder, Log, MatchPolicy}
use kube_armor.Policy.{DefaultPosture}

-- Processes, files and networks are matched once.
unfoldable pub matched_once : Text → Bool
matched_once op = op == codes "Process" || op == codes "File" || op == codes "Network"

-- The scan is over, and this is the log.
unfoldable pub Decided : Log → Scan → Type 0
Decided log s = (s.log ≡ log) × (s.skip ≡ true)

block_action :
    (action : Text)
    → action ≡ codes "Block"
    → ((action == codes "Block") ≡ true) × ((action == codes "Audit") ≡ false)
unfolding text_beq
block_action action e = (ap (λ a. a == codes "Block") e, ap (λ a. a == codes "Audit") e)

module _ {Regexp : Type 0} where
  finish-alert :
      (cfg : Config) (fd : Feeder Regexp) (s : Scan) (log : Log)
      → s.log ≡ log
      → log.type_name ≡ codes "MatchedPolicy"
      → is_empty log.container_id ≡ false
      → passed log ≡ false
      → finish cfg fd s ≡ (log, fd)
  unfolding finish finish_container alert
  finish-alert cfg fd s log e t c r = ground (
    arith,
    e,
    t,
    c,
    r,
    ap is_empty t,
    ap (λ l. l.container_id) e,
    ap (λ l. l.type_name) e,
    ap passed e,
    equal_refl (codes "MatchedPolicy"),
  )

  note_allow-Decided :
      (m : MatchPolicy Regexp) (log : Log) (s : Scan) → Decided log s → Decided log (note_allow m s)
  unfolding Decided note_allow
  note_allow-Decided m log s h = ground (arith, h)

  step-Decided :
      (ps : Patterns Regexp) (enforcer : Text) (p : DefaultPosture) (last : Bool)
      (m : MatchPolicy Regexp) (log : Log) (s : Scan)
      → matched_once log.operation ≡ true
      → Decided log s
      → step ps enforcer p last m s ≡ some s
  unfolding step step_file step_network matched_once Decided
  step-Decided ps enforcer p last m log s h k = ground (arith, h, k)

  round-Decided :
      (ps : Patterns Regexp) (enforcer : Text) (p : DefaultPosture) (last : Bool)
      (m : MatchPolicy Regexp) (log : Log) (s : Scan)
      → matched_once log.operation ≡ true
      → Decided log s
      → (t : Scan) × ((round ps enforcer p last m s ≡ some t) × Decided log t)
  unfolding round
  round-Decided ps enforcer p last m log s h k =
      let t = note_allow m s in
      let d = note_allow-Decided m log s k in
      let e = step-Decided ps enforcer p last m log t h d in (t, (ground (arith, e), d))

  scan-round :
      (ps : Patterns Regexp) (enforcer : Text) (p : DefaultPosture) (m : MatchPolicy Regexp)
      (ms : List (MatchPolicy Regexp)) (s t : Scan)
      → round ps enforcer p (is_empty ms) m s ≡ some t
      → scan ps enforcer p (m ∷ ms) s ≡ scan ps enforcer p ms t
  unfolding scan
  scan-round ps enforcer p m ms s t e = rw (scan, e)

  scan-Decided :
      (ps : Patterns Regexp) (enforcer : Text) (p : DefaultPosture) (ms : List (MatchPolicy Regexp))
      (log : Log) (s : Scan)
      → matched_once log.operation ≡ true
      → Decided log s
      → (t : Scan) × ((scan ps enforcer p ms s ≡ some t) × Decided log t)
  unfolding scan
  scan-Decided ps enforcer p [] log s h k = (s, (refl, k))
  scan-Decided ps enforcer p (m ∷ ms) log s h k =
      let r = round-Decided ps enforcer p (is_empty ms) m log s h k in
      let rest = scan-Decided ps enforcer p ms log r.0 h r.1.1 in
      (rest.0, (scan-round ps enforcer p m ms s r.0 r.1.0 ∙ rest.1.0, rest.1.1))

  -- A rule that blocks, and that the source and the resource of the log meet.
  unfoldable pub Blocks : Patterns Regexp → MatchPolicy Regexp → Log → Type 0
  Blocks ps m log =
      (m.action ≡ codes "Block")
      × ((m.operation ≡ log.operation)
          × ((file_source m log ≡ true)
              × ((matched_regex ps m log || match_resources m log) ≡ true)))

  allows-Block : (m : MatchPolicy Regexp) → m.action ≡ codes "Block" → allows m ≡ false
  unfolding allows text_beq
  allows-Block m e = ap (λ a. a == codes "Allow" || a == codes "Audit (Allow)") e

  file_hit-Block :
      (enforcer : Text) (m : MatchPolicy Regexp) (s : Scan)
      → m.action ≡ codes "Block"
      → passed s.log ≡ false
      → file_hit enforcer m s
        ≡ some (record s {
          log = set_match (enforcer_of enforcer s.log) m.action m s.log;
          skip = true;
        })
  unfolding file_hit block_met
  file_hit-Block enforcer m s e r = ground (arith, r, allows-Block m e, block_action m.action e)

  step_file-Block :
      (ps : Patterns Regexp) (enforcer posture : Text) (m : MatchPolicy Regexp) (s : Scan)
      → s.skip ≡ false
      → passed s.log ≡ false
      → Blocks ps m s.log
      → step_file ps enforcer posture m s
        ≡ record s { log = set_match (enforcer_of enforcer s.log) m.action m s.log; skip = true }
  unfolding step_file file_rule Blocks
  step_file-Block ps enforcer posture m s k r b = ground (
    arith,
    k,
    b,
    file_hit-Block enforcer m s b.0 r,
    ap (λ o. o == s.log.operation) b.1.0,
    equal_refl s.log.operation,
  )

  note_allow-Block :
      (m : MatchPolicy Regexp) (s : Scan) → m.action ≡ codes "Block" → note_allow m s ≡ s
  unfolding note_allow
  note_allow-Block m s e = ground (arith, allows-Block m e)

  round-Block :
      (ps : Patterns Regexp) (enforcer : Text) (p : DefaultPosture) (last : Bool)
      (m : MatchPolicy Regexp) (s : Scan)
      → (s.log.operation == codes "Process" || s.log.operation == codes "File") ≡ true
      → m.action ≡ codes "Block"
      → round ps enforcer p last m s ≡ some (step_file ps enforcer p.file_action m s)
  unfolding round step
  round-Block ps enforcer p last m s h e =
      ground (arith, h, allows-Block m e, note_allow-Block m s e)

  scan-Block :
      (ps : Patterns Regexp) (enforcer : Text) (p : DefaultPosture) (m : MatchPolicy Regexp)
      (ms : List (MatchPolicy Regexp)) (log : Log)
      → (log.operation == codes "Process" || log.operation == codes "File") ≡ true
      → passed log ≡ false
      → Blocks ps m log
      → (t : Scan) × ((scan ps enforcer p (m ∷ ms) (first_scan log) ≡ some t)
          × Decided (set_match (enforcer_of enforcer log) m.action m log) t)
  unfolding Blocks Decided set_match set_policy set_tags matched_once
  scan-Block ps enforcer p m ms log op r b =
      let s = first_scan log in
      let log₁ = set_match (enforcer_of enforcer log) m.action m log in
      let s₁ : Scan = record (first_scan log) { log = log₁; skip = true } in
      let one =
        round-Block ps enforcer p (is_empty ms) m s op b.0
        ∙ ap some (step_file-Block ps enforcer p.file_action m s refl r b) in
      let rest = scan-Decided ps enforcer p ms log₁ s₁ (ground (arith, op)) (refl, refl) in
      (rest.0, (scan-round ps enforcer p m ms s s₁ one ∙ rest.1.0, rest.1.1))

  -- An execution or file access of a container, without a type yet, with a result that policies
  -- are compared with and that is not Passed, and a first policy of its end point that blocks it:
  -- whatever policies follow, the log is returned as the alert of that policy.
  pub update_matched_policy-Block :
      (ps : Patterns Regexp) (cfg : Config) (fd : Feeder Regexp) (log : Log)
      (m : MatchPolicy Regexp) (ms : List (MatchPolicy Regexp))
      → (log.operation == codes "Process" || log.operation == codes "File") ≡ true
      → passed log ≡ false
      → comparable_result log ≡ true
      → log.type_name ≡ []
      → is_empty log.container_id ≡ false
      → policies_of cfg fd log ≡ m ∷ ms
      → Blocks ps m log
      → update_matched_policy ps cfg log fd
        ≡ some (set_match (enforcer_of fd.enforcer log) (codes "Block") m log, fd)
  unfolding update_matched_policy Decided Blocks text_beq set_match set_tags set_policy passed
  update_matched_policy-Block ps cfg fd log m ms op r c t i e b =
      let found = scan-Block ps fd.enforcer (posture_of fd log.namespace_name) m ms log op r b in
      let log₁ = set_match (enforcer_of fd.enforcer log) m.action m log in
      let done : finish cfg fd found.0 ≡ (log₁, fd) =
        finish-alert cfg fd found.0 log₁ found.1.1.0 refl i r in
      let named : log₁ ≡ set_match (enforcer_of fd.enforcer log) (codes "Block") m log =
        ap (λ a. set_match (enforcer_of fd.enforcer log) a m log) b.0 in
      let not_system : (log.type_name == codes "SystemEvent") ≡ false =
        ap (λ name. name == codes "SystemEvent") t in
      rw (update_matched_policy, c, not_system, e, found.1.0, done, named)
