-- ===== src/Feeder/Matched/Overwritten.antt =====
-- policyMatcher.go, `UpdateMatchedPolicy`: a rule on capabilities does not see what an earlier one
-- found, since its `skip` is declared anew.
use kube_armor.Base.{
  Bool, List, any, false, none, some, true, ◌∷◌, [], ◌≡◌, ap, arith, ◌∙◌, refl, sym,
}
use kube_armor.Base.Comparable.{equal_refl, text_beq, text_eq, ◌==◌}
use kube_armor.Base.Text.{Text, codes, contains, split}
use kube_armor.Feeder.Matched.Alerts.{
  Scan, allows, enforcer_of, passed, set_plain, set_posture, set_policy, violation,
}
use kube_armor.Feeder.Matched.Files.{Patterns}
use kube_armor.Feeder.Matched.Loop.{note_allow, round, scan, step}
use kube_armor.Feeder.Matched.Shared.{
  capability_hit, capability_rule, log_source, rule_hit, step_capability,
}
use kube_armor.Feeder.State.{Log, MatchPolicy}
use kube_armor.Policy.{DefaultPosture}

module _ {Regexp : Type 0} where
  -- The rule names a capability of the log.
  unfoldable pub names_capability : MatchPolicy Regexp → Log → Bool
  names_capability m log = any (contains log.resource) (split b',' m.resource)

  -- The rule is for capabilities and for the source of the log.
  abbrev pub IsFor : MatchPolicy Regexp → Log → Type 0
  IsFor m log = (m.operation ≡ codes "Capabilities") × (log_source m log ≡ true)

  capability_hit-allow :
      (enforcer : Text) (m : MatchPolicy Regexp) (caps : List Text) (log : Log)
      → m.action ≡ codes "Allow"
      → passed log ≡ false
      → capability_hit enforcer m caps log ≡ none
  unfolding capability_hit rule_hit allows text_beq
  capability_hit-allow enforcer m [] log a r = refl
  capability_hit-allow enforcer m (cap ∷ caps) log a r =
      let allow : (m.action == codes "Block") ≡ false = ap (λ x. x == codes "Block") a in
      let audit : (m.action == codes "Audit") ≡ false = ap (λ x. x == codes "Audit") a in
      let audit_block : (m.action == codes "Audit (Block)") ≡ false =
        ap (λ x. x == codes "Audit (Block)") a in
      ground (arith, allow, audit, audit_block, r, capability_hit-allow enforcer m caps log a r)

  capability_hit-block :
      (enforcer : Text) (m : MatchPolicy Regexp) (caps : List Text) (log : Log)
      → m.action ≡ codes "Block"
      → passed log ≡ false
      → any (contains log.resource) caps ≡ true
      → capability_hit enforcer m caps log
        ≡ some (set_plain (enforcer_of enforcer log) m.action m log)
  unfolding capability_hit rule_hit allows text_beq
  capability_hit-block enforcer m [] log a r named = absurd (ground (arith, named))
  capability_hit-block enforcer m (cap ∷ caps) log a r named =
      let block : (m.action == codes "Block") ≡ true = ap (λ x. x == codes "Block") a in
      let audit : (m.action == codes "Audit") ≡ false = ap (λ x. x == codes "Audit") a in
      ground (arith, block, audit, r, named, capability_hit-block enforcer m caps log a r)

  step_capability-allow :
      (enforcer posture : Text) (m : MatchPolicy Regexp) (s : Scan)
      → m.operation ≡ s.log.operation
      → log_source m s.log ≡ true
      → m.action ≡ codes "Allow"
      → passed s.log ≡ false
      → (step_capability enforcer posture m s).log ≡ set_posture (codes "Block") s.log
  unfolding step_capability capability_rule violation text_beq
  step_capability-allow enforcer posture m s o f a r =
      let same : (m.operation == s.log.operation) ≡ true =
        ap (λ op. op == s.log.operation) o ∙ equal_refl s.log.operation in
      let allow : (m.action == codes "Allow") ≡ true = ap (λ x. x == codes "Allow") a in
      let missed = capability_hit-allow enforcer m (split b',' m.resource) s.log a r in
      ground (arith, same, f, allow, r, missed)

  step_capability-block :
      (enforcer posture : Text) (m : MatchPolicy Regexp) (s : Scan)
      → m.operation ≡ s.log.operation
      → log_source m s.log ≡ true
      → m.action ≡ codes "Block"
      → passed s.log ≡ false
      → names_capability m s.log ≡ true
      → (step_capability enforcer posture m s).log
        ≡ set_plain (enforcer_of enforcer s.log) m.action m s.log
  unfolding step_capability capability_rule names_capability
  step_capability-block enforcer posture m s o f a r named =
      let same : (m.operation == s.log.operation) ≡ true =
        ap (λ op. op == s.log.operation) o ∙ equal_refl s.log.operation in
      let hit = capability_hit-block enforcer m (split b',' m.resource) s.log a r named in
      ground (arith, same, f, hit)

  log-note_allow : (m : MatchPolicy Regexp) (s : Scan) → (note_allow m s).log ≡ s.log
  unfolding note_allow
  log-note_allow m s = ground arith

  module _ (ps : Patterns Regexp) (enforcer : Text) (p : DefaultPosture) where
    round-capability :
        (last : Bool) (m : MatchPolicy Regexp) (s : Scan)
        → (p.file_action == codes "allow") ≡ false
        → s.log.operation ≡ codes "Capabilities"
        → round ps enforcer p last m s
          ≡ some (step_capability enforcer p.capabilities_action m (note_allow m s))
    unfolding round step text_beq
    round-capability last m s open_files op =
        let now : (note_allow m s).log.operation ≡ codes "Capabilities" =
          ap (λ l. l.operation) (log-note_allow m s) ∙ op in
        rw (round, open_files, now) (ground arith)

    -- The log that one round leaves, for a log that is equal to `before`.
    abbrev Leaves : Bool → MatchPolicy Regexp → Scan → Log → Type 0
    Leaves last m s after =
        (s' : Scan) × ((round ps enforcer p last m s ≡ some s') × (s'.log ≡ after))

    module _ (open_files : (p.file_action == codes "allow") ≡ false) (before : Log)
        (op : before.operation ≡ codes "Capabilities") (denied : passed before ≡ false) where
      round-allow :
          (last : Bool) (m : MatchPolicy Regexp) (s : Scan)
          → s.log ≡ before
          → IsFor m before
          → m.action ≡ codes "Allow"
          → Leaves last m s (set_posture (codes "Block") before)
      round-allow last m s e is_for a =
          let same : (note_allow m s).log ≡ before = log-note_allow m s ∙ e in
          (
            step_capability enforcer p.capabilities_action m (note_allow m s),
            (
              round-capability last m s open_files (ap (λ l. l.operation) e ∙ op),
              step_capability-allow enforcer p.capabilities_action m (note_allow m s)
                    (is_for.0 ∙ sym op ∙ sym (ap (λ l. l.operation) same))
                    (ap (log_source m) same ∙ is_for.1) a (ap passed same ∙ denied)
                  ∙ ap (set_posture (codes "Block")) same,
            ),
          )

      round-block :
          (last : Bool) (m : MatchPolicy Regexp) (s : Scan)
          → s.log ≡ before
          → IsFor m before
          → m.action ≡ codes "Block"
          → names_capability m before ≡ true
          → Leaves last m s (set_plain (enforcer_of enforcer before) m.action m before)
      round-block last m s e is_for a named =
          let same : (note_allow m s).log ≡ before = log-note_allow m s ∙ e in
          (
            step_capability enforcer p.capabilities_action m (note_allow m s),
            (
              round-capability last m s open_files (ap (λ l. l.operation) e ∙ op),
              step_capability-block enforcer p.capabilities_action m (note_allow m s)
                    (is_for.0 ∙ sym op ∙ sym (ap (λ l. l.operation) same))
                    (ap (log_source m) same ∙ is_for.1) a (ap passed same ∙ denied)
                    (ap (names_capability m) same ∙ named)
                  ∙ ap (λ l. set_plain (enforcer_of enforcer l) m.action m l) same,
            ),
          )

    scan-two :
        (a b : MatchPolicy Regexp) (s s₁ s₂ : Scan)
        → round ps enforcer p false a s ≡ some s₁
        → round ps enforcer p true b s₁ ≡ some s₂
        → scan ps enforcer p (a ∷ b ∷ []) s ≡ some s₂
    unfolding scan
    scan-two a b s s₁ s₂ first second = rw (scan, first, second) refl

    -- Two rules on capabilities for the source of a log on capabilities that is not Passed, where the
    -- posture of files is not allow: one with the action Block, which names a capability of the log, and
    -- one with the action Allow. If the blocking rule comes first, the log ends up with the default
    -- posture as its policy, although the blocking rule has matched; if it comes last, the log names the
    -- policy of the blocking rule.
    pub scan_overwrites_capability :
        (block allow : MatchPolicy Regexp) (s : Scan)
        → (p.file_action == codes "allow") ≡ false
        → s.log.operation ≡ codes "Capabilities"
        → passed s.log ≡ false
        → IsFor block s.log
        → block.action ≡ codes "Block"
        → names_capability block s.log ≡ true
        → IsFor allow s.log
        → allow.action ≡ codes "Allow"
        → ((t : Scan) × ((scan ps enforcer p (block ∷ allow ∷ []) s ≡ some t)
              × (t.log.policy_name ≡ codes "DefaultPosture")))
          × ((t : Scan) × ((scan ps enforcer p (allow ∷ block ∷ []) s ≡ some t)
                × (t.log.policy_name ≡ block.policy_name)))
    unfolding set_posture set_plain set_policy log_source passed names_capability
    scan_overwrites_capability block allow s open_files op denied for_block b named for_allow a =
        let blocked : Log = set_plain (enforcer_of enforcer s.log) block.action block s.log in
        let postured : Log = set_posture (codes "Block") s.log in
        let (s₁, (ran₁, e₁)) =
          round-block open_files s.log op denied false block s refl for_block b named in
        let (t₁, (then₁, f₁)) =
          round-allow open_files blocked op denied true allow s₁ e₁ for_allow a in
        let (s₂, (ran₂, e₂)) =
          round-allow open_files s.log op denied false allow s refl for_allow a in
        let (t₂, (then₂, f₂)) =
          round-block open_files postured op denied true block s₂ e₂ for_block b named in
        (
          (t₁, (scan-two block allow s s₁ t₁ ran₁ then₁, ap (λ l. l.policy_name) f₁)),
          (t₂, (scan-two allow block s s₂ t₂ ran₂ then₂, ap (λ l. l.policy_name) f₂)),
        )
