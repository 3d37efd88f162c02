-- ===== src/Feeder/Matched/Syscalls.antt =====
-- policyMatcher.go, `UpdateMatchedPolicy`: the case of system calls. An index that is out of range
-- is a panic, the result none.
use kube_armor.Base.{
  Bool, List, Option, drop_last, false, if◌then◌else◌, is_empty, length, none, not, some, ◌&&◌,
  ◌||◌, ◌∷◌, [], ℕ,
}
use kube_armor.Base.Comparable.{nat_eq, text_eq, ◌==◌}
use kube_armor.Base.Text.{Text, codes, contains, drop, has_prefix, split, split_text}
use kube_armor.Feeder.Matched.Alerts.{Scan, set_policy}
use kube_armor.Feeder.Resources.{first_word}
use kube_armor.Feeder.State.{Log, MatchPolicy}

-- `s[len(s)-1]`
unfoldable pub last_byte : Text → Option ℕ
last_byte [] = none
last_byte (c ∷ []) = some c
last_byte (c ∷ d ∷ s) = last_byte (d ∷ s)

-- The second of the parts.
unfoldable pub second_part : List Text → Option Text
second_part [] = none
second_part (a ∷ []) = none
second_part (a ∷ b ∷ more) = some b

unfoldable pub syscall_name : Log → Option Text
syscall_name log = second_part (split_text (codes "SYS_") (first_word (split b' ' log.log_data)))

module _ {Regexp : Type 0} where
  -- Whether the source of the rule is the source of the call, or a directory that covers it.
  unfoldable pub covers_source : MatchPolicy Regexp → Text → Option Bool
  covers_source m src =
      if has_prefix src m.source
      then elim (last_byte m.source) [
        | none ↦ none
        | some c ↦ some (
            (c == b'/' && (m.recursive || not (contains (drop (length m.source) src) (codes "/"))))
            || m.source == src)
      ]
      else some (m.source == src)

  unfoldable pub from_source : MatchPolicy Regexp → Text → Option Bool
  from_source m src = if m.is_from_source then covers_source m src else some false

  unfoldable pub match_path : MatchPolicy Regexp → Log → Bool
  match_path m log = elim (last_byte m.resource) [
    | none ↦ false
    | some c ↦
        (c == b'/'
          && ((has_prefix log.resource m.resource && m.read_only)
              || drop_last m.resource == log.resource))
        || m.resource == log.resource
  ]

  unfoldable pub matched_rule : MatchPolicy Regexp → Bool → Log → Bool
  matched_rule m from log =
      (is_empty m.resource || match_path m log) && (not m.is_from_source || from)

  unfoldable pub step_syscall : MatchPolicy Regexp → Scan → Option Scan
  step_syscall m s =
      if not (m.operation == s.log.operation) then some s else elim (syscall_name s.log) [
        | none ↦ none
        | some name ↦
            if not (name == m.resource_type)
            then some s
            else elim (from_source m (first_word (split b' ' s.log.source))) [
              | none ↦ none
              | some from ↦
                  some
                    (if matched_rule m from s.log then record s { log = set_policy m s.log } else s)
            ]
      ]
