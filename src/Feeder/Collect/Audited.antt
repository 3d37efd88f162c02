-- ===== src/Feeder/Collect/Audited.antt =====
-- policyMatcher.go: lists of matches that only audit.
use mathlib.Core.Logic.{◌≢◌, inl, inr}
use kube_armor.Base.{
  Bool, Bool-cases, List, Option, Option-cases, false, if◌then◌else◌, is_empty, true, ◌++◌, ◌∷◌, [],
  arith,
}
use kube_armor.Base.Comparable.{nat_eq, text_beq_iff, text_eq, ◌==◌}
use kube_armor.Base.Text.{Text, codes}
use kube_armor.Feeder.Collect.{collect, pattern_match, rule_matches, source_matches, with_resource}
use kube_armor.Feeder.Names.{match_action}
use kube_armor.Feeder.State.{MatchPolicy, audited}
use kube_armor.Policy.{MatchSourceType, allow, block}

-- A predicate on the elements of a list.
unfoldable pub All {ℓ} : {A : Type ℓ} → (A → Type 0) → List A → Type 0
All P [] = Unit
All P (x ∷ xs) = P x × All P xs

pub All-append {ℓ} :
    {A : Type ℓ} → (P : A → Type 0) → (xs ys : List A) → All P xs → All P ys → All P (xs ++ ys)
unfolding All
All-append P [] ys h k = k
All-append P (x ∷ xs) ys (p, h) k = (p, All-append P xs ys h k)

pub All-collect {ℓ} :
    {A B : Type ℓ}
    → (P : B → Type 0) → (f : A → List B) → (xs : List A) → ((x : A) → All P (f x))
    → All P (collect f xs)
unfolding All collect
All-collect P f [] h = tt
All-collect P f (x ∷ xs) h = All-append P (f x) (collect f xs) (h x) (All-collect P f xs h)

-- An action that is neither to allow nor to block.
abbrev pub Audits : Text → Type 0
Audits action = (action ≢ allow) × (action ≢ block)

pub match_action-Audits : (action : Text) → Audits (match_action audited action)
unfolding match_action audited allow block
match_action-Audits action = elim (Bool-cases (action == allow)) [
  | inl allowed ↦ rw (match_action, allowed) (λ e. ground (arith, e), λ e. ground (arith, e))
  | inr other ↦ elim (Bool-cases (action == block)) [
    | inl blocked ↦
        rw (match_action, other, blocked) (λ e. ground (arith, e), λ e. ground (arith, e))
    | inr neither ↦
        rw (match_action, other, neither)
          (
            λ e. ground (arith, other, text_beq_iff action allow, e),
            λ e. ground (arith, neither, text_beq_iff action block, e),
          )
  ]
]

-- System calls are only ever audited.
pub audit-Audits : Audits (codes "Audit")
unfolding allow block
audit-Audits = (λ e. ground (arith, e), λ e. ground (arith, e))

module _ {Regexp : Type 0} where
  abbrev pub AuditsOnly : MatchPolicy Regexp → Type 0
  AuditsOnly m = Audits m.action

  pub source_matches-All :
      (f : Text → MatchPolicy Regexp)
      → ((src : Text) → AuditsOnly (f src))
      → (srcs : List MatchSourceType) → All AuditsOnly (source_matches f srcs)
  unfolding All source_matches
  source_matches-All f h [] = tt
  source_matches-All f h (src ∷ srcs) = elim (Bool-cases (is_empty src.path)) [
    | inl skipped ↦ rw (source_matches, skipped) (source_matches-All f h srcs)
    | inr named ↦ rw (source_matches, named) (h src.path, source_matches-All f h srcs)
  ]

  pub rule_matches-All :
      (f : Text → MatchPolicy Regexp)
      → ((src : Text) → AuditsOnly (f src))
      → (srcs : List MatchSourceType) → All AuditsOnly (rule_matches f srcs)
  unfolding All rule_matches
  rule_matches-All f h [] = (h [], tt)
  rule_matches-All f h (src ∷ srcs) = source_matches-All f h (src ∷ srcs)

  pub with_resource-All :
      (ms : List (MatchPolicy Regexp)) → All AuditsOnly ms → All AuditsOnly (with_resource ms)
  unfolding All with_resource
  with_resource-All [] h = tt
  with_resource-All (m ∷ ms) (p, h) = elim (Bool-cases (is_empty m.resource)) [
    | inl skipped ↦ rw (with_resource, skipped) (with_resource-All ms h)
    | inr kept ↦ rw (with_resource, kept) (p, with_resource-All ms h)
  ]

  pub pattern_match-All :
      (compile : Text → Option Regexp) (text : Text) (m : MatchPolicy Regexp)
      → AuditsOnly m
      → All AuditsOnly (pattern_match compile text m)
  unfolding All pattern_match
  pattern_match-All compile text m h = elim (Bool-cases (is_empty text)) [
    | inl skipped ↦ rw (pattern_match, skipped) tt
    | inr named ↦ elim (Option-cases (compile text)) [
      | inl refused ↦ rw (pattern_match, named, refused) tt
      | inr (r, compiled) ↦ rw (pattern_match, named, compiled) (h, tt)
    ]
  ]

  -- A list with one match, unless a test skips it.
  pub unless-All :
      (skip : Bool) (m : MatchPolicy Regexp)
      → AuditsOnly m
      → All AuditsOnly (if skip then [] else m ∷ [])
  unfolding All
  unless-All true m h = tt
  unless-All false m h = (h, tt)
