-- ===== src/Feeder/Host/Matches.antt =====
-- policyMatcher.go: what `UpdateHostSecurityPolicies` stores.
use kube_armor.Base.{
  Bool, Bool-cases, List, Option, if◌then◌else◌, is_empty, none, some, true, false, ◌&&◌, ◌||◌, ◌≡◌,
  inl, inr, arith, [], ◌∷◌, refl, ℕ,
}
use kube_armor.Base.Comparable.{text_eq, ◌==◌}
use kube_armor.Base.GoMap.{get, get-delete, get-put}
use kube_armor.Base.Text.{Text, codes}
use kube_armor.Feeder.Collect.{from_syscall_source}
use kube_armor.Feeder.Collect.Audited.{All, All-collect}
use kube_armor.Feeder.Host.{
  host_matches, host_path_matches, host_plain_path, host_sourced_path,
  update_host_security_policies, without_path,
}
use kube_armor.Feeder.NewMatch.{match_syscall_path}
use kube_armor.Feeder.State.{Feeder, MatchPolicy}
use kube_armor.Policy.{SecurityPolicy, SyscallFromSourceType, SyscallMatchPathType}

module _ {Regexp : Type 0} (compile : Text → Option Regexp) where
  -- The node then has the matches of the policies, or none if the action is `DELETED`, and every
  -- other entry is what it was.
  pub get-update_host_security_policies :
      (action : Text) (ps : List SecurityPolicy) (fd : Feeder Regexp) (key : Text)
      → get key (update_host_security_policies compile action ps fd).security_policies ≡ (
          if fd.node.node_name == key
          then (if action == codes "DELETED"
              then none
              else some (host_matches compile fd.enforcer fd.node.policy_enabled ps))
          else get key fd.security_policies)
  unfolding update_host_security_policies
  get-update_host_security_policies action ps fd key =
      let matches = host_matches compile fd.enforcer fd.node.policy_enabled ps in
      elim (Bool-cases (action == codes "DELETED")) [
        | inl deleted ↦
            ground (arith, deleted, get-delete fd.node.node_name key fd.security_policies)
        | inr other ↦
            ground (arith, other, get-put fd.node.node_name key matches fd.security_policies)
      ]

-- A match that names no resource.
abbrev pub Unnamed : {Regexp : Type 0} → MatchPolicy Regexp → Type 0
Unnamed m = m.resource ≡ []

unless-Unnamed :
    {Regexp : Type 0}
    → (skip : Bool) (m : MatchPolicy Regexp) → Unnamed m
    → All Unnamed (if skip then [] else m ∷ [])
unfolding All
unless-Unnamed true m h = tt
unless-Unnamed false m h = (h, tt)

module _ (Regexp : Type 0) (on : ℕ) (name : Text) where
  from_source-Unnamed :
      (f : SyscallFromSourceType → Text → List (MatchPolicy Regexp)) (calls : List Text)
      (src : SyscallFromSourceType)
      → ((call : Text) → All Unnamed (f src call))
      → All Unnamed (from_syscall_source on name f calls src)
  unfolding from_syscall_source All
  from_source-Unnamed f calls src h = elim (Bool-cases (is_empty src.path && is_empty src.dir)) [
    | inl skipped ↦ rw (from_syscall_source, skipped) tt
    | inr named ↦ rw (from_syscall_source, named) (All-collect Unnamed (f src) calls h)
  ]

  -- The matches of a rule for system calls on a path name no resource, so the path is lost.
  pub host_path_matches-Unnamed :
      (p : SyscallMatchPathType) → All Unnamed (host_path_matches {Regexp = Regexp} on name p)
  unfolding host_path_matches host_plain_path host_sourced_path match_syscall_path without_path All
  host_path_matches-Unnamed p = elim (Bool-cases (is_empty p.path || is_empty p.syscalls)) [
    | inl skipped ↦ rw (host_path_matches, skipped) tt
    | inr named ↦ elim (Bool-cases (is_empty p.from_source)) [
      | inl anywhere ↦
          rw (host_path_matches, named, anywhere)
            (All-collect Unnamed (host_plain_path on name p) p.syscalls
              (λ call. unless-Unnamed _ _ refl))
      | inr sourced ↦
          rw (host_path_matches, named, sourced)
            (All-collect Unnamed _ p.from_source (λ src.
              from_source-Unnamed (host_sourced_path on name p) p.syscalls src
                (λ call. unless-Unnamed _ _ refl)))
    ]
  ]
