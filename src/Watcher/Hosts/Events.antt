-- ===== src/Watcher/Hosts/Events.antt =====
-- kubeUpdate.go, `ParseAndUpdateHostSecurityPolicy`: events that come twice, and policies to delete.
use kube_armor.Base.{
  Bool, Bool-cases, List, Option, Option-cases, false, if◌then◌else◌, inl, inr, none, some, true,
  ◌++◌, ◌≡◌, ◌∷◌, [], ap, arith, refl, ◌∙◌,
}
use kube_armor.Base.Comparable.{equal_refl, text_beq, text_eq}
use kube_armor.Base.Ensures.{if_cases}
use kube_armor.Base.Text.{Text, codes}
use kube_armor.Policy.{SecurityPolicy}
use kube_armor.Watcher.Create.{CrdSpec}
use kube_armor.Watcher.Hosts.{
  Host, HostChange, HostSettings, PolicyStatus, applied_status, apply_host_policies, deleted_status,
  find, finish_event, goes_on, host_change, host_security_policy, named, not_exist_status,
  parse_and_update_host_security_policy, status_of, stops, store,
}
use kube_armor.Watcher.Points.{added, deleted, lists, meta, modified, remove, replace, same_policy}
use kube_armor.Watcher.Points.Lists.{ListedOnce, lists-remove}

named_self : (p : SecurityPolicy) → named p p ≡ true
unfolding same_policy
named_self p = equal_refl (meta (codes "policyName") p)

find-append :
    (p : SecurityPolicy) (ps : List SecurityPolicy)
    → find p ps ≡ none
    → find p (ps ++ (p ∷ [])) ≡ some p
unfolding find
find-append p [] h = ground (arith, named_self p)
find-append p (q ∷ ps) h = ground (arith, h, find-append p ps)

find-replace :
    (p q : SecurityPolicy) (ps : List SecurityPolicy)
    → find p ps ≡ some q
    → find p (replace (named p) p ps) ≡ some p
unfolding find replace
find-replace p q [] h = cc
find-replace p q (r ∷ ps) h = ground (arith, h, named_self p, find-replace p q ps)

module _ (deep_equal : SecurityPolicy → SecurityPolicy → Bool) where
  -- An added policy that the list has in the same form stops the event.
  host_change-known :
      (p q : SecurityPolicy) (ps : List SecurityPolicy)
      → find p ps ≡ some q
      → deep_equal q p ≡ true
      → host_change deep_equal added p ps ≡ stops applied_status
  unfolding host_change store added text_beq
  host_change-known p q ps h e = rw (host_change, h, e)

  host_change-absent :
      (p : SecurityPolicy) (ps : List SecurityPolicy)
      → find p ps ≡ none
      → host_change deep_equal added p ps ≡ goes_on added (ps ++ (p ∷ []))
  unfolding host_change added text_beq
  host_change-absent p ps h = rw (host_change, h)

  host_change-other :
      (p q : SecurityPolicy) (ps : List SecurityPolicy)
      → find p ps ≡ some q
      → deep_equal q p ≡ false
      → host_change deep_equal added p ps ≡ goes_on modified (replace (named p) p ps)
  unfolding host_change store added text_beq
  host_change-other p q ps h e = rw (host_change, h, e)

  -- The list that a change leaves.
  left_by : HostChange → List SecurityPolicy → List SecurityPolicy
  left_by (stops status) ps = ps
  left_by (goes_on action qs) ps = qs

  -- A policy of the list that is equal to this one and has its name.
  Known : SecurityPolicy → List SecurityPolicy → Type 0
  Known p ps = (q : SecurityPolicy) × ((find p ps ≡ some q) × (deep_equal q p ≡ true))

  added-Known :
      (p : SecurityPolicy) (ps : List SecurityPolicy)
      → deep_equal p p ≡ true
      → Known p (left_by (host_change deep_equal added p ps) ps)
  unfolding Known left_by
  added-Known p ps e =
      let found : (c : HostChange) (q : SecurityPolicy)
          → host_change deep_equal added p ps ≡ c
          → find p (left_by c ps) ≡ some q
          → find p (left_by (host_change deep_equal added p ps) ps) ≡ some q =
        λ c q same there. ap (λ d. find p (left_by d ps)) same ∙ there in
      elim (Option-cases (find p ps)) [
        | inl absent ↦
            (p, (found _ p (host_change-absent p ps absent) (find-append p ps absent), e))
        | inr (q, there) ↦ elim (Bool-cases (deep_equal q p)) [
          | inl equal ↦ (q, (found _ q (host_change-known p q ps there equal) there, equal))
          | inr other ↦
              (p, (found _ p (host_change-other p q ps there other) (find-replace p q ps there), e))
        ]
      ]

  module _ (compile_posix : Text → Option (Text → Bool)) {Regexp : Type 0}
      (compile : Text → Option Regexp) (cfg : HostSettings) where
    policies-finish_event :
        (h : Host Regexp) (c : HostChange)
        → (finish_event compile_posix compile deep_equal cfg h c).1.policies ≡ left_by c h.policies
    unfolding finish_event apply_host_policies left_by
    policies-finish_event h (stops status) = refl
    policies-finish_event h (goes_on action ps) = ground arith

    -- A host policy that is added again is reported as applied, and nothing changes, if
    -- DeepEqual holds between a policy and itself.
    pub parse_and_update_host_security_policy_again :
        (name : Text) (crd : CrdSpec) (h : Host Regexp)
        → deep_equal (host_security_policy name crd) (host_security_policy name crd) ≡ true
        → parse_and_update_host_security_policy compile_posix compile deep_equal cfg added name crd
            (parse_and_update_host_security_policy compile_posix compile deep_equal cfg added name
              crd h).1
          ≡ (
            applied_status,
            (parse_and_update_host_security_policy compile_posix compile deep_equal cfg added name
                crd h).1,
          )
    unfolding parse_and_update_host_security_policy Known finish_event
    parse_and_update_host_security_policy_again name crd h e =
        let p = host_security_policy name crd in
        let change = host_change deep_equal added p h.policies in
        let h' : Host Regexp = (finish_event compile_posix compile deep_equal cfg h change).1 in
        let (q, (there, equal)) = added-Known p h.policies e in
        let found = ap (find p) (policies-finish_event h change) ∙ there in
        ap (λ c. finish_event compile_posix compile deep_equal cfg h' c)
          (host_change-known p q h'.policies found equal)

    -- Whether a deletion is reported as done tells whether there was such a policy; if the list
    -- has no name twice, there is none afterwards.
    pub parse_and_update_host_security_policy_deletes :
        (name : Text) (crd : CrdSpec) (h : Host Regexp)
        → ListedOnce (named (host_security_policy name crd)) h.policies
        → ((parse_and_update_host_security_policy compile_posix compile deep_equal cfg deleted name
              crd h).0
            ≡ (if lists (named (host_security_policy name crd)) h.policies
                then deleted_status
                else not_exist_status))
          × (lists
                (named (host_security_policy name crd))
                (parse_and_update_host_security_policy compile_posix compile deep_equal cfg deleted
                  name crd h).1.policies
              ≡ false)
    unfolding parse_and_update_host_security_policy host_change finish_event status_of deleted added
        modified text_beq left_by
    parse_and_update_host_security_policy_deletes name crd h once =
        let p = host_security_policy name crd in
        let run : HostChange → PolicyStatus × Host Regexp =
          finish_event compile_posix compile deep_equal cfg h in
        let left : List SecurityPolicy = remove (named p) h.policies in
        if_cases
          (λ (c : HostChange).
            ((run c).0 ≡ (if lists (named p) h.policies then deleted_status else not_exist_status))
            × (lists (named p) (run c).1.policies ≡ false))
          (lists (named p) h.policies) (goes_on deleted left) (stops not_exist_status)
          (λ there. (
            ground (arith, there),
            ap (lists (named p)) (policies-finish_event h (goes_on deleted left))
                ∙ lists-remove (named p) h.policies once,
          ))
          (λ absent. (ground (arith, absent), absent))
