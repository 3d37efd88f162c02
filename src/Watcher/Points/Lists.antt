-- ===== src/Watcher/Points/Lists.antt =====
-- kubeUpdate.go, `UpdateSecurityPolicy`: what an event does to the policies of an end point.
use kube_armor.Base.{
  Option, Bool, Bool-cases, List, false, if◌then◌else◌, inl, inr, true, ◌&&◌, ◌||◌, ◌++◌, ◌≡◌, ◌∷◌,
  [], arith, refl,
}
use kube_armor.Base.Comparable.{equal_refl, text_eq, ◌==◌}
use kube_armor.Base.Ensures.{if_cases, if_else}
use kube_armor.Base.Text.{Text, codes}
use kube_armor.Policy.{SecurityPolicy}
use kube_armor.Feeder.State.{EndPoint}
use kube_armor.Watcher.Points.Announced.{changed}
use kube_armor.Watcher.Points.{
  PolicyType, kube_armor_policy, kube_armor_cluster_policy, same_policy, meta, selected_by,
  concerns, change_point, added, change, deleted, lists, modified, remove, replace,
}

module _ (same : SecurityPolicy → Bool) where
  -- No two policies of the list are the one that is changed.
  unfoldable pub ListedOnce : List SecurityPolicy → Type 0
  ListedOnce [] = true ≡ true
  ListedOnce (q ∷ qs) = ((same q && lists same qs) ≡ false) × ListedOnce qs

  -- The other policies.
  unfoldable pub others : List SecurityPolicy → List SecurityPolicy
  others [] = []
  others (q ∷ qs) = if same q then others qs else q ∷ others qs

  -- What the event leaves of the policy: it is added where it is selected, it stays so under a
  -- change exactly if it is, and it goes.
  unfoldable pub listed_after : Text → Bool → Bool → Bool
  listed_after action selected before =
      if action == added
      then before || selected
      else if action == modified
      then selected
      else if action == deleted
      then false
      else before

  pub lists-append :
      (p : SecurityPolicy) (qs : List SecurityPolicy)
      → same p ≡ true
      → lists same (qs ++ (p ∷ [])) ≡ true
  unfolding lists
  lists-append p [] h = ground (arith, h)
  lists-append p (q ∷ qs) h = ground (arith, lists-append p qs h)

  pub lists-remove :
      (qs : List SecurityPolicy) → ListedOnce qs → lists same (remove same qs) ≡ false
  unfolding lists remove ListedOnce
  lists-remove [] h = refl
  lists-remove (q ∷ qs) (one, h) = ground (arith, one, lists-remove qs h)

  lists-replace :
      (p : SecurityPolicy) (qs : List SecurityPolicy)
      → same p ≡ true
      → lists same (replace same p qs) ≡ lists same qs
  unfolding lists replace
  lists-replace p [] h = refl
  lists-replace p (q ∷ qs) h = ground (arith, h, lists-replace p qs h)

  -- Policies that list this one at most once list it after the three loops as the event says.
  pub lists-change :
      (action : Text) (selected : Bool) (p : SecurityPolicy) (qs : List SecurityPolicy)
      → same p ≡ true
      → ListedOnce qs
      → lists same (change same action selected p qs) ≡ listed_after action selected (lists same qs)
  unfolding change listed_after
  lists-change action selected p qs h once =
      ground (arith, h, lists-append p qs h, lists-remove qs once, lists-replace p qs h)

  pub others-append :
      (p : SecurityPolicy) (qs : List SecurityPolicy)
      → same p ≡ true
      → others (qs ++ (p ∷ [])) ≡ others qs
  unfolding others
  others-append p [] h = ground (arith, h)
  others-append p (q ∷ qs) h = ground (arith, others-append p qs h)

  others-remove : (qs : List SecurityPolicy) → others (remove same qs) ≡ others qs
  unfolding others remove
  others-remove [] = refl
  others-remove (q ∷ qs) = ground (arith, others-remove qs)

  others-replace :
      (p : SecurityPolicy) (qs : List SecurityPolicy)
      → same p ≡ true
      → others (replace same p qs) ≡ others qs
  unfolding others replace
  others-replace p [] h = refl
  others-replace p (q ∷ qs) h = ground (arith, h, others-replace p qs h)

  -- An event on a policy leaves the other policies of the end point as they are, in their order.
  pub others-change :
      (action : Text) (selected : Bool) (p : SecurityPolicy) (qs : List SecurityPolicy)
      → same p ≡ true
      → others (change same action selected p qs) ≡ others qs
  unfolding change
  others-change action selected p qs h =
      ground (arith, others-append p qs h, others-remove qs, others-replace p qs h)

  ListedOnce-append :
      (p : SecurityPolicy) (qs : List SecurityPolicy)
      → lists same qs ≡ false
      → ListedOnce qs
      → ListedOnce (qs ++ (p ∷ []))
  unfolding lists ListedOnce
  ListedOnce-append p [] h once = (ground arith, refl)
  ListedOnce-append p (q ∷ qs) h (one, once) =
      (ground (arith, h), ListedOnce-append p qs (ground (arith, h)) once)

  ListedOnce-tail :
      (b : Bool) (q : SecurityPolicy) (qs rest : List SecurityPolicy)
      → ListedOnce qs
      → ListedOnce (q ∷ rest)
      → ListedOnce (if b then qs else q ∷ rest)
  ListedOnce-tail true q qs rest once kept = once
  ListedOnce-tail false q qs rest once kept = kept

  ListedOnce-remove : (qs : List SecurityPolicy) → ListedOnce qs → ListedOnce (remove same qs)
  unfolding remove ListedOnce
  ListedOnce-remove [] h = h
  ListedOnce-remove (q ∷ qs) (one, h) =
      ListedOnce-tail (same q) q qs (remove same qs) h
        (ground (arith, lists-remove qs h), ListedOnce-remove qs h)

  ListedOnce-replace :
      (p : SecurityPolicy) (qs : List SecurityPolicy)
      → same p ≡ true
      → ListedOnce qs
      → ListedOnce (replace same p qs)
  unfolding replace ListedOnce
  ListedOnce-replace p [] e h = h
  ListedOnce-replace p (q ∷ qs) e (one, h) = elim (Bool-cases (same q)) [
    | inl found ↦ rw (replace, found) (ground (arith, found, one), h)
    | inr other ↦ rw (replace, other) (ground (arith, other), ListedOnce-replace p qs e h)
  ]

  -- Every event keeps it so that an end point lists the policy at most once.
  pub ListedOnce-change :
      (action : Text) (selected : Bool) (p : SecurityPolicy) (qs : List SecurityPolicy)
      → same p ≡ true
      → ListedOnce qs
      → ListedOnce (change same action selected p qs)
  unfolding change
  ListedOnce-change action selected p qs e h =
      let append : lists same qs ≡ false → ListedOnce (qs ++ (p ∷ [])) =
        λ absent. ListedOnce-append p qs absent h in
      if_else ListedOnce _ _ _
        (if_cases ListedOnce _ _ _ (λ new. append (ground (arith, new))) (λ old. h))
        (if_else ListedOnce _ _ _
          (if_cases ListedOnce _ _ _
            (λ there.
              if_else ListedOnce _ _ _ (ListedOnce-remove qs h) (ListedOnce-replace p qs e h))
            (λ absent. if_else ListedOnce _ _ _ (append absent) h))
          (if_else ListedOnce _ _ _ (ListedOnce-remove qs h) h))

pub same_policy_self : (type : PolicyType) (p : SecurityPolicy) → same_policy type p p ≡ true
unfolding same_policy
same_policy_self kube_armor_policy p =
    ground
      (arith, equal_refl (meta (codes "namespaceName") p), equal_refl (meta (codes "policyName") p))
same_policy_self kube_armor_cluster_policy p = equal_refl (meta (codes "policyName") p)

module _ (compile_posix : Text → Option (Text → Bool)) where
  -- Whether an end point lists the policy after an event: what the event and the selector say if the
  -- policy concerns the end point, and else what it was.
  pub lists-changed :
      (action : Text) (type : PolicyType) (p : SecurityPolicy) (e : EndPoint)
      → ListedOnce (same_policy type p) e.security_policies
      → lists (same_policy type p) (changed compile_posix action type p e).security_policies ≡ (
          if concerns compile_posix type p e
          then listed_after
              (same_policy type p)
              action
              (selected_by compile_posix type p e)
              (lists (same_policy type p) e.security_policies)
          else lists (same_policy type p) e.security_policies)
  unfolding changed change_point
  lists-changed action type p e once = ground (
    arith,
    lists-change (same_policy type p) action (selected_by compile_posix type p e) p
        e.security_policies (same_policy_self type p) once,
  )
