-- ===== src/Watcher/Containers/Stored.antt =====
-- unorchestratedUpdates.go, `handlePolicyEvent`: a policy that is added to, or modified for, an end point
-- that the daemon has.
use mathlib.Core.Logic.{◌⊎◌}
use kube_armor.Base.{
  Bool, Bool-cases, List, Option, false, get_elem?, if◌then◌else◌, inl, inr, length, not, some,
  ◌&&◌, ◌||◌, ◌++◌, ◌<◌, ◌≡◌, ◌∷◌, [], ℕ, zero, suc, ap, arith, refl, ◌∙◌,
}
use kube_armor.Base.Comparable.{nat_eq, text_beq, text_eq, ◌==◌}
use kube_armor.Base.Text.{Text}
use kube_armor.Feeder.State.{Config, EndPoint}
use kube_armor.Policy.{SecurityPolicy}
use kube_armor.Watcher.Containers.{
  announce_event, event_type, handle_added, handle_policy_event, replace_all, set_at, set_index,
  stored,
}
use kube_armor.Watcher.Hosts.{PolicyStatus, applied_status}
use kube_armor.Watcher.Points.{
  Daemon, Settings, added, deleted, kube_armor_policy, lists, modified, same_policy,
}
use kube_armor.Watcher.Points.Lists.{lists-append, others, others-append, same_policy_self}

-- The two lists of end points differ at one index at most.
abbrev SameBut : ℕ → List EndPoint → List EndPoint → Type 0
SameBut i es es' = (j : ℕ) → (j == i) ≡ false → get_elem? es' j ≡ get_elem? es j

set_at-SameBut :
    (i : ℕ) (a : EndPoint) (xs : List EndPoint)
    → i < length xs
    → (ys : List EndPoint) × ((set_at i a xs ≡ some ys)
        × ((get_elem? ys i ≡ some a) × SameBut i xs ys))
unfolding set_at
set_at-SameBut i a [] h = absurd (omega arith)
set_at-SameBut zero a (x ∷ xs) h = (a ∷ xs, (refl, (refl, λ j ne. at_zero j ne)))
  where
    at_zero : (j : ℕ) → (j == 0) ≡ false → get_elem? (a ∷ xs) j ≡ get_elem? (x ∷ xs) j
    at_zero zero ne = absurd (ground (arith, ne))
    at_zero (suc j) ne = refl
set_at-SameBut (suc i) a (x ∷ xs) h =
    let (ys, (made, (found, rest))) = set_at-SameBut i a xs (omega arith) in
    (x ∷ ys, (rw (set_at, made), (found, λ j ne. above ys rest j ne)))
  where
    above :
        (ys : List EndPoint)
        → SameBut i xs ys
        → (j : ℕ) → (j == suc i) ≡ false
        → get_elem? (x ∷ ys) j ≡ get_elem? (x ∷ xs) j
    above ys rest zero ne = refl
    above ys rest (suc j) ne = rest j (ground (arith, ne))

module _ (p : SecurityPolicy) where
  abbrev same : SecurityPolicy → Bool
  same = same_policy kube_armor_policy p

  lists-replace_all : (qs : List SecurityPolicy) → lists same (replace_all p qs) ≡ lists same qs
  unfolding lists replace_all
  lists-replace_all [] = refl
  lists-replace_all (q ∷ qs) =
      ground (arith, same_policy_self kube_armor_policy p, lists-replace_all qs)

  others-replace_all : (qs : List SecurityPolicy) → others same (replace_all p qs) ≡ others same qs
  unfolding others replace_all
  others-replace_all [] = refl
  others-replace_all (q ∷ qs) =
      ground (arith, same_policy_self kube_armor_policy p, others-replace_all qs)

module _ {Regexp : Type 0} (compile : Text → Option Regexp) (cfg : Settings) where
  end_points-announce_event :
      (event : Text) (e : EndPoint) (dm : Daemon Regexp)
      → (announce_event compile cfg event e dm).end_points ≡ dm.end_points
  unfolding announce_event
  end_points-announce_event event e dm = ground arith

  -- The event ends well with this end point at the index, and all else in its place.
  abbrev pub Stores :
      Option ((Option ℕ × PolicyStatus) × Daemon Regexp) → ℕ → EndPoint → List EndPoint → Type 0
  Stores r i e es =
      (dm' : Daemon Regexp) × ((r ≡ some ((some i, applied_status), dm'))
        × ((get_elem? dm'.end_points i ≡ some e) × SameBut i es dm'.end_points))

  stored-Stores :
      (event : Text) (e : EndPoint) (i : ℕ) (dm : Daemon Regexp)
      → i < length dm.end_points
      → Stores
          (stored compile cfg event e (some i) (set_index (some i) e dm.end_points) dm)
          i
          e
          dm.end_points
  unfolding stored set_index
  stored-Stores event e i dm h =
      let (es, (made, (found, rest))) = set_at-SameBut i e dm.end_points h in
      let kept = end_points-announce_event event e (record dm { end_points = es }) in
      (
        announce_event compile cfg event e (record dm { end_points = es }),
        (
          rw (stored, made) refl,
          (
            ap (λ xs. get_elem? xs i) kept ∙ found,
            λ j ne. ap (λ xs. get_elem? xs j) kept ∙ rest j ne,
          ),
        ),
      )

  -- The end point that an event that adds or modifies the policy stores.
  abbrev updated : Config → Text → SecurityPolicy → EndPoint → EndPoint
  updated global event p e =
      let there = lists (same_policy kube_armor_policy p) e.security_policies in
      let qs = replace_all p e.security_policies in
      record e {
        default_posture = global.default_posture;
        security_policies = if not there && event == added then qs ++ (p ∷ []) else qs;
      }

  handle-updated :
      (global : Config) (event : Text) (p : SecurityPolicy) (e : EndPoint) (i : ℕ)
      (container : Text) (dm : Daemon Regexp)
      → (event ≡ added) ⊎ (event ≡ modified)
      → (event' : Text) × (handle_policy_event compile cfg global event false p e
            (some i)
            container
            dm
          ≡ stored compile cfg event'
              (updated global event p e)
              (some i)
              (set_index (some i) (updated global event p e) dm.end_points)
              dm)
  unfolding handle_policy_event handle_added event_type added modified deleted text_beq
  handle-updated global event p e i container dm (inl add) =
      elim (Bool-cases (lists (same_policy kube_armor_policy p) e.security_policies)) [
        | inl there ↦ (modified, rw (add, handle_policy_event, there) refl)
        | inr new ↦ (added, rw (add, handle_policy_event, new) refl)
      ]
  handle-updated global event p e i container dm (inr mod_event) =
      elim (Bool-cases (lists (same_policy kube_armor_policy p) e.security_policies)) [
        | inl there ↦ (modified, rw (mod_event, handle_policy_event, there) refl)
        | inr new ↦ (modified, rw (mod_event, handle_policy_event, new) refl)
      ]

  lists-updated :
      (global : Config) (event : Text) (p : SecurityPolicy) (e : EndPoint)
      → lists (same_policy kube_armor_policy p) (updated global event p e).security_policies
        ≡ lists (same_policy kube_armor_policy p) e.security_policies || event == added
  lists-updated global event p e = ground (
    arith,
    lists-replace_all p e.security_policies,
    lists-append (same_policy kube_armor_policy p) p (replace_all p e.security_policies)
        (same_policy_self kube_armor_policy p),
  )

  others-updated :
      (global : Config) (event : Text) (p : SecurityPolicy) (e : EndPoint)
      → others (same_policy kube_armor_policy p) (updated global event p e).security_policies
        ≡ others (same_policy kube_armor_policy p) e.security_policies
  others-updated global event p e = ground (
    arith,
    others-replace_all p e.security_policies,
    others-append (same_policy kube_armor_policy p) p (replace_all p e.security_policies)
        (same_policy_self kube_armor_policy p),
  )

  -- If `handlePolicyEvent` is called with ADDED or MODIFIED for an end point that is not to be created,
  -- at an index in range, it reports success and the same index. The end point that it stores there
  -- lists the policy if the one that it was given did or the event is ADDED, so a policy that is only
  -- modified is not added, and has the other policies as they were, in their order. Every other end
  -- point of the daemon is as it was.
  pub handle_policy_event-Stores :
      (global : Config) (event : Text) (p : SecurityPolicy) (e : EndPoint) (i : ℕ)
      (container : Text) (dm : Daemon Regexp)
      → (event ≡ added) ⊎ (event ≡ modified)
      → i < length dm.end_points
      → (e' : EndPoint) × (Stores
            (handle_policy_event compile cfg global event false p e (some i) container dm)
            i
            e'
            dm.end_points
          × ((lists (same_policy kube_armor_policy p) e'.security_policies
                ≡ lists (same_policy kube_armor_policy p) e.security_policies || event == added)
              × (others (same_policy kube_armor_policy p) e'.security_policies
                  ≡ others (same_policy kube_armor_policy p) e.security_policies)))
  handle_policy_event-Stores global event p e i container dm kind h =
      let (event', run) = handle-updated global event p e i container dm kind in
      let e' : EndPoint = updated global event p e in
      let (dm', (ran, kept)) = stored-Stores event' e' i dm h in
      (
        e',
        (
          (dm', (run ∙ ran, kept)),
          (lists-updated global event p e, others-updated global event p e),
        ),
      )
