-- ===== src/Base/Comparable.antt =====
-- Types with a Boolean equality, as Go's `==` on the keys of a map.
use kube_armor.Base.Tests.{nat_beq, nat_beq_iff, Bool-cases}
use Prim.Native.Nat.{ℕ}
use mathlib.Core.Path.{◌≡◌, refl}
use mathlib.Core.Logic.{◌≢◌, ◌↔◌, inl, inr}
use mathlib.Core.Bool.{Bool, true, false, ◌&&◌}
use mathlib.Core.List.{List, [], ◌∷◌}
use native.Mathlib.Omega.{arith}

-- What `comparable` types offer, with the one law that the proofs need.
pub record Comparable {ℓ} (T : Type ℓ) : Type ℓ where
  pub equal : T → T → Bool
  pub equal_iff : (x y : T) → (equal x y ≡ true) ↔ (x ≡ y)

module _ {ℓ} {T : Type ℓ} ⦃c : Comparable T⦄ where
  infix 50 ◌==◌
  abbrev pub ◌==◌ : T → T → Bool
  x == y = c.equal x y

  pub equal_refl : (x : T) → (x == x) ≡ true
  equal_refl x = (c.equal_iff x x).1 refl

  pub equal_ne : (x y : T) → x ≢ y → (x == y) ≡ false
  equal_ne x y differ = elim (Bool-cases (x == y)) [
    | inl same ↦ absurd (differ ((c.equal_iff x y).0 same))
    | inr other ↦ other
  ]

instance abbrev pub nat_eq : Comparable ℕ
nat_eq = record { equal = nat_beq; equal_iff = nat_beq_iff }

-- Go compares texts and byte arrays element by element.
unfoldable pub text_beq : List ℕ → List ℕ → Bool
text_beq [] [] = true
text_beq [] (b ∷ t) = false
text_beq (a ∷ s) [] = false
text_beq (a ∷ s) (b ∷ t) = nat_beq a b && text_beq s t

text_beq_sound : (s t : List ℕ) → text_beq s t ≡ true → s ≡ t
unfolding text_beq
text_beq_sound [] [] h = refl
text_beq_sound [] (b ∷ t) h = cc
text_beq_sound (a ∷ s) [] h = cc
text_beq_sound (a ∷ s) (b ∷ t) h = ground (arith, text_beq_sound s t)

text_beq_self : (s : List ℕ) → text_beq s s ≡ true
unfolding text_beq
text_beq_self [] = refl
text_beq_self (a ∷ s) = ground (arith, text_beq_self s)

pub text_beq_iff : (s t : List ℕ) → (text_beq s t ≡ true) ↔ (s ≡ t)
text_beq_iff s t = (text_beq_sound s t, λ e. rw e (text_beq_self t))

instance abbrev pub text_eq : Comparable (List ℕ)
text_eq = record { equal = text_beq; equal_iff = text_beq_iff }
