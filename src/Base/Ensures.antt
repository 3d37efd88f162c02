-- ===== src/Base/Ensures.antt =====
-- What a fallible computation satisfies where it gives a result.
use mathlib.Core.Option.{some-injective}
use mathlib.Core.Path.{subst}
use kube_armor.Base.{
  Bool, Option, false, get_or, if◌then◌else◌, none, or_else, some, true, ◌≡◌, refl,
}

-- What a result satisfies, if there is one.
abbrev pub Ensures : {A : Type 0} → (A → Type 0) → Option A → Type 0
Ensures P o = (a : _) → o ≡ some a → P a

module _ {A : Type 0} (P : A → Type 0) where
  pub or_else-Ensures : (o p : Option A) → Ensures P o → Ensures P p → Ensures P (or_else o p)
  or_else-Ensures none p f g = g
  or_else-Ensures (some a) p f g = f

  pub if-Ensures : (b : Bool) (o : Option A) → Ensures P o → Ensures P (if b then o else none)
  if-Ensures true o f a e = f a e
  if-Ensures false o f a e = cc

  pub get_or-Ensures : (o : Option A) (d : A) → Ensures P o → P d → P (get_or o d)
  get_or-Ensures none d f h = h
  get_or-Ensures (some a) d f h = f a refl

  pub if_else : (b : Bool) (x y : A) → P x → P y → P (if b then x else y)
  if_else true x y h k = h
  if_else false x y h k = k

  pub if_cases :
      (b : Bool) (x y : A) → (b ≡ true → P x) → (b ≡ false → P y) → P (if b then x else y)
  if_cases true x y h k = h refl
  if_cases false x y h k = k refl

  pub some-Ensures : (a : A) → P a → Ensures P (some a)
  some-Ensures a h b e = subst P (some-injective a b e) h

module _ {A B : Type 0} (P : B → Type 0) where
  pub bind-Ensures :
      (o : Option A) (f : A → Option B)
      → ((a : A) → o ≡ some a → Ensures P (f a))
      → Ensures P (elim o [ none ↦ none | some a ↦ f a ])
  bind-Ensures none f h b e = cc
  bind-Ensures (some a) f h b e = h a refl b e
