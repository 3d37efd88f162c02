-- ===== src/Base/Lists.antt =====
-- Lists measured by native numbers, with a Boolean test for emptiness.
use Prim.Native.Nat.{ℕ, zero, suc, ◌+◌, ◌≤◌, ◌<◌}
use mathlib.Core.Option.{Option, none, some}
use mathlib.Core.Path.{◌≡◌, refl}
use mathlib.Core.Bool.{Bool, true, false, ◌||◌}
use mathlib.Core.List.{List, [], ◌∷◌, ◌++◌}
use native.Mathlib.Omega.{arith}

module _ {ℓ} {A : Type ℓ} where
  abbrev pub length : List A → ℕ
  length [] = 0
  length (x ∷ xs) = suc (length xs)

  -- `len(xs) == 0`
  abbrev pub is_empty : List A → Bool
  is_empty [] = true
  is_empty (x ∷ xs) = false

  abbrev pub replicate : ℕ → A → List A
  replicate zero a = []
  replicate (suc n) a = a ∷ replicate n a

  -- Some element passes the test.
  abbrev pub any : (A → Bool) → List A → Bool
  any p [] = false
  any p (x ∷ xs) = p x || any p xs

  -- All but the last element, `xs[0:len(xs)-1]` of a list that has one.
  abbrev pub drop_last : List A → List A
  drop_last [] = []
  drop_last (x ∷ []) = []
  drop_last (x ∷ y ∷ r) = x ∷ drop_last (y ∷ r)

  -- `copy(dst, src)`: the elements of `src` over the first ones of `dst`, as many as there is
  -- room for. What `src` does not reach is kept.
  unfoldable pub copy : List A → List A → List A
  copy [] src = []
  copy (d ∷ dst) [] = d ∷ dst
  copy (d ∷ dst) (s ∷ src) = s ∷ copy dst src

  pub length-copy : (dst src : List A) → length (copy dst src) ≡ length dst
  unfolding copy
  length-copy [] src = refl
  length-copy (d ∷ dst) [] = refl
  length-copy (d ∷ dst) (s ∷ src) = omega (arith, length-copy dst src)

  abbrev pub get_elem? : List A → ℕ → Option A
  get_elem? [] i = none
  get_elem? (x ∷ xs) zero = some x
  get_elem? (x ∷ xs) (suc i) = get_elem? xs i

  -- Past the end of the source a copy leaves the destination.
  pub get_elem?-copy_kept :
      (dst src : List A) (i : ℕ) → length src ≤ i → get_elem? (copy dst src) i ≡ get_elem? dst i
  unfolding copy
  get_elem?-copy_kept [] src i h = refl
  get_elem?-copy_kept (d ∷ dst) [] i h = refl
  get_elem?-copy_kept (d ∷ dst) (s ∷ src) zero h = absurd (omega arith)
  get_elem?-copy_kept (d ∷ dst) (s ∷ src) (suc i) h = get_elem?-copy_kept dst src i (omega arith)

  pub get_elem?-copy_middle :
      (dst a : List A) (c : A) (rest : List A)
      → length a < length dst
      → get_elem? (copy dst (a ++ (c ∷ rest))) (length a) ≡ some c
  unfolding copy
  get_elem?-copy_middle [] a c rest h = absurd (omega arith)
  get_elem?-copy_middle (d ∷ dst) [] c rest h = refl
  get_elem?-copy_middle (d ∷ dst) (x ∷ a) c rest h =
      get_elem?-copy_middle dst a c rest (omega arith)

  pub get_elem?-replicate : (n i : ℕ) (a : A) → i < n → get_elem? (replicate n a) i ≡ some a
  get_elem?-replicate zero i a h = absurd (omega arith)
  get_elem?-replicate (suc n) zero a h = refl
  get_elem?-replicate (suc n) (suc i) a h = get_elem?-replicate n i a (omega arith)

  pub length-replicate : (n : ℕ) (a : A) → length (replicate n a) ≡ n
  length-replicate zero a = refl
  length-replicate (suc n) a = omega (arith, length-replicate n a)

  pub length-append : (xs ys : List A) → length (xs ++ ys) ≡ length xs + length ys
  length-append [] ys = omega arith
  length-append (x ∷ xs) ys = omega (arith, length-append xs ys)

-- A loop over a list that changes a state.
abbrev pub each {ℓ κ} : {A : Type ℓ} {S : Type κ} → (A → S → S) → List A → S → S
each f [] s = s
each f (x ∷ xs) s = each f xs (f x s)
