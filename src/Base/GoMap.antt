-- ===== src/Base/GoMap.antt =====
-- A Go map as an association list. A `range` loop is a recursion on the list from its end, so
-- an entry behind an equal key never counts, and the result depends on `get` alone.
use mathlib.Core.Path.{◌≡◌, refl}
use mathlib.Core.Bool.{Bool}
use mathlib.Core.Option.{Option, none, some}
use mathlib.Core.List.{List, [], ◌∷◌}
use native.Mathlib.Omega.{arith}
use mathlib.Core.Logic.{inl, inr}
use kube_armor.Base.Tests.{Bool-cases, if◌then◌else◌, is_some}
use kube_armor.Base.Comparable.{Comparable, ◌==◌}

abbrev pub GoMap {ℓ} : Type ℓ → Type ℓ → Type ℓ
GoMap K V = List (K × V)

module _ {ℓ} {K V : Type ℓ} ⦃c : Comparable K⦄ where
  -- `v, ok := m[k]`
  unfoldable pub get : K → GoMap K V → Option V
  get k [] = none
  get k ((j, v) ∷ m) = if j == k then some v else get k m

  -- `m[k] = v`
  unfoldable pub put : K → V → GoMap K V → GoMap K V
  put k v [] = (k, v) ∷ []
  put k v ((j, w) ∷ m) = if j == k then (j, v) ∷ m else (j, w) ∷ put k v m

  -- `delete(m, k)`
  unfoldable pub delete : K → GoMap K V → GoMap K V
  delete k [] = []
  delete k ((j, w) ∷ m) = if j == k then delete k m else (j, w) ∷ delete k m

  abbrev pub has : K → GoMap K V → Bool
  has k m = is_some (get k m)

  pub get-put :
      (k j : K) (v : V) (m : GoMap K V) → get j (put k v m) ≡ (if k == j then some v else get j m)
  unfolding get put
  get-put k j v [] = refl
  get-put k j v ((i, w) ∷ m) =
      ground (arith, c.equal_iff k j, c.equal_iff i k, c.equal_iff i j, get-put k j v m)

  pub get-delete :
      (k j : K) (m : GoMap K V) → get j (delete k m) ≡ (if k == j then none else get j m)
  unfolding get delete
  get-delete k j [] = ground arith
  get-delete k j ((i, w) ∷ m) =
      ground (arith, c.equal_iff k j, c.equal_iff i k, c.equal_iff i j, get-delete k j m)

  -- No key stands twice.
  unfoldable pub Distinct : GoMap K V → Type ℓ
  Distinct [] = Unit
  Distinct ((k, v) ∷ m) = (get k m ≡ none) × Distinct m

  pub put-Distinct : (k : K) (v : V) (m : GoMap K V) → Distinct m → Distinct (put k v m)
  unfolding put Distinct get
  put-Distinct k v [] h = (refl, tt)
  put-Distinct k v ((j, w) ∷ m) (fresh, h) = elim (Bool-cases (j == k)) [
    | inl same ↦ rw (put, same) (fresh, h)
    | inr other ↦
        rw (put, other)
          (
            ground (arith, c.equal_iff k j, c.equal_iff j k, get-put k j v m, fresh),
            put-Distinct k v m h,
          )
  ]
