-- ===== src/Base/Decimal.antt =====
-- `strconv.Itoa` on natural numbers.
use kube_armor.Base.Text.{Text}
use kube_armor.Base.Tests.{ltb, if◌then◌else◌, Bool-cases}
use Prim.Native.Nat.{ℕ, zero, suc, ◌+◌, ◌-◌, ◌*◌, ◌/◌, ◌%◌, ◌<◌}
use mathlib.Core.Path.{◌≡◌, refl}
use mathlib.Core.Logic.{inl, inr}
use mathlib.Core.List.{[], ◌∷◌, ◌++◌}
use native.Mathlib.Omega.{arith}

-- The digits of a number, on fuel.
unfoldable pub digits : ℕ → ℕ → Text
digits zero n = []
digits (suc fuel) n =
    let rest = digits fuel (n / 10) in
    if ltb n 10 then (b'0' + n) ∷ [] else rest ++ ((b'0' + n % 10) ∷ [])

-- A number has fewer digits than one more than itself.
unfoldable pub itoa : ℕ → Text
itoa n = digits (suc n) n

-- The number that decimal digits stand for.
unfoldable pub number_from : ℕ → Text → ℕ
number_from acc [] = acc
number_from acc (c ∷ s) = number_from (acc * 10 + (c - b'0')) s

number_from-append :
    (acc c : ℕ) (s : Text) → number_from acc (s ++ (c ∷ [])) ≡ number_from acc s * 10 + (c - b'0')
unfolding number_from
number_from-append acc c [] = refl
number_from-append acc c (d ∷ s) = number_from-append (acc * 10 + (d - b'0')) c s

number_from-digits : (fuel n : ℕ) → n < fuel → number_from 0 (digits fuel n) ≡ n
unfolding digits number_from
number_from-digits zero n h = omega arith
number_from-digits (suc fuel) n h = elim (Bool-cases (ltb n 10)) [
  | inl small ↦ ground (arith, small)
  | inr large ↦ ground (
    arith,
    large,
    number_from-append 0 (b'0' + n % 10) (digits fuel (n / 10)),
    number_from-digits fuel (n / 10),
  )
]

-- The fuel is enough.
pub number_from-itoa : (n : ℕ) → number_from 0 (itoa n) ≡ n
unfolding itoa
number_from-itoa n = number_from-digits (suc n) n (omega arith)
