-- ===== src/Base/Text.antt =====
-- Go strings as lists of bytes, with what the code uses of the package `strings`.
use Prim.Native.Nat.{ℕ, zero, suc, ◌+◌, ◌-◌}
use Prim.Native.Char.{code}
use Prim.Native.String.{String}
use mathlib.Core.Bool.{Bool, true, false, ◌&&◌, ◌||◌}
use mathlib.Core.List.{List, [], ◌∷◌, ◌++◌, map, reverse}
use kube_armor.Base.Lists.{length}
use kube_armor.Base.Tests.{leb, nat_beq, if◌then◌else◌}

abbrev pub Text : Type 0
Text = List ℕ

-- The bytes of an ASCII literal.
abbrev pub codes : String → Text
codes String.[] = []
codes (String.◌∷◌ c s) = code c ∷ codes s

-- `strings.HasPrefix(s, p)`
unfoldable pub has_prefix : Text → Text → Bool
has_prefix s [] = true
has_prefix [] (p ∷ ps) = false
has_prefix (c ∷ s) (p ∷ ps) = nat_beq c p && has_prefix s ps

-- `strings.HasSuffix(s, p)`
unfoldable pub has_suffix : Text → Text → Bool
unfolding has_prefix
has_suffix s p = has_prefix (reverse s) (reverse p)

-- `strings.Contains(s, p)`
unfoldable pub contains : Text → Text → Bool
unfolding has_prefix
contains [] p = has_prefix [] p
contains (c ∷ s) p = has_prefix (c ∷ s) p || contains s p

-- `strings.ToUpper` and `strings.ToLower`, on ASCII.
unfoldable pub to_upper : Text → Text
to_upper = map (λ c. if leb b'a' c && leb c b'z' then c - 32 else c)

unfoldable pub to_lower : Text → Text
to_lower = map (λ c. if leb b'A' c && leb c b'Z' then c + 32 else c)

-- `strings.Split(s, sep)` for a separator of one byte: one more part than separators.
abbrev pub add_front : ℕ → List Text → List Text
add_front c [] = (c ∷ []) ∷ []
add_front c (w ∷ ws) = (c ∷ w) ∷ ws

unfoldable pub split : ℕ → Text → List Text
split sep [] = [] ∷ []
split sep (c ∷ s) = if nat_beq c sep then [] ∷ split sep s else add_front c (split sep s)

-- `strings.Join(ws, sep)` for a separator of one byte.
unfoldable pub join : ℕ → List Text → Text
join sep [] = []
join sep (w ∷ []) = w
join sep (w ∷ v ∷ ws) = w ++ (sep ∷ join sep (v ∷ ws))

-- `strings.Replace(s, old, new, 1)`: the first occurrence, counted from the left.
unfoldable pub drop : ℕ → Text → Text
drop zero s = s
drop (suc n) [] = []
drop (suc n) (c ∷ s) = drop n s

unfoldable pub replace_first : Text → Text → Text → Text
unfolding has_prefix drop
replace_first [] old new = if has_prefix [] old then new else []
replace_first (c ∷ s) old new =
    let rest = replace_first s old new in
    if has_prefix (c ∷ s) old then new ++ drop (length old) (c ∷ s) else c ∷ rest

-- `strings.Split(s, sep)` for a longer separator: `skip` bytes of the last one are still to be
-- passed over.
unfoldable pub split_from : ℕ → Text → Text → List Text
unfolding has_prefix
split_from skip sep [] = [] ∷ []
split_from (suc skip) sep (c ∷ s) = split_from skip sep s
split_from zero sep (c ∷ s) =
    let after = split_from (length sep - 1) sep s in
    let within = add_front c (split_from zero sep s) in
    if has_prefix (c ∷ s) sep then [] ∷ after else within

unfoldable pub split_text : Text → Text → List Text
unfolding split_from
split_text sep s = split_from zero sep s
