-- ===== src/Base/Paths.antt =====
-- What the code uses of the package `path/filepath`.
use kube_armor.Base.Comparable.{nat_eq, text_eq, ◌==◌}
use kube_armor.Base.Lists.{is_empty}
use kube_armor.Base.Tests.{if◌then◌else◌}
use kube_armor.Base.Text.{Text, codes, has_prefix, join, split}
use Prim.Native.Nat.{ℕ, ◌+◌}
use mathlib.Core.Bool.{Bool, not, ◌&&◌, ◌||◌}
use mathlib.Core.List.{List, [], ◌∷◌, reverse}

-- The path up to its last slash.
unfoldable pub up_to_slash : Text → Text
up_to_slash [] = []
up_to_slash (c ∷ s) =
    let rest = up_to_slash s in
    if not (is_empty rest) then c ∷ rest else if c == b'/' then c ∷ [] else []

-- One element of a path over the ones before it, the last first.
unfoldable pub step_into : Bool → Text → List Text → List Text
step_into rooted part [] =
    if is_empty part || part == codes "." || (rooted && part == codes "..") then [] else part ∷ []
step_into rooted part (top ∷ stack) =
    if is_empty part || part == codes "."
    then top ∷ stack
    else if part == codes ".." && not (top == codes "..")
    then stack
    else part ∷ top ∷ stack

unfoldable pub walk : Bool → List Text → List Text → List Text
walk rooted [] stack = stack
walk rooted (part ∷ parts) stack = walk rooted parts (step_into rooted part stack)

-- `filepath.Clean(path)`
unfoldable pub clean : Text → Text
clean path =
    let rooted = has_prefix path (codes "/") in
    let joined = join b'/' (reverse (walk rooted (split b'/' path) [])) in
    if rooted then b'/' ∷ joined else if is_empty joined then codes "." else joined

-- `filepath.Dir(path)`
unfoldable pub path_dir : Text → Text
path_dir path = clean (up_to_slash path)

-- `strings.Count(s, c)` for one byte.
unfoldable pub count : ℕ → Text → ℕ
count c [] = 0
count c (d ∷ s) = let rest = count c s in if d == c then 1 + rest else rest
