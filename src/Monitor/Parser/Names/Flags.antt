-- ===== src/Monitor/Parser/Names/Flags.antt =====
-- syscallParser.go: the text of the flags of open, which the policy matcher searches for O_RDONLY.
use mathlib.Core.Logic.{inl, inr}
use kube_armor.Base.{Bool-cases, List, false, not, true, ◌&&◌, ◌++◌, ◌∙◌, ◌≡◌, ◌∷◌, [], refl, ℕ}
use kube_armor.Base.GoMap.{GoMap}
use kube_armor.Base.Text.{Text, codes, contains, has_prefix, join}
use kube_armor.Monitor.Parser.Names.{access_mode, all_set, get_open_flags, open_flags, set_names}

abbrev read_only : Text
read_only = codes "O_RDONLY"

-- The word does not contain the mode, and neither does it together with a bar behind it.
Foreign : Text → Type 0
Foreign w =
    (contains w read_only ≡ false)
    × ((rest : Text) → contains (w ++ (b'|' ∷ rest)) read_only ≡ contains rest read_only)

AllForeign : GoMap ℕ Text → Type 0
AllForeign [] = Unit
AllForeign ((mask, name) ∷ table) = Foreign name × AllForeign table

open_flags-AllForeign : AllForeign open_flags
unfolding AllForeign Foreign open_flags contains has_prefix
open_flags-AllForeign = (
  (refl, λ r. refl),
  (
    (refl, λ r. refl),
    (
      (refl, λ r. refl),
      (
        (refl, λ r. refl),
        (
          (refl, λ r. refl),
          (
            (refl, λ r. refl),
            (
              (refl, λ r. refl),
              (
                (refl, λ r. refl),
                (
                  (refl, λ r. refl),
                  (
                    (refl, λ r. refl),
                    (
                      (refl, λ r. refl),
                      (
                        (refl, λ r. refl),
                        (
                          (refl, λ r. refl),
                          ((refl, λ r. refl), ((refl, λ r. refl), ((refl, λ r. refl), tt))),
                        ),
                      ),
                    ),
                  ),
                ),
              ),
            ),
          ),
        ),
      ),
    ),
  ),
)

Foreign-join :
    (w : Text) (table : GoMap ℕ Text) (flags : ℕ)
    → Foreign w
    → AllForeign table
    → contains (join b'|' (w ∷ set_names table flags)) read_only ≡ false
unfolding Foreign AllForeign set_names join
Foreign-join w [] flags (alone, behind) h = alone
Foreign-join w ((mask, name) ∷ table) flags (alone, behind) (named, h) =
    elim (Bool-cases (all_set mask flags)) [
      | inl set ↦
          rw (set_names, set)
            (behind (join b'|' (name ∷ set_names table flags))
              ∙ Foreign-join name table flags named h)
      | inr unset ↦ rw (set_names, unset) (Foreign-join w table flags (alone, behind) h)
    ]

modes-Foreign : Foreign (codes "O_WRONLY") × Foreign (codes "O_RDWR")
unfolding Foreign contains has_prefix
modes-Foreign = ((refl, λ r. refl), (refl, λ r. refl))

-- The mode itself is found wherever the text goes on.
starts_with_mode : (ws : List Text) → contains (join b'|' (read_only ∷ ws)) read_only ≡ true
unfolding contains has_prefix join
starts_with_mode [] = refl
starts_with_mode (w ∷ ws) = refl

-- The text of the flags contains O_RDONLY exactly if neither bit of the access mode is set.
pub contains-get_open_flags :
    (flags : ℕ)
    → contains (get_open_flags flags) (codes "O_RDONLY")
      ≡ not (all_set 1 flags) && not (all_set 2 flags)
unfolding get_open_flags access_mode
contains-get_open_flags flags = elim (Bool-cases (all_set 1 flags)) [
  | inl writes ↦
      rw (get_open_flags, access_mode, writes)
        (Foreign-join (codes "O_WRONLY") open_flags flags modes-Foreign.0 open_flags-AllForeign)
  | inr other ↦ elim (Bool-cases (all_set 2 flags)) [
    | inl both ↦
        rw (get_open_flags, access_mode, other, both)
          (Foreign-join (codes "O_RDWR") open_flags flags modes-Foreign.1 open_flags-AllForeign)
    | inr reads ↦
        rw (get_open_flags, access_mode, other, reads)
          (starts_with_mode (set_names open_flags flags))
  ]
]
