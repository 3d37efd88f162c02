-- ===== src/Feeder/Resources/Directories.antt =====
-- policyMatcher.go: which directories a directory rule covers.
use mathlib.Core.Logic.{◌↔◌, ◌≢◌, ◌⊎◌, inl, inr}
use kube_armor.Base.{
  Bool-cases, false, if◌then◌else◌, true, ◌++◌, ◌∷◌, [], ◌≡◌, refl, ap, sym, ◌∙◌, arith, ◌≤◌,
}
use kube_armor.Base.Comparable.{nat_eq, text_eq, text_beq, ◌==◌}
use kube_armor.Base.Paths.{count, path_dir}
use kube_armor.Base.Text.{Text, codes, has_prefix}
use kube_armor.Feeder.Resources.{dir_covers, get_directory_part, match_process, match_resources}
use kube_armor.Feeder.State.{Log, MatchPolicy}

count-slash : (s : Text) → 1 ≤ count b'/' (s ++ (b'/' ∷ []))
unfolding count
count-slash [] = omega arith
count-slash (c ∷ s) = ground (arith, count-slash s)

has_prefix_self : (s : Text) → has_prefix s s ≡ true
unfolding has_prefix
has_prefix_self [] = refl
has_prefix_self (c ∷ s) = ground (arith, has_prefix_self s)

count-prefix : (s r : Text) → has_prefix s r ≡ true → count b'/' r ≤ count b'/' s
unfolding has_prefix count
count-prefix s [] h = ground arith
count-prefix [] (d ∷ r) h = ground arith
count-prefix (c ∷ s) (d ∷ r) h = ground (arith, count-prefix s r)

-- A path with a slash at its end is the prefix that has as many slashes.
same_depth :
    (s r : Text)
    → has_prefix (s ++ (b'/' ∷ [])) r ≡ true
    → count b'/' (s ++ (b'/' ∷ [])) ≡ count b'/' r
    → s ++ (b'/' ∷ []) ≡ r
unfolding has_prefix count
same_depth [] [] h e = ground arith
same_depth [] (d ∷ []) h e = ground arith
same_depth [] (d ∷ f ∷ r) h e = ground arith
same_depth (c ∷ s) [] h e = ground (arith, count-slash s)
same_depth (c ∷ s) (d ∷ r) h e = ground (arith, same_depth s r)

dir_covers-exact :
    (resource s : Text)
    → (dir_covers resource false (s ++ (b'/' ∷ [])) ≡ true) ↔ (s ++ (b'/' ∷ []) ≡ resource)
unfolding dir_covers
dir_covers-exact resource s = (
  λ h. same_depth s resource (ground (arith, h)) (ground (arith, h)),
  λ e. rw e (ground (arith, has_prefix_self resource)),
)

-- A recursive rule covers what its directory is a prefix of.
dir_covers-prefix : (resource dir : Text) → dir_covers resource true dir ≡ has_prefix dir resource
unfolding dir_covers
dir_covers-prefix resource dir = ground (arith, count-prefix dir resource)

with_slash : Text → Text
with_slash dir =
    if has_prefix dir (codes "/") then dir ++ codes "/" else codes "__not_absolute_path__"

slash_or_not :
    (dir : Text)
    → ((s : Text) × (with_slash dir ≡ b'/' ∷ (s ++ (b'/' ∷ []))))
      ⊎ (with_slash dir ≡ codes "__not_absolute_path__")
unfolding with_slash has_prefix
slash_or_not [] = inr refl
slash_or_not (c ∷ s) = elim (Bool-cases (c == b'/')) [
  | inl slash ↦ inl (s, ground (arith, slash))
  | inr other ↦ inr ground (arith, other)
]

-- The directory of a path ends in a slash, or the path has none.
directory-cases :
    (path : Text)
    → ((s : Text) × (get_directory_part path ≡ b'/' ∷ (s ++ (b'/' ∷ []))))
      ⊎ (get_directory_part path ≡ codes "__not_absolute_path__")
unfolding get_directory_part with_slash
directory-cases path = slash_or_not (path_dir path)

append-nonempty : (s : Text) → s ++ (b'/' ∷ []) ≢ []
append-nonempty [] e = ground (arith, e)
append-nonempty (c ∷ s) e = ground (arith, e)

rooted_root : has_prefix (codes "/") (codes "/") ≡ true
unfolding has_prefix
rooted_root = refl

root_differs : (path : Text) → get_directory_part path ≢ codes "/"
root_differs path e = elim (directory-cases path) [
  | inl (s, slashed) ↦ append-nonempty s (ground (arith, e, slashed))
  | inr none_found ↦ ground (arith, e, none_found)
]

-- A directory rule does not cover a path without a directory.
no_directory :
    (resource : Text)
    → has_prefix resource (codes "/") ≡ true
    → (dir_covers resource false (codes "__not_absolute_path__") ≡ true)
      ↔ (codes "__not_absolute_path__" ≡ resource)
unfolding dir_covers has_prefix
no_directory [] h = (λ e. ground (arith, h), λ e. ground (arith, h))
no_directory (c ∷ r) h = (λ e. ground (arith, h, e), λ e. ground (arith, h, e))

covers_directory :
    (resource path : Text)
    → has_prefix resource (codes "/") ≡ true
    → (dir_covers resource false (get_directory_part path) ≡ true)
      ↔ (get_directory_part path ≡ resource)
covers_directory resource path h = elim (directory-cases path) [
  | inl (s, e) ↦ rw e (dir_covers-exact resource (b'/' ∷ s))
  | inr e ↦ rw e (no_directory resource h)
]

append_slash-injective : (s t : Text) → s ++ codes "/" ≡ t ++ codes "/" → s ≡ t
append_slash-injective [] [] e = refl
append_slash-injective [] (d ∷ t) e = absurd (append-nonempty t (ground (arith, e)))
append_slash-injective (c ∷ s) [] e = absurd (append-nonempty s (ground (arith, e)))
append_slash-injective (c ∷ s) (d ∷ t) e = ground (arith, e, append_slash-injective s t)

rooted_append :
    (dir : Text)
    → has_prefix dir (codes "/") ≡ true
    → has_prefix (dir ++ codes "/") (codes "/") ≡ true
unfolding has_prefix
rooted_append [] h = ground (arith, h)
rooted_append (c ∷ s) h = ground (arith, h)

not_absolute :
    (dir : Text)
    → has_prefix dir (codes "/") ≡ true
    → codes "__not_absolute_path__" ≢ dir ++ codes "/"
unfolding has_prefix
not_absolute [] h e = ground (arith, h)
not_absolute (c ∷ s) h e = ground (arith, h, e)

directory_part-slash :
    (path dir : Text)
    → has_prefix dir (codes "/") ≡ true
    → (get_directory_part path ≡ dir ++ codes "/") ↔ (path_dir path ≡ dir)
unfolding get_directory_part
directory_part-slash path dir rooted = elim (Bool-cases (has_prefix (path_dir path) (codes "/"))) [
  | inl slash ↦
      rw (get_directory_part, slash)
        (append_slash-injective (path_dir path) dir, λ e. ap (λ d. d ++ codes "/") e)
  | inr other ↦
      rw (get_directory_part, other)
        (
          λ e. absurd (not_absolute dir rooted e),
          λ e. ground (arith, other, rooted, ap (λ d. has_prefix d (codes "/")) e),
        )
]

module _ {Regexp : Type 0} (m : MatchPolicy Regexp) (log : Log) where
  process_directory :
      m.operation ≡ codes "Process"
      → m.resource_type ≡ codes "Directory"
      → match_resources m log
        ≡ dir_covers m.resource m.recursive (get_directory_part log.process_name)
  unfolding match_resources match_process text_beq
  process_directory op kind = rw (op, kind) refl

  match_resources-flat :
      m.operation ≡ codes "Process"
      → m.resource_type ≡ codes "Directory"
      → m.recursive ≡ false
      → has_prefix m.resource (codes "/") ≡ true
      → (match_resources m log ≡ true) ↔ (get_directory_part log.process_name ≡ m.resource)
  match_resources-flat op kind flat rooted =
      rw (process_directory op kind, flat) (covers_directory m.resource log.process_name rooted)

  -- A process rule that is not recursive, for a directory that is written as a rooted path with a slash
  -- after it, matches the processes whose program is in this directory by filepath.Dir, and no others.
  pub match_resources-directory :
      (dir : Text)
      → m.operation ≡ codes "Process"
      → m.resource_type ≡ codes "Directory"
      → m.recursive ≡ false
      → m.resource ≡ dir ++ codes "/"
      → has_prefix dir (codes "/") ≡ true
      → (match_resources m log ≡ true) ↔ (path_dir log.process_name ≡ dir)
  match_resources-directory dir op kind flat named rooted =
      let rule =
        match_resources-flat op kind flat
          (ap (λ r. has_prefix r (codes "/")) named ∙ rooted_append dir rooted) in
      let same = directory_part-slash log.process_name dir rooted in
      (λ hit. same.0 (rule.0 hit ∙ named), λ found. rule.1 (same.1 found ∙ sym named))

  -- A recursive process rule for a directory matches the processes whose program has a directory
  -- that begins with it.
  pub match_resources-recursive :
      m.operation ≡ codes "Process"
      → m.resource_type ≡ codes "Directory"
      → m.recursive ≡ true
      → match_resources m log ≡ has_prefix (get_directory_part log.process_name) m.resource
  match_resources-recursive op kind deep =
      process_directory op kind
      ∙ ap (λ b. dir_covers m.resource b (get_directory_part log.process_name)) deep
      ∙ dir_covers-prefix m.resource (get_directory_part log.process_name)

  -- A process rule for the root directory that is not recursive matches no process.
  pub match_resources-root :
      m.operation ≡ codes "Process"
      → m.resource_type ≡ codes "Directory"
      → m.recursive ≡ false
      → m.resource ≡ codes "/"
      → match_resources m log ≡ false
  match_resources-root op kind flat root = elim (Bool-cases (match_resources m log)) [
    | inl hit ↦ absurd (
        root_differs log.process_name (
          (match_resources-flat op kind flat
              (ap (λ r. has_prefix r (codes "/")) root ∙ rooted_root)).0
            hit
          ∙ root))
    | inr miss ↦ miss
  ]
