-- ===== src/Bpflsm/Directory/Hints.antt =====
-- Which directories get a hint: the proper ancestors of the directory, from the root down.
use mathlib.Core.List.{append_assoc}
use kube_armor.Base.{
  ℕ, ◌≡◌, refl, sym, List, [], ◌∷◌, ◌++◌, arith, Bool-cases, inl, inr, nat_beq, nat_beq_iff,
}
use kube_armor.Base.Text.{Text, split, join, add_front}
use kube_armor.Bpflsm.Directory.{slash, hint_paths, hints_of}

-- `split` yields at least one part.
abbrev IsCons : List Text → Type 0
IsCons [] = ⊥
IsCons (w ∷ ws) = Unit

split-IsCons : (sep : ℕ) (s : Text) → IsCons (split sep s)
unfolding split
split-IsCons sep [] = tt
split-IsCons sep (c ∷ s) = ground (arith, split-IsCons sep s)

join-cons :
    (sep : ℕ) (w : Text) (ws : List Text) → IsCons ws → join sep (w ∷ ws) ≡ w ++ (sep ∷ join sep ws)
unfolding join
join-cons sep w [] h = elim h [ ]
join-cons sep w (v ∷ ws) h = refl

join-add_front :
    (sep c : ℕ) (ws : List Text) → IsCons ws → join sep (add_front c ws) ≡ c ∷ join sep ws
unfolding join
join-add_front sep c [] h = elim h [ ]
join-add_front sep c (w ∷ []) h = refl
join-add_front sep c (w ∷ v ∷ ws) h = refl

-- Joining the parts of a split gives the text back.
pub join-split : (sep : ℕ) (s : Text) → join sep (split sep s) ≡ s
unfolding split
join-split sep [] = refl_join
  where
    refl_join : join sep ([] ∷ []) ≡ []
    refl_join = unfold join in refl
join-split sep (c ∷ s) = elim (Bool-cases (nat_beq c sep)) [
  | inl e ↦
      let same : c ≡ sep = (nat_beq_iff c sep).0 e in
      rw (e, join-cons sep [] (split sep s) (split-IsCons sep s), join-split sep s, same)
  | inr e ↦ rw (e, join-add_front sep c (split sep s) (split-IsCons sep s), join-split sep s)
]

join-append :
    (sep : ℕ) (us ws : List Text)
    → IsCons us
    → IsCons ws
    → join sep (us ++ ws) ≡ join sep us ++ (sep ∷ join sep ws)
unfolding join
join-append sep [] ws h k = elim h [ ]
join-append sep (u ∷ []) ws h k = join-cons sep u ws k
join-append sep (u ∷ v ∷ us) ws h k =
    rw (join-append sep (v ∷ us) ws tt k)
      (sym (append_assoc u (sep ∷ join sep (v ∷ us)) (sep ∷ join sep ws)))

snoc-IsCons : (us : List Text) (w : Text) → IsCons (us ++ (w ∷ []))
snoc-IsCons [] w = tt
snoc-IsCons (u ∷ us) w = tt

-- `h` is `p` up to a slash that is not its last one.
abbrev pub IsAncestor : Text → Text → Type 0
IsAncestor p h = (w a b : Text) × (h ≡ w ++ (slash ∷ [])) × (p ≡ h ++ (a ++ (slash ∷ b)))

abbrev pub AllAncestors : Text → List Text → Type 0
AllAncestors p [] = Unit
AllAncestors p (h ∷ hs) = IsAncestor p h × AllAncestors p hs

hint_paths-AllAncestors :
    (p : Text) (above below : List Text)
    → IsCons above
    → join slash (above ++ below) ≡ p
    → AllAncestors p (hint_paths above below)
unfolding hint_paths
hint_paths-AllAncestors p above [] h e = tt
hint_paths-AllAncestors p above (x ∷ []) h e = tt
hint_paths-AllAncestors p above (x ∷ y ∷ below) h e = (
  (
    join slash above,
    x,
    join slash (y ∷ below),
    refl,
    rw (← e, join-append slash above (x ∷ y ∷ below) h tt, join-cons slash x (y ∷ below) tt)
        (sym (append_assoc (join slash above) (slash ∷ []) _)),
  ),
  hint_paths-AllAncestors p (above ++ (x ∷ [])) (y ∷ below) (snoc-IsCons above x)
      (rw append_assoc e),
)

-- Every hint of `p` is a directory above `p`.
pub hints_of-AllAncestors : (p : Text) → AllAncestors p (hints_of (split slash p))
hints_of-AllAncestors p = go (split slash p) (join-split slash p)
  where
    go : (ws : List Text) → join slash ws ≡ p → AllAncestors p (hints_of ws)
    go [] e = tt
    go (w ∷ ws) e = hint_paths-AllAncestors p (w ∷ []) ws tt e
