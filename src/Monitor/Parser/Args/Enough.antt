-- ===== src/Monitor/Parser/Args/Enough.antt =====
-- syscallParser.go: the loop over an array of strings ends, since each round shortens the buffer.
use kube_armor.Base.{
  Bool-cases, List, Option, Option-cases, false, length, none, some, ◌++◌, ◌≡◌, ◌<◌, ◌∷◌, [], arith,
  inl, inr, suc, zero, ℕ,
}
use kube_armor.Base.Comparable.{nat_eq, ◌==◌}
use kube_armor.Base.Text.{Text}
use kube_armor.Monitor.Parser.Args.{read_strings}
use kube_armor.Monitor.Parser.Reader.{read_little, read_string}
use kube_armor.Monitor.Parser.Reader.Bounds.{read_little-shorter, read_string-bounds}

-- The runs of the loop that end, without any bound on the rounds: from the type of the next element,
-- the strings so far and the buffer, to the strings and the rest of the buffer, or to none where a
-- read has failed.
pub data Run : ℕ → List Text → Text → Option (List Text × Text) → Type 0 where
  ended : (ss : List Text) (s : Text) → Run 11 ss s (some (ss, s))
  no_string :
      (et : ℕ) (ss : List Text) (s : Text)
      → (et == 11) ≡ false
      → read_string s ≡ none
      → Run et ss s none
  no_type :
      (et : ℕ) (ss : List Text) (s str s₁ : Text)
      → (et == 11) ≡ false
      → read_string s ≡ some (str, s₁)
      → read_little 1 s₁ ≡ none
      → Run et ss s none
  round :
      (et : ℕ) (ss : List Text) (s str s₁ : Text) (et' : ℕ) (s₂ : Text)
      (r : Option (List Text × Text))
      → (et == 11) ≡ false
      → read_string s ≡ some (str, s₁)
      → read_little 1 s₁ ≡ some (et', s₂)
      → Run et' (ss ++ (str ∷ [])) s₂ r
      → Run et ss s r

read_strings_end :
    (f : ℕ) (et : ℕ) (ss : List Text) (s : Text)
    → et ≡ 11
    → Run et ss s (read_strings (suc f) et ss s)
unfolding read_strings
read_strings_end f et ss s e = rw e (ended ss s)

-- With more fuel than the buffer has bytes, `read_strings` gives the result of a run that ends, by the
-- final type or by a read that fails: the fuel is never used up.
pub read_strings-Run :
    (f et : ℕ) (ss : List Text) (s : Text) → length s < f → Run et ss s (read_strings f et ss s)
unfolding read_strings
read_strings-Run zero et ss s p = absurd (omega arith)
read_strings-Run (suc f) et ss s p = elim (Bool-cases (et == 11)) [
  | inl last ↦ read_strings_end f et ss s ((nat_eq.equal_iff et 11).0 last)
  | inr more ↦ elim (Option-cases (read_string s)) [
    | inl failed ↦ rw (read_strings, failed, more) (no_string et ss s more failed)
    | inr ((str, s₁), ran) ↦ elim (Option-cases (read_little 1 s₁)) [
      | inl failed ↦ rw (read_strings, ran, failed, more) (no_type et ss s str s₁ more ran failed)
      | inr ((et', s₂), typed) ↦
          let shorter = read_string-bounds s str s₁ ran in
          let rest =
            read_strings-Run f et' (ss ++ (str ∷ [])) s₂
              (omega (arith, shorter, read_little-shorter 1 s₁ et' s₂ typed)) in
          rw (read_strings, ran, typed, more) (round et ss s str s₁ et' s₂ _ more ran typed rest)
    ]
  ]
]
