-- ===== src/Monitor/Parser/Reader/Bounds.antt =====
-- syscallParser.go: what a reader takes from the buffer, and how long a string can get.
use kube_armor.Base.{
  Option, length, length-append, none, some, ◌++◌, ◌≡◌, ◌≤◌, ◌+◌, ◌-◌, ◌%◌, ◌^◌, ◌∷◌, [], arith,
  refl, suc, zero, ℕ,
}
use kube_armor.Base.Comparable.{nat_eq}
use kube_armor.Base.Text.{Text, drop}
use kube_armor.Monitor.Parser.Reader.{
  Read, ◌>>=◌, go_min, little_endian, max_string_len, read_byte_slice, read_full, read_little,
  read_string,
}

-- A successful bind has two successful parts.
pub bind_parts {ℓ κ} :
    {A : Type ℓ} {B : Type κ} (m : Option A) (f : A → Option B) (b : B)
    → (m >>= f) ≡ some b
    → (a : A) × (m ≡ some a) × (f a ≡ some b)
bind_parts none f b h = cc
bind_parts (some a) f b h = (a, refl, h)

pub read_full-append : (t s : Text) → read_full (length t) (t ++ s) ≡ some (t, s)
unfolding read_full
read_full-append [] s = refl
read_full-append (b ∷ t) s = rw (read_full-append t s) refl

-- What is read comes first in the buffer, and has the length asked for.
pub read_full-splits :
    (n : ℕ) (s t rest : Text) → read_full n s ≡ some (t, rest) → (s ≡ t ++ rest) × (length t ≡ n)
unfolding read_full
read_full-splits zero s t rest h = ground (arith, h)
read_full-splits (suc n) [] t rest h = cc
read_full-splits (suc n) (b ∷ s) t rest h =
    let ((bs, r), ran, e) = bind_parts (read_full n s) (λ p. some (b ∷ p.0, p.1)) (t, rest) h in
    ground (arith, read_full-splits n s bs r ran, e)

drop_one-shorter : (s : Text) → length (drop 1 s) ≤ length s
unfolding drop
drop_one-shorter [] = omega arith
drop_one-shorter (b ∷ s) = ground arith

pub read_full-shorter :
    (n : ℕ) (s t rest : Text)
    → read_full n s ≡ some (t, rest)
    → (length rest + n ≡ length s) × (length t ≡ n)
read_full-shorter n s t rest h =
    let (e, l) = read_full-splits n s t rest h in (rw e (omega (arith, length-append t rest, l)), l)

pub read_little-shorter :
    (n : ℕ) (s : Text) (v : ℕ) (rest : Text)
    → read_little n s ≡ some (v, rest)
    → length rest + n ≡ length s
unfolding read_little
read_little-shorter n s v rest h =
    let ((bs, r), ran, e) =
      bind_parts (read_full n s) (λ p. some (little_endian p.0, p.1)) (v, rest) h in
    ground (arith, read_full-shorter n s bs r ran, e)

read_byte_slice-bounds :
    (n : ℕ) (s t rest : Text)
    → read_byte_slice n s ≡ some (t, rest)
    → (length t ≤ max_string_len) × (length rest ≤ length s)
unfolding read_byte_slice go_min max_string_len
read_byte_slice-bounds n s t rest h =
    ground (arith, h, read_full-shorter n s t rest, read_full-shorter 4096 s t rest)

abbrev without_null : Text × Text → Read Text
without_null p = some (p.0, drop 1 p.1)

-- The bytes after the size of a string.
bytes-bounds :
    (size : ℕ) (s t rest : Text)
    → (read_byte_slice size s >>= without_null) ≡ some (t, rest)
    → (length t ≤ max_string_len) × (length rest ≤ length s)
bytes-bounds size s t rest h =
    let ((bytes, s₂), ran, e) = bind_parts (read_byte_slice size s) without_null (t, rest) h in
    ground (arith, read_byte_slice-bounds size s bytes s₂ ran, drop_one-shorter s₂, e)

-- A string that is read has at most the greatest length, and its size stood before it.
pub read_string-bounds :
    (s t rest : Text)
    → read_string s ≡ some (t, rest)
    → (length t ≤ max_string_len) × (length rest + 4 ≤ length s)
unfolding read_string max_string_len
read_string-bounds s t rest h =
    let ((size, s₁), sized, e) = bind_parts (read_little 4 s) _ (t, rest) h in
    ground (
      arith,
      e,
      read_little-shorter 4 s size s₁ sized,
      bytes-bounds ((size + 2 ^ 32 - 1) % 2 ^ 32) s₁ t rest,
    )
