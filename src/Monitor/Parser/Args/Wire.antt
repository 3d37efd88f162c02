-- ===== src/Monitor/Parser/Args/Wire.antt =====
-- Reading undoes the writing of arguments by the kernel programs, but for empty strings.
use mathlib.Core.List.{append-nil, append_assoc}
use kube_armor.Base.{
  List, length, length-append, none, some, ◌++◌, ◌∙◌, ◌≡◌, ◌<◌, ◌≤◌, ◌+◌, ◌-◌, ◌/◌, ◌%◌, ◌^◌, ◌∷◌,
  [], ap, arith, refl, suc, sym, zero, ℕ,
}
use kube_armor.Base.Comparable.{nat_eq}
use kube_armor.Base.Text.{Text, drop}
use kube_armor.Monitor.Parser.Args.{
  Arg, str_arr_t, address_arg, data_type, get_args, int_arg, read_arg, read_args, read_strings,
  read_text, read_value, text_arg, texts_arg, word_arg,
}
use kube_armor.Monitor.Parser.Reader.{
  Read, ◌>>=◌, big_endian_from, go_min, little_endian, max_string_len, read_big, read_byte_slice,
  read_full, read_little, read_string,
}
use kube_armor.Monitor.Parser.Reader.Bounds.{read_full-append}
use kube_armor.Monitor.Parser.Args.Format.{
  little, write_string, write_strings, write_arg, write_args, Fits, AllShort, Plain, AllPlain,
}

little_endian-little : (v : ℕ) → v < 2 ^ 32 → little_endian (little 4 v) ≡ v
unfolding little_endian little
little_endian-little v h = omega arith

read_little-little :
    (v : ℕ) (rest : Text) → v < 2 ^ 32 → read_little 4 (little 4 v ++ rest) ≡ some (v, rest)
unfolding read_little little read_full
read_little-little v rest h = rw (little_endian-little v h) refl

read_byte_slice-append :
    (t s : Text)
    → 0 < length t
    → length t ≤ 4096
    → read_byte_slice (length t) (t ++ s) ≡ some (t, s)
unfolding read_byte_slice go_min max_string_len
read_byte_slice-append t s p q = ground (arith, read_full-append t s)

write_string-append :
    (t rest : Text) → write_string t ++ rest ≡ little 4 (length t + 1) ++ (t ++ (0 ∷ rest))
unfolding write_string
write_string-append t rest =
    append_assoc (little 4 (length t + 1)) (t ++ (0 ∷ [])) rest
    ∙ ap (λ r. little 4 (length t + 1) ++ r) (append_assoc t (0 ∷ []) rest)

read_string-write_string :
    (t rest : Text) → Fits t → read_string (write_string t ++ rest) ≡ some (t, rest)
unfolding read_string drop
read_string-write_string t rest (some_byte, short) =
    let size : (length t + 1 + 2 ^ 32 - 1) % 2 ^ 32 ≡ length t = omega (arith, short) in
    let bytes = read_byte_slice-append t (0 ∷ rest) some_byte short in
    ap read_string (write_string-append t rest)
    ∙ rw
        (
          read_string,
          read_little-little (length t + 1) (t ++ (0 ∷ rest)) (omega (arith, short)),
          size,
          bytes,
        )
        (ground arith)

-- The empty string has the size 1, and reading no byte after it is an error.
read_string-empty : (rest : Text) → read_string (write_string [] ++ rest) ≡ none
unfolding read_string read_byte_slice go_min
read_string-empty rest =
    ap read_string (write_string-append [] rest)
    ∙ rw (read_string, read_little-little 1 (0 ∷ rest) (omega arith)) (ground arith)

-- The loop from the type of its first element on.
strings_from : ℕ → List Text → Text → Read (List Text)
strings_from fuel ss s = do (et, s₁) ← read_little 1 s; read_strings fuel et ss s₁

read_little-byte : (b : ℕ) (s : Text) → read_little 1 (b ∷ s) ≡ some (b, s)
unfolding read_little read_full little_endian
read_little-byte b s = ap (λ v. some (v, s)) (omega arith)

strings_from-byte :
    (fuel et : ℕ) (s : Text) → strings_from fuel [] (et ∷ s) ≡ read_strings fuel et [] s
unfolding strings_from
strings_from-byte fuel et s = rw (strings_from, read_little-byte et s) refl

strings_from-write_strings :
    (fuel : ℕ) (ts ss : List Text) (rest : Text)
    → AllShort ts
    → length ts < fuel
    → strings_from fuel ss (write_strings ts ++ rest) ≡ some (ss ++ ts, rest)
unfolding strings_from write_strings AllShort read_strings
strings_from-write_strings zero ts ss rest h p = absurd (omega arith)
strings_from-write_strings (suc f) [] ss rest h p =
    rw (strings_from, read_little-byte 11 rest, append-nil ss) refl
strings_from-write_strings (suc f) (t ∷ ts) ss rest (short, h) p =
    let more = write_strings ts ++ rest in
    rw
      (
        strings_from,
        append_assoc (write_string t) (write_strings ts) rest,
        read_little-byte 10 (write_string t ++ more),
        read_strings,
        read_string-write_string t more short,
      )
      (strings_from-write_strings f ts (ss ++ (t ∷ [])) rest h (omega arith)
        ∙ ap (λ r. some (r, rest)) (append_assoc ss (t ∷ []) ts))

-- Each string takes a byte at least.
length-write_strings : (ts : List Text) → length ts < length (write_strings ts)
unfolding write_strings
length-write_strings [] = omega arith
length-write_strings (t ∷ ts) =
    omega (arith, length-append (write_string t) (write_strings ts), length-write_strings ts)

module _ (ipv6 : Text → Text) where
  read_texts :
      (et : ℕ) (s : Text) (ts : List Text) (rest : Text)
      → strings_from (suc (length s)) [] (et ∷ s) ≡ some (ts, rest)
      → read_value ipv6 str_arr_t (et ∷ s) ≡ some (texts_arg ts, rest)
  unfolding read_value
  read_texts et s ts rest h =
      let loop = sym (strings_from-byte (suc (length s)) et s) ∙ h in
      rw (read_value, read_little-byte et s, loop) refl

  read_texts-write_strings :
      (ts : List Text) (rest : Text)
      → AllShort ts
      → read_value ipv6 str_arr_t (write_strings ts ++ rest) ≡ some (texts_arg ts, rest)
  unfolding write_strings
  read_texts-write_strings [] rest h =
      read_texts 11 rest [] rest
        (strings_from-write_strings (suc (length rest)) [] [] rest h (omega arith))
  read_texts-write_strings (t ∷ ts) rest h =
      let s = (write_string t ++ write_strings ts) ++ rest in
      read_texts 10 s (t ∷ ts) rest (
        strings_from-write_strings (suc (length s)) (t ∷ ts) [] rest h (
          omega (
            arith,
            length-write_strings ts,
            length-append (write_string t) (write_strings ts),
            length-append (write_string t ++ write_strings ts) rest,
          )))

  read_arg-write_arg :
      (a : Arg) (rest : Text) → Plain a → read_arg ipv6 (write_arg a ++ rest) ≡ some (a, rest)
  unfolding read_arg write_arg data_type read_value read_text Plain read_big read_full
      big_endian_from
  read_arg-write_arg (int_arg n) rest h =
      rw (read_arg, read_little-byte 1 (little 4 n ++ rest), read_little-little n rest h) refl
  read_arg-write_arg (word_arg n) rest h =
      rw (read_arg, read_little-byte 27 (n / 256 ∷ n % 256 ∷ rest))
        (ap (λ v. some (word_arg v, rest)) (omega arith))
  read_arg-write_arg (text_arg t) rest h =
      rw (read_arg, read_little-byte 10 (write_string t ++ rest), read_string-write_string t rest h)
        refl
  read_arg-write_arg (texts_arg ts) rest h =
      rw (read_arg, read_little-byte 11 (write_strings ts ++ rest))
        (read_texts-write_strings ts rest h)
  read_arg-write_arg (address_arg a) rest h = absurd h

  read_args-write_args :
      (as_sent : List Arg) (rest : Text)
      → AllPlain as_sent
      → read_args ipv6 (length as_sent) (write_args as_sent ++ rest) ≡ some as_sent
  unfolding read_args write_args AllPlain
  read_args-write_args [] rest h = refl
  read_args-write_args (a ∷ more) rest (plain, h) =
      rw
        (
          append_assoc (write_arg a) (write_args more) rest,
          read_args,
          read_arg-write_arg a (write_args more ++ rest) plain,
          read_args-write_args more rest h,
        )
        refl

  read_arg-empty : (rest : Text) → read_arg ipv6 (write_arg (text_arg []) ++ rest) ≡ none
  unfolding read_arg write_arg data_type read_value read_text
  read_arg-empty rest =
      rw (read_arg, read_little-byte 10 (write_string [] ++ rest), read_string-empty rest) refl

  read_args-empty :
      (sent : List Arg) (n : ℕ) (rest : Text)
      → AllPlain sent
      → length sent < n
      → read_args ipv6 n (write_args sent ++ (write_arg (text_arg []) ++ rest)) ≡ none
  unfolding read_args write_args AllPlain
  read_args-empty sent zero rest h p = absurd (omega arith)
  read_args-empty [] (suc n) rest h p = rw (read_args, read_arg-empty rest) refl
  read_args-empty (a ∷ more) (suc n) rest (plain, h) p =
      rw
        (
          append_assoc (write_arg a) (write_args more) (write_arg (text_arg []) ++ rest),
          read_args,
          read_arg-write_arg a (write_args more ++ (write_arg (text_arg []) ++ rest)) plain,
          read_args-empty more n rest h (omega arith),
        )
        refl

  -- Numbers, strings and arrays of strings that were written are read back, whatever follows them in
  -- the buffer, if the numbers fit, no string is empty or longer than the greatest length, and there are
  -- fewer than 2 ^ 31 - 1 of them. With one empty string after them, the reading of them all fails.
  pub get_args-write_args :
      (sent : List Arg) (rest : Text)
      → AllPlain sent
      → suc (length sent) < 2 ^ 31
      → (get_args ipv6 (length sent) (write_args sent ++ rest) ≡ some sent)
        × (get_args ipv6 (suc (length sent)) (write_args sent ++ (write_arg (text_arg []) ++ rest))
            ≡ none)
  unfolding get_args
  get_args-write_args sent rest h few = (
    ground (arith, few, read_args-write_args sent rest h),
    ground (arith, few, read_args-empty sent (suc (length sent)) rest h (omega arith)),
  )
