-- ===== src/Monitor/Parser/Args/Format.antt =====
-- The format that the kernel programs of BPF/system_monitor.c write the arguments in.
use kube_armor.Base.{List, length, ◌++◌, ◌<◌, ◌≤◌, ◌+◌, ◌/◌, ◌%◌, ◌^◌, ◌∷◌, [], suc, zero, ℕ}
use kube_armor.Base.Comparable.{nat_eq}
use kube_armor.Base.Text.{Text}
use kube_armor.Monitor.Parser.Args.{Arg, address_arg, int_arg, text_arg, texts_arg, word_arg}

-- A number in n bytes, the lowest first.
unfoldable pub little : ℕ → ℕ → Text
little zero v = []
little (suc n) v = v % 256 ∷ little n (v / 256)

-- `save_str_to_buffer` after the type: the size that bpf_probe_read_str gives, which counts the null byte
-- at the end, and the bytes with the null byte.
unfoldable pub write_string : Text → Text
write_string t = little 4 (length t + 1) ++ (t ++ (0 ∷ []))

unfoldable pub write_strings : List Text → Text
write_strings [] = 11 ∷ []
write_strings (t ∷ ts) = 10 ∷ (write_string t ++ write_strings ts)

unfoldable pub write_arg : Arg → Text
write_arg (int_arg n) = 1 ∷ little 4 n
write_arg (word_arg n) = 27 ∷ n / 256 ∷ n % 256 ∷ []
write_arg (text_arg t) = 10 ∷ write_string t
write_arg (texts_arg ts) = 11 ∷ write_strings ts
write_arg (address_arg a) = []

unfoldable pub write_args : List Arg → Text
write_args [] = []
write_args (a ∷ more) = write_arg a ++ write_args more

-- A text that can be read back has a byte, and no more of them than are read.
abbrev pub Fits : Text → Type 0
Fits t = (0 < length t) × (length t ≤ 4096)

-- Texts of this length, and arguments of the kinds that are written as they are.
unfoldable pub AllShort : List Text → Type 0
AllShort [] = Unit
AllShort (t ∷ ts) = Fits t × AllShort ts

unfoldable pub Plain : Arg → Type 0
Plain (int_arg n) = n < 2 ^ 32
Plain (word_arg n) = n < 2 ^ 16
Plain (text_arg t) = Fits t
Plain (texts_arg ts) = AllShort ts
Plain (address_arg a) = ⊥

unfoldable pub AllPlain : List Arg → Type 0
AllPlain [] = Unit
AllPlain (a ∷ more) = Plain a × AllPlain more
