-- ===== src/Monitor/Parser/Reader.antt =====
-- syscallParser.go: reading from the buffer of an event. A reader takes the bytes that are left, and
-- gives its value with those left then, or nothing on an error. After an error every caller gives up.
pub mod Bounds
use kube_armor.Base.{
  Bool, List, Option, drop_last, if◌then◌else◌, leb, length, ltb, none, some, ◌&&◌, ◌+◌, ◌-◌, ◌*◌,
  ◌%◌, ◌^◌, ◌∷◌, [], ℕ, zero, suc,
}
use kube_armor.Base.Comparable.{nat_eq, ◌==◌}
use kube_armor.Base.Text.{Text, drop}

abbrev pub Read {ℓ} : Type ℓ → Type ℓ
Read A = Option (A × Text)

infixl 5 ◌>>=◌
abbrev pub ◌>>=◌ {ℓ κ} : {A : Type ℓ} {B : Type κ} → Option A → (A → Option B) → Option B
none >>= f = none
some a >>= f = f a

-- `io.ReadFull`: the next n bytes, or an error where there are fewer.
unfoldable pub read_full : ℕ → Text → Read Text
read_full zero s = some ([], s)
read_full (suc n) [] = none
read_full (suc n) (b ∷ s) = do (bs, rest) ← read_full n s; some (b ∷ bs, rest)

unfoldable pub little_endian : Text → ℕ
little_endian [] = 0
little_endian (b ∷ s) = b + 256 * little_endian s

unfoldable pub big_endian_from : ℕ → Text → ℕ
big_endian_from acc [] = acc
big_endian_from acc (b ∷ s) = big_endian_from (acc * 256 + b) s

-- `binary.Read` of a number of n bytes. Signed numbers are read as their bit patterns.
unfoldable pub read_little : ℕ → Text → Read ℕ
read_little n s = do (bs, rest) ← read_full n s; some (little_endian bs, rest)

unfoldable pub read_big : ℕ → Text → Read ℕ
read_big n s = do (bs, rest) ← read_full n s; some (big_endian_from 0 bs, rest)

-- `MaxStringLen` of systemMonitor.go.
unfoldable pub max_string_len : ℕ
max_string_len = 4096

unfoldable pub go_min : ℕ → ℕ → ℕ
go_min a b = if ltb a b then a else b

-- `readByteSliceFromBuff`, for a length that is the bit pattern of an int32.
unfoldable pub read_byte_slice : ℕ → Text → Read Text
read_byte_slice len s =
    if ltb 0 len && ltb len (2 ^ 31) then read_full (go_min len max_string_len) s else none

-- `readStringFromBuff`. The deferred read of the null byte may fail, which is ignored.
unfoldable pub read_string : Text → Read Text
read_string s = do
  (size, s₁) ← read_little 4 s
  if size == 0 then some ([], s₁) else do
    (bytes, s₂) ← read_byte_slice ((size + 2 ^ 32 - 1) % 2 ^ 32) s₁
    some (bytes, drop 1 s₂)
