-- ===== src/Bpflsm/Masks.antt =====
-- The bit flags of a rule mask (rulesHandling.go, `EXEC` to `ARGSET`), all of them in a uint16.
use kube_armor.Base.{
  ℕ, ◌+◌, ◌-◌, ◌*◌, ◌/◌, ◌%◌, ◌≡◌, Bool, true, not, arith, nat_beq, bit_and, bit_or,
}
use kube_armor.Base.Bits.{bit_and_halves, bit_or_halves, bit_and-zero, bit_or-zero}

abbrev pub exec : ℕ
exec = 1

abbrev pub write : ℕ
write = 2

abbrev pub read : ℕ
read = 4

abbrev pub owner : ℕ
owner = 8

abbrev pub dir : ℕ
dir = 16

abbrev pub recursive : ℕ
recursive = 32

abbrev pub hint : ℕ
hint = 64

abbrev pub deny : ℕ
deny = 128

abbrev pub argset : ℕ
argset = 256

-- `x | f`
unfoldable pub with_flag : ℕ → ℕ → ℕ
with_flag f x = bit_or x f

-- `x & f != 0`
unfoldable pub has_flag : ℕ → ℕ → Bool
has_flag f x = not (nat_beq (bit_and x f) 0)

-- `x & ^DIR` in 16 bits
unfoldable pub without_dir : ℕ → ℕ
without_dir x = bit_and x (65535 - dir)

and_dir : (x : ℕ) → bit_and x dir ≡ x / 16 % 2 * 16
and_dir x = omega (
  arith,
  bit_and_halves x 16,
  bit_and_halves (x / 2) 8,
  bit_and_halves (x / 2 / 2) 4,
  bit_and_halves (x / 2 / 2 / 2) 2,
  bit_and_halves (x / 2 / 2 / 2 / 2) 1,
  bit_and-zero (x / 2 / 2 / 2 / 2 / 2),
)

and_hint : (x : ℕ) → bit_and x hint ≡ x / 64 % 2 * 64
and_hint x = omega (arith, bit_and_halves x 64, bit_and_halves (x / 2) 32, and_dir (x / 2 / 2))

and_deny : (x : ℕ) → bit_and x deny ≡ x / 128 % 2 * 128
and_deny x = omega (arith, bit_and_halves x 128, and_hint (x / 2))

or_dir : (x : ℕ) → bit_or x dir ≡ x + 16 - x / 16 % 2 * 16
or_dir x = omega (
  arith,
  bit_or_halves x 16,
  bit_or_halves (x / 2) 8,
  bit_or_halves (x / 2 / 2) 4,
  bit_or_halves (x / 2 / 2 / 2) 2,
  bit_or_halves (x / 2 / 2 / 2 / 2) 1,
  bit_or-zero (x / 2 / 2 / 2 / 2 / 2),
)

or_hint : (x : ℕ) → bit_or x hint ≡ x + 64 - x / 64 % 2 * 64
or_hint x = omega (arith, bit_or_halves x 64, bit_or_halves (x / 2) 32, or_dir (x / 2 / 2))

or_deny : (x : ℕ) → bit_or x deny ≡ x + 128 - x / 128 % 2 * 128
or_deny x = omega (arith, bit_or_halves x 128, or_hint (x / 2))

-- Setting a flag sets it.
pub dir-with_dir : (x : ℕ) → has_flag dir (with_flag dir x) ≡ true
unfolding has_flag with_flag
dir-with_dir x = ground (arith, or_dir x, and_dir (bit_or x dir))

pub hint-with_hint : (x : ℕ) → has_flag hint (with_flag hint x) ≡ true
unfolding has_flag with_flag
hint-with_hint x = ground (arith, or_hint x, and_hint (bit_or x hint))

pub deny-with_deny : (x : ℕ) → has_flag deny (with_flag deny x) ≡ true
unfolding has_flag with_flag
deny-with_deny x = ground (arith, or_deny x, and_deny (bit_or x deny))

-- ... and no other.
pub dir-with_hint : (x : ℕ) → has_flag dir (with_flag hint x) ≡ has_flag dir x
unfolding has_flag with_flag
dir-with_hint x = ground (arith, or_hint x, and_dir (bit_or x hint), and_dir x)

pub deny-with_hint : (x : ℕ) → has_flag deny (with_flag hint x) ≡ has_flag deny x
unfolding has_flag with_flag
deny-with_hint x = ground (arith, or_hint x, and_deny (bit_or x hint), and_deny x)

pub deny-with_dir : (x : ℕ) → has_flag deny (with_flag dir x) ≡ has_flag deny x
unfolding has_flag with_flag
deny-with_dir x = ground (arith, or_dir x, and_deny (bit_or x dir), and_deny x)

-- Setting a flag again changes nothing.
pub deny_twice : (x : ℕ) → with_flag deny (with_flag deny x) ≡ with_flag deny x
unfolding with_flag
deny_twice x = omega (arith, or_deny x, or_deny (bit_or x deny))
