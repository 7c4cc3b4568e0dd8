-- ===== src/Common/Words.antt =====
-- Unsigned machine words as native numbers with their wrap-around, and the laws of the masks that
-- the program uses.
use Prim.Native.Nat.{
  ℕ, zero, suc, ◌+◌, ◌-◌, ◌*◌, ◌/◌, ◌%◌, ◌^◌, ◌≤◌, ◌<◌, min, bit_and, digits, bit_and-bitwise,
}
use mathlib.Core.Path.{◌≡◌, refl}
use native.Mathlib.Omega.{arith}

abbrev pub u16_mod : ℕ
u16_mod = 2 ^ 16

abbrev pub u32_mod : ℕ
u32_mod = 2 ^ 32

abbrev pub u64_mod : ℕ
u64_mod = 2 ^ 64

-- `x++` and `x += n` on `uint32_t` and `uint64_t`
abbrev pub inc32 : ℕ → ℕ
inc32 x = (x + 1) % u32_mod

abbrev pub add64 : ℕ → ℕ → ℕ
add64 x n = (x + n) % u64_mod

abbrev pub sub64 : ℕ → ℕ → ℕ
sub64 x n = (x + (u64_mod - n % u64_mod)) % u64_mod

-- a mask of `k` ones above `j` zeros, and what it leaves of a number, digit by digit
unfoldable pub ones : ℕ → ℕ
ones zero = 0
ones (suc k) = ones k * 2 + 1

unfoldable pub mask : ℕ → ℕ → ℕ
mask zero k = ones k
mask (suc j) k = mask j k * 2

low : ℕ → ℕ → ℕ
low zero a = 0
low (suc k) a = low k (a / 2) * 2 + a % 2

kept : ℕ → ℕ → ℕ → ℕ
kept zero k a = low k a
kept (suc j) k a = kept j k (a / 2) * 2

low-zero : (k : ℕ) → low k 0 ≡ 0
unfolding low
low-zero zero = refl
low-zero (suc k) = omega (arith, low-zero k)

kept-zero : (j k : ℕ) → kept j k 0 ≡ 0
unfolding kept
kept-zero zero k = low-zero k
kept-zero (suc j) k = omega (arith, kept-zero j k)

odd-half : (m : ℕ) → ((m * 2 + 1) / 2 ≡ m) × ((m * 2 + 1) % 2 ≡ 1)
odd-half m = omega arith

even-half : (m : ℕ) → ((m * 2) / 2 ≡ m) × ((m * 2) % 2 ≡ 0)
even-half m = omega arith

-- the digits of `bit_and`, with `n` of them to go
abbrev common : ℕ → ℕ → ℕ → ℕ
common n a m = digits (λ b. zero) min n a m

common-empty : (n a : ℕ) → common n a 0 ≡ 0
common-empty zero a = refl
common-empty (suc n) zero = refl
common-empty (suc n) (suc a) = omega (arith, common-empty n (suc a / 2))

common-ones : (k n a : ℕ) → a ≤ n → common n a (ones k) ≡ low k a
unfolding ones low
common-ones zero n a h = common-empty n a
common-ones (suc k) zero zero h = omega (arith, low-zero k)
common-ones (suc k) zero (suc a) h = absurd (omega arith)
common-ones (suc k) (suc n) zero h = omega (arith, low-zero k)
common-ones (suc k) (suc n) (suc a) h =
    let (half, odd) = odd-half (ones k) in
    rw (half, odd) (omega (arith, common-ones k n (suc a / 2) (omega arith)))

common-mask : (j k n a : ℕ) → a ≤ n → common n a (mask j k) ≡ kept j k a
unfolding mask kept
common-mask zero k n a h = common-ones k n a h
common-mask (suc j) k zero zero h = omega (arith, kept-zero j k)
common-mask (suc j) k zero (suc a) h = absurd (omega arith)
common-mask (suc j) k (suc n) zero h = omega (arith, kept-zero j k)
common-mask (suc j) k (suc n) (suc a) h =
    let (half, even) = even-half (mask j k) in
    rw (half, even) (omega (arith, common-mask j k n (suc a / 2) (omega arith)))

bit_and-mask : (j k a : ℕ) → bit_and a (mask j k) ≡ kept j k a
bit_and-mask j k a = omega (arith, bit_and-bitwise a (mask j k), common-mask j k a a (omega arith))

low_16 : (a : ℕ) → low 16 a ≡ a % 65536
unfolding low
low_16 a = omega arith

kept_16 : (a : ℕ) → kept 16 16 a ≡ low 16 (a / 65536) * 65536
unfolding kept low
kept_16 a = omega arith

pub bit_and-0xffff : (a : ℕ) → bit_and a 0xffff ≡ a % 65536
unfolding ones mask kept
bit_and-0xffff a = omega (arith, bit_and-mask 0 16 a, low_16 a)

-- a 32-bit word under the mask of its high half
pub bit_and-0xffff0000 : (a : ℕ) → a < 2 ^ 32 → bit_and a 0xffff0000 ≡ a / 65536 * 65536
unfolding ones mask
bit_and-0xffff0000 a h = omega (arith, bit_and-mask 16 16 a, kept_16 a, low_16 (a / 65536))
