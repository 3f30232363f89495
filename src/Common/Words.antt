-- ===== src/Common/Words.antt =====
-- Machine words as natural numbers: truncation, and the masks that the code takes bit fields with.
use Prim.Native.Nat.{
  ℕ, zero, suc, ◌+◌, ◌-◌, ◌*◌, ◌/◌, ◌%◌, ◌^◌, ◌≤◌, ◌<◌, min, bit_and, digits, bit_and-bitwise,
}
use mathlib.Core.Path.{◌≡◌, refl, sym, ap, ◌∙◌}
use native.Mathlib.Nat.{
  pow-suc, mod-lt, mod-eq_of_lt, mod-add-div, add-mul-mod_self_left, one-le-pow, pow-le-pow_right,
}
use native.Mathlib.Omega.{arith}
use mathlib.Core.Bool.{Bool, not}
use rocsift_glog_fork.Common.Tests.{◌==◌}

-- Conversions to unsigned types.
abbrev pub u8 : ℕ → ℕ
u8 x = x % 2 ^ 8

abbrev pub u16 : ℕ → ℕ
u16 x = x % 2 ^ 16

abbrev pub u32 : ℕ → ℕ
u32 x = x % 2 ^ 32

abbrev pub u64 : ℕ → ℕ
u64 x = x % 2 ^ 64

-- A number as a `bool`.
abbrev pub to_bool : ℕ → Bool
to_bool n = not (n == 0)

-- a - b on uint64_t
abbrev pub sub64 : ℕ → ℕ → ℕ
sub64 a b = (a + 2 ^ 64 - b) % 2 ^ 64

-- A word of k ones, as a number.
abbrev pub ones : ℕ → ℕ
ones zero = 0
ones (suc k) = ones k * 2 + 1

-- The remainder by 2^k, digit by digit.
abbrev pub low_bits : ℕ → ℕ → ℕ
low_bits zero x = 0
low_bits (suc k) x = low_bits k (x / 2) * 2 + x % 2

low_bits-zero : (k : ℕ) → low_bits k 0 ≡ 0
low_bits-zero zero = refl
low_bits-zero (suc k) = omega (arith, low_bits-zero k)

-- The digits of a number that a mask of k ones keeps.
masked : (n k x : ℕ) → x ≤ n → digits (λ _. zero) min n x (ones k) ≡ low_bits k x
masked zero k zero h = sym (low_bits-zero k)
masked (suc n) k zero h = sym (low_bits-zero k)
masked zero k (suc x) h = absurd (omega arith)
masked (suc n) zero (suc x) h = omega (arith, masked n zero (suc x / 2) (omega arith))
masked (suc n) (suc k) (suc x) h =
    let halved : ones (suc k) / 2 ≡ ones k = omega arith in
    rw halved (omega (arith, masked n k (suc x / 2) (omega arith)))

pub bit_and-ones : (k x : ℕ) → bit_and x (ones k) ≡ low_bits k x
bit_and-ones k x = bit_and-bitwise x (ones k) ∙ masked x k x (omega arith)

-- Reading a remainder by 2^(k+1) from the one of the half.
mod-double : (q x : ℕ) → 0 < q → ((x / 2) % q) * 2 + x % 2 ≡ x % (q * 2)
mod-double q x h =
    sym (mod-eq_of_lt {m = q * 2} (omega (arith, mod-lt (x / 2) h)))
    ∙ sym (add-mul-mod_self_left (((x / 2) % q) * 2 + x % 2) (q * 2) (x / 2 / q))
    ∙ ap (λ n. n % (q * 2)) whole
  where
    whole : ((x / 2) % q) * 2 + x % 2 + q * 2 * (x / 2 / q) ≡ x
    whole = omega (arith, mod-add-div (x / 2) q)

pub two-pow_pos : (k : ℕ) → 0 < 2 ^ k
two-pow_pos k = one-le-pow k 2 (omega arith)

pub low_bits_mod : (k x : ℕ) → low_bits k x ≡ x % 2 ^ k
low_bits_mod zero x = omega arith
low_bits_mod (suc k) x =
    ap (λ n. n * 2 + x % 2) (low_bits_mod k (x / 2))
    ∙ mod-double (2 ^ k) x (two-pow_pos k)
    ∙ ap (λ n. x % n) (sym (pow-suc 2 k))

ones-eq-pow : (k : ℕ) → ones k + 1 ≡ 2 ^ k
ones-eq-pow zero = omega arith
ones-eq-pow (suc k) = omega (arith, ones-eq-pow k, pow-suc 2 k)

-- `((1ul << msb) - 1u) * 2 + 1`, the mask of the functions `slice` and `get_bits`.
unfoldable pub mask : ℕ → ℕ
mask msb = u64 ((u64 (2 ^ msb) - 1) * 2 + 1)

-- Below 64 bits the mask does not wrap.
pub mask_lem : (msb : ℕ) → msb < 64 → mask msb ≡ ones (suc msb)
unfolding mask
mask_lem msb h = omega (arith, ones-eq-pow msb, pow-le-pow_right {n = 2} (omega arith) (fits))
  where
    fits : msb ≤ 63
    fits = omega arith

-- `(val & mask) >> lsb`: the bits `msb` down to `lsb` of a 64-bit value, by arithmetic.
pub mask_bits :
    (val msb lsb : ℕ) → msb < 64 → bit_and val (mask msb) / 2 ^ lsb ≡ val % 2 ^ suc msb / 2 ^ lsb
mask_bits val msb lsb h =
    ap (λ n. n / 2 ^ lsb)
      (ap (bit_and val) (mask_lem msb h) ∙ bit_and-ones (suc msb) val ∙ low_bits_mod (suc msb) val)
