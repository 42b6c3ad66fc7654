-- ===== src/Base/Masks.antt =====
-- The masks and shifts of the sources as arithmetic.
use Prim.Native.Nat.{ℕ, zero, suc, ◌+◌, ◌*◌, ◌/◌, ◌%◌, ◌<◌, bit_and, bit_or, bit_xor}
use mathlib.Core.Path.{◌≡◌, refl, ap}
use mathlib.Core.Bool.{Bool, true, false}
use native.Mathlib.Omega.{arith}
use mothbus.Base.Bits.{bit_and_step, bit_or_step, bit_xor_step, bit_and-zero, bit_or-zero}
use mothbus.Base.Tests.{◌==◌, if◌then◌else◌}

-- Whether a test passes at every number below a bound.
unfoldable pub passes_below : (ℕ → Bool) → ℕ → Bool
passes_below test zero = true
passes_below test (suc n) = if test n then passes_below test n else false

pub passes_at :
    (test : ℕ → Bool) (n : ℕ) → passes_below test n ≡ true → (x : ℕ) → x < n → test x ≡ true
unfolding passes_below
passes_at test zero all x below = absurd (omega arith)
passes_at test (suc n) all x below =
    ground (arith, λ (h : passes_below test n ≡ true) (p : x < n). passes_at test n h x p)

-- `a & 0xf` and `a & 0xff`.
bit_and_low_four : (a : ℕ) → bit_and a 15 ≡ a % 16
bit_and_low_four a = omega (
  arith,
  bit_and_step a 15,
  bit_and_step (a / 2) 7,
  bit_and_step (a / 2 / 2) 3,
  bit_and_step (a / 2 / 2 / 2) 1,
  bit_and-zero (a / 2 / 2 / 2 / 2),
)

pub bit_and_low_byte : (a : ℕ) → bit_and a 0xff ≡ a % 256
bit_and_low_byte a = omega (
  arith,
  bit_and_step a 255,
  bit_and_step (a / 2) 127,
  bit_and_step (a / 2 / 2) 63,
  bit_and_step (a / 2 / 2 / 2) 31,
  bit_and_low_four (a / 2 / 2 / 2 / 2),
)

-- An even left side hands the lowest digit of the right side through.
bit_or_double : (p q l : ℕ) → p ≡ 2 * q → bit_or p l ≡ bit_or q (l / 2) * 2 + l % 2
bit_or_double p q l h =
    let e : p / 2 ≡ q = omega arith in
    omega (arith, bit_or_step p l, ap (λ (t : ℕ). bit_or t (l / 2)) e)

-- `(h << k) | l` where `l` fits the `k` bits, for `k` of 4 and of 8.
bit_or_four : (h l : ℕ) → l < 16 → bit_or (h * 16) l ≡ h * 16 + l
bit_or_four h l p = omega (
  arith,
  bit_or_double (h * 16) (h * 8) l (omega arith),
  bit_or_double (h * 8) (h * 4) (l / 2) (omega arith),
  bit_or_double (h * 4) (h * 2) (l / 2 / 2) (omega arith),
  bit_or_double (h * 2) h (l / 2 / 2 / 2) (omega arith),
  ap (λ (t : ℕ). bit_or h t) done,
  bit_or-zero h,
)
  where
    done : l / 2 / 2 / 2 / 2 ≡ 0
    done = omega arith

pub bit_or_bytes : (h l : ℕ) → l < 256 → bit_or (h * 256) l ≡ h * 256 + l
bit_or_bytes h l p = omega (
  arith,
  bit_or_double (h * 256) (h * 128) l (omega arith),
  bit_or_double (h * 128) (h * 64) (l / 2) (omega arith),
  bit_or_double (h * 64) (h * 32) (l / 2 / 2) (omega arith),
  bit_or_double (h * 32) (h * 16) (l / 2 / 2 / 2) (omega arith),
  bit_or_four h (l / 2 / 2 / 2 / 2),
)

-- The same for `^`: an even left side hands the lowest digit through.
bit_xor_double : (p q l : ℕ) → p ≡ 2 * q → bit_xor p l ≡ bit_xor q (l / 2) * 2 + l % 2
bit_xor_double p q l h =
    let e : p / 2 ≡ q = omega arith in
    omega (arith, bit_xor_step p l, ap (λ (t : ℕ). bit_xor t (l / 2)) e)

bit_xor_four : (h l : ℕ) → bit_xor (h * 16) l ≡ bit_xor h (l / 16) * 16 + l % 16
bit_xor_four h l =
    let e : l / 2 / 2 / 2 / 2 ≡ l / 16 = omega arith in
    omega (
      arith,
      bit_xor_double (h * 16) (h * 8) l (omega arith),
      bit_xor_double (h * 8) (h * 4) (l / 2) (omega arith),
      bit_xor_double (h * 4) (h * 2) (l / 2 / 2) (omega arith),
      bit_xor_double (h * 2) h (l / 2 / 2 / 2) (omega arith),
      ap (λ (t : ℕ). bit_xor h t) e,
    )

-- Two words of which one has no low byte.
pub bit_xor_bytes : (h l : ℕ) → bit_xor (h * 256) l ≡ bit_xor h (l / 256) * 256 + l % 256
bit_xor_bytes h l =
    let e : l / 16 / 16 ≡ l / 256 = omega arith in
    let e' : h * 16 * 16 ≡ h * 256 = omega arith in
    omega (
      arith,
      bit_xor_four (h * 16) l,
      bit_xor_four h (l / 16),
      ap (λ (t : ℕ). bit_xor h t) e,
      ap (λ (t : ℕ). bit_xor t l) e',
    )

top_bit_table : passes_below (λ b. bit_and b 0x80 == b / 128 * 128) 256 ≡ true
unfolding passes_below
top_bit_table = refl

set_top_bit_table : passes_below (λ b. bit_or b 0x80 == b + 128) 128 ≡ true
unfolding passes_below
set_top_bit_table = refl

-- The bit that marks an exception response.
pub bit_and_top_bit : (b : ℕ) → b < 256 → bit_and b 0x80 ≡ b / 128 * 128
bit_and_top_bit b h = ground (arith, passes_at _ 256 top_bit_table b h)

pub bit_or_top_bit : (b : ℕ) → b < 128 → bit_or b 0x80 ≡ b + 128
bit_or_top_bit b h = ground (arith, passes_at _ 128 set_top_bit_table b h)
