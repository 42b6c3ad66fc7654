-- ===== src/Base/Bits.antt =====
-- The bit operations of the sources as arithmetic: one digit at a time for every width, and tables
-- over one byte.
use Prim.Native.Nat.{ℕ, zero, suc, ◌+◌, ◌*◌, ◌/◌, ◌%◌, ◌^◌, ◌≤◌, ◌<◌, min, max}
use Prim.Native.Nat.{bit_and, bit_or, bit_xor, digits, differ}
use Prim.Native.Nat.{bit_and-bitwise, bit_or-bitwise, bit_xor-bitwise}
use mathlib.Core.Path.{◌≡◌, refl, sym, ap, ◌∙◌}
use native.Mathlib.Omega.{arith}
use native.Mathlib.Nat.{pow-suc}

-- What the native operations stand for, with the lowest digit split off. The recursion is on two
-- amounts of fuel, either of which is enough.
module _ (z : ℕ → ℕ) (f : ℕ → ℕ → ℕ) where
  no_digits : (n y : ℕ) → digits z f n 0 y ≡ z y
  no_digits zero y = refl
  no_digits (suc n) y = refl

  digits_stable : (x y n m : ℕ) → x ≤ n → x ≤ m → digits z f n x y ≡ digits z f m x y
  digits_stable zero y n m p q = no_digits n y ∙ sym (no_digits m y)
  digits_stable (suc x) y (suc n) (suc m) p q =
      ap (λ (t : ℕ). t * 2 + f (suc x % 2) (y % 2))
        (digits_stable (suc x / 2) (y / 2) n m (omega arith) (omega arith))
  digits_stable (suc x) y zero m p q = absurd (omega arith)
  digits_stable (suc x) y (suc n) zero p q = absurd (omega arith)

  lowest_digit :
      (x y : ℕ)
      → digits z f (suc x) (suc x) y
        ≡ f (suc x % 2) (y % 2) + 2 * digits z f (suc x / 2) (suc x / 2) (y / 2)
  lowest_digit x y =
      omega (arith, digits_stable (suc x / 2) (y / 2) x (suc x / 2) (omega arith) (omega arith))

differ_bits : (x y : ℕ) → x < 2 → y < 2 → differ x y ≡ (x + y) % 2
differ_bits zero y hx hy = omega arith
differ_bits (suc zero) zero hx hy = refl
differ_bits (suc zero) (suc zero) hx hy = refl
differ_bits (suc zero) (suc (suc y)) hx hy = absurd (omega arith)
differ_bits (suc (suc x)) y hx hy = absurd (omega arith)

pub bit_xor_step : (x y : ℕ) → bit_xor x y ≡ (x % 2 + y % 2) % 2 + 2 * bit_xor (x / 2) (y / 2)
bit_xor_step zero y = omega (arith, bit_xor-bitwise 0 y, bit_xor-bitwise 0 (y / 2))
bit_xor_step (suc x) y = omega (
  arith,
  lowest_digit (λ t. t) differ x y,
  differ_bits (suc x % 2) (y % 2) (omega arith) (omega arith),
  bit_xor-bitwise (suc x) y,
  bit_xor-bitwise (suc x / 2) (y / 2),
)

pub bit_or_step : (x y : ℕ) → bit_or x y ≡ max (x % 2) (y % 2) + 2 * bit_or (x / 2) (y / 2)
bit_or_step zero y = omega (arith, bit_or-bitwise 0 y, bit_or-bitwise 0 (y / 2))
bit_or_step (suc x) y = omega (
  arith,
  lowest_digit (λ t. t) max x y,
  bit_or-bitwise (suc x) y,
  bit_or-bitwise (suc x / 2) (y / 2),
)

pub bit_and_step : (x y : ℕ) → bit_and x y ≡ min (x % 2) (y % 2) + 2 * bit_and (x / 2) (y / 2)
bit_and_step zero y = omega (arith, bit_and-bitwise 0 y, bit_and-bitwise 0 (y / 2))
bit_and_step (suc x) y = omega (
  arith,
  lowest_digit (λ _. 0) min x y,
  bit_and-bitwise (suc x) y,
  bit_and-bitwise (suc x / 2) (y / 2),
)

-- Halving and parity of a sum of digits.
pub bit_xor-div-two : (a b : ℕ) → bit_xor a b / 2 ≡ bit_xor (a / 2) (b / 2)
bit_xor-div-two a b = omega (arith, bit_xor_step a b)

pub bit_xor-mod-two : (a b : ℕ) → bit_xor a b % 2 ≡ (a % 2 + b % 2) % 2
bit_xor-mod-two a b = omega (arith, bit_xor_step a b)

bit_xor-lt_fuel : (n a b : ℕ) (k : ℕ) → k ≤ n → (a < 2 ^ k) → (b < 2 ^ k) → bit_xor a b < 2 ^ k
bit_xor-lt_fuel n a b zero h p q =
    let e : a ≡ 0 = omega arith in let e' : b ≡ 0 = omega arith in rw (e, e') (omega arith)
bit_xor-lt_fuel zero a b (suc k) h p q = absurd (omega arith)
bit_xor-lt_fuel (suc n) a b (suc k) h p q = omega (
  arith,
  bit_xor_step a b,
  pow-suc 2 k,
  bit_xor-lt_fuel n (a / 2) (b / 2) k (omega arith) (omega (arith, pow-suc 2 k))
      (omega (arith, pow-suc 2 k)),
)

-- An exclusive or needs no more digits than its arguments.
pub bit_xor-lt : (k a b : ℕ) → a < 2 ^ k → b < 2 ^ k → bit_xor a b < 2 ^ k
bit_xor-lt k a b p q = bit_xor-lt_fuel k a b k (omega arith) p q

bit_xor_self_fuel : (n a : ℕ) → a ≤ n → bit_xor a a ≡ 0
bit_xor_self_fuel n zero h = refl
bit_xor_self_fuel zero (suc a) h = absurd (omega arith)
bit_xor_self_fuel (suc n) (suc a) h =
    omega (arith, bit_xor_step (suc a) (suc a), bit_xor_self_fuel n (suc a / 2) (omega arith))

pub bit_xor_self : (a : ℕ) → bit_xor a a ≡ 0
bit_xor_self a = bit_xor_self_fuel a a (omega arith)

pub zero-bit_xor : (a : ℕ) → bit_xor 0 a ≡ a
zero-bit_xor a = bit_xor-bitwise 0 a

-- Zero on the right.
zero_right_fuel : (n x : ℕ) → x ≤ n → (bit_and x 0 ≡ 0) × (bit_or x 0 ≡ x) × (bit_xor x 0 ≡ x)
zero_right_fuel n zero le = (refl, refl, refl)
zero_right_fuel zero (suc x) le = absurd (omega arith)
zero_right_fuel (suc n) (suc x) le =
    let (conj, disj, excl) = zero_right_fuel n (suc x / 2) (omega arith) in
    (
      omega (arith, conj, bit_and_step (suc x) 0),
      omega (arith, disj, bit_or_step (suc x) 0),
      omega (arith, excl, bit_xor_step (suc x) 0),
    )

pub bit_and-zero : (x : ℕ) → bit_and x 0 ≡ 0
bit_and-zero x = (zero_right_fuel x x (omega arith)).0

pub bit_or-zero : (x : ℕ) → bit_or x 0 ≡ x
bit_or-zero x = (zero_right_fuel x x (omega arith)).1

pub bit_xor-zero : (x : ℕ) → bit_xor x 0 ≡ x
bit_xor-zero x = (zero_right_fuel x x (omega arith)).2

bit_xor_assoc_fuel :
    (n a b c : ℕ) → a ≤ n → b ≤ n → c ≤ n → bit_xor (bit_xor a b) c ≡ bit_xor a (bit_xor b c)
bit_xor_assoc_fuel zero a b c p q r =
    let e : a ≡ 0 = omega arith in rw (e, zero-bit_xor, zero-bit_xor)
bit_xor_assoc_fuel (suc n) a b c p q r = omega (
  arith,
  bit_xor_step (bit_xor a b) c,
  bit_xor_step a (bit_xor b c),
  ap (λ (t : ℕ). bit_xor t (c / 2)) (bit_xor-div-two a b),
  ap (λ (t : ℕ). bit_xor (a / 2) t) (bit_xor-div-two b c),
  bit_xor-mod-two a b,
  bit_xor-mod-two b c,
  bit_xor_assoc_fuel n (a / 2) (b / 2) (c / 2) (omega arith) (omega arith) (omega arith),
)

pub bit_xor_assoc : (a b c : ℕ) → bit_xor (bit_xor a b) c ≡ bit_xor a (bit_xor b c)
bit_xor_assoc a b c = bit_xor_assoc_fuel (a + b + c) a b c (omega arith) (omega arith) (omega arith)

bit_xor_comm_fuel : (n a b : ℕ) → a ≤ n → b ≤ n → bit_xor a b ≡ bit_xor b a
bit_xor_comm_fuel zero a b p q =
    let e : a ≡ 0 = omega arith in let e' : b ≡ 0 = omega arith in rw (e, e')
bit_xor_comm_fuel (suc n) a b p q = omega (
  arith,
  bit_xor_step a b,
  bit_xor_step b a,
  bit_xor_comm_fuel n (a / 2) (b / 2) (omega arith) (omega arith),
)

pub bit_xor_comm : (a b : ℕ) → bit_xor a b ≡ bit_xor b a
bit_xor_comm a b = bit_xor_comm_fuel (a + b) a b (omega arith) (omega arith)

-- Cancelling on the right and on the left.
pub bit_xor_cancel_right : (a b : ℕ) → bit_xor (bit_xor a b) b ≡ a
bit_xor_cancel_right a b = bit_xor_assoc a b b ∙ rw (bit_xor_self b) (bit_xor-zero a)

pub bit_xor_injective_left : (a b c : ℕ) → bit_xor a c ≡ bit_xor b c → a ≡ b
bit_xor_injective_left a b c h =
    sym (bit_xor_cancel_right a c) ∙ ap (λ t. bit_xor t c) h ∙ bit_xor_cancel_right b c

pub bit_xor_injective_right : (a b c : ℕ) → bit_xor c a ≡ bit_xor c b → a ≡ b
bit_xor_injective_right a b c h =
    bit_xor_injective_left a b c (bit_xor_comm a c ∙ h ∙ bit_xor_comm c b)
