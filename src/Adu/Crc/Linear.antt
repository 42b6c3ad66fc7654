-- ===== src/Adu/Crc/Linear.antt =====
-- The bitwise form of the checksum, for a polynomial of 16 bits whose lowest term is the top bit; each
-- step is linear over the exclusive or, and loses nothing.
use mothbus.Base.{
  ℕ, zero, suc, ◌*◌, ◌/◌, ◌%◌, ◌<◌, ◌≡◌, refl, sym, ap, ap₂, ◌∙◌, ◌⊎◌, bit_xor, ◌==◌, if◌then◌else◌,
  List, [], ◌∷◌, arith,
}
use mothbus.Base.Bits.{
  bit_xor-div-two, bit_xor-mod-two, bit_xor-lt, bit_xor_self, bit_xor-zero, zero-bit_xor,
  bit_xor_assoc, bit_xor_comm, bit_xor_injective_left,
}

-- One bit is shifted out; if it was set, the polynomial 0xA001 is subtracted.
unfoldable pub shift : ℕ → ℕ
shift c = if c % 2 == 1 then bit_xor (c / 2) 0xa001 else c / 2

unfoldable pub shifts : ℕ → ℕ → ℕ
unfolding shift
shifts zero c = c
shifts (suc n) c = shifts n (shift c)

-- A byte goes into the low end, and eight bits are shifted out.
unfoldable pub bitwise_step : ℕ → ℕ → ℕ
unfolding shifts
bitwise_step c b = shifts 8 (bit_xor c b)

unfoldable pub bitwise : ℕ → List ℕ → ℕ
unfolding bitwise_step
bitwise c [] = c
bitwise c (b ∷ msg) = bitwise (bitwise_step c b) msg

-- Four terms, regrouped.
bit_xor_swap :
    (a b c d : ℕ) → bit_xor (bit_xor a b) (bit_xor c d) ≡ bit_xor (bit_xor a c) (bit_xor b d)
bit_xor_swap a b c d =
    bit_xor_assoc a b (bit_xor c d)
    ∙ ap (bit_xor a)
        (sym (bit_xor_assoc b c d) ∙ ap (λ t. bit_xor t d) (bit_xor_comm b c) ∙ bit_xor_assoc c b d)
    ∙ sym (bit_xor_assoc a c (bit_xor b d))

-- What is subtracted for the lowest bit.
mask : ℕ → ℕ
mask c = if c % 2 == 1 then 0xa001 else 0

shift_lem : (c : ℕ) → shift c ≡ bit_xor (c / 2) (mask c)
unfolding shift mask
shift_lem c = ground (arith, bit_xor-zero (c / 2))

parity : (c : ℕ) → (c % 2 ≡ 0) ⊎ (c % 2 ≡ 1)
parity c = ground arith

mask-bit_xor : (a b : ℕ) → mask (bit_xor a b) ≡ bit_xor (mask a) (mask b)
unfolding mask
mask-bit_xor a b = ground (
  arith,
  bit_xor-mod-two a b,
  parity a,
  parity b,
  bit_xor_self 0xa001,
  bit_xor-zero 0xa001,
  zero-bit_xor 0xa001,
)

pub shift-bit_xor : (a b : ℕ) → shift (bit_xor a b) ≡ bit_xor (shift a) (shift b)
shift-bit_xor a b =
    shift_lem (bit_xor a b)
    ∙ ap₂ bit_xor (bit_xor-div-two a b) (mask-bit_xor a b)
    ∙ bit_xor_swap (a / 2) (b / 2) (mask a) (mask b)
    ∙ sym (ap₂ bit_xor (shift_lem a) (shift_lem b))

pub shifts-bit_xor : (n a b : ℕ) → shifts n (bit_xor a b) ≡ bit_xor (shifts n a) (shifts n b)
unfolding shifts
shifts-bit_xor zero a b = refl
shifts-bit_xor (suc n) a b =
    ap (shifts n) (shift-bit_xor a b) ∙ shifts-bit_xor n (shift a) (shift b)

pub shift-lt : (c : ℕ) → c < 65536 → shift c < 65536
unfolding shift
shift-lt c h = ground (arith, bit_xor-lt 16 (c / 2) 0xa001 (omega arith) (omega arith))

pub shifts-lt : (n c : ℕ) → c < 65536 → shifts n c < 65536
unfolding shifts
shifts-lt zero c h = h
shifts-lt (suc n) c h = shifts-lt n (shift c) (shift-lt c h)

-- Only zero is shifted to zero.
shift-zero : (c : ℕ) → c < 65536 → shift c ≡ 0 → c ≡ 0
unfolding shift
shift-zero c h e = ground (
  arith,
  λ (z : bit_xor (c / 2) 0xa001 ≡ 0).
      bit_xor_injective_left (c / 2) 0xa001 0xa001 (z ∙ sym (bit_xor_self 0xa001)),
)

pub shifts-zero : (n c : ℕ) → c < 65536 → shifts n c ≡ 0 → c ≡ 0
unfolding shifts
shifts-zero zero c h e = e
shifts-zero (suc n) c h e = shift-zero c h (shifts-zero n (shift c) (shift-lt c h) e)

pub zero-shifts : (n : ℕ) → shifts n 0 ≡ 0
unfolding shifts shift
zero-shifts zero = refl
zero-shifts (suc n) = zero-shifts n

-- Two numbers whose exclusive or is zero are one.
pub eq_of_bit_xor : (a b : ℕ) → bit_xor a b ≡ 0 → a ≡ b
eq_of_bit_xor a b e = bit_xor_injective_left a b b (e ∙ sym (bit_xor_self b))

pub shifts-injective : (n a b : ℕ) → a < 65536 → b < 65536 → shifts n a ≡ shifts n b → a ≡ b
shifts-injective n a b p q e = eq_of_bit_xor a b (
    shifts-zero n (bit_xor a b) (bit_xor-lt 16 a b p q)
      (shifts-bit_xor n a b ∙ ap (λ t. bit_xor t (shifts n b)) e ∙ bit_xor_self (shifts n b)))

-- An even number is halved, so a multiple of 256 loses its eight low bits.
shifts_even : (n c d : ℕ) → c ≡ d * 2 → shifts (suc n) c ≡ shifts n d
unfolding shifts shift
shifts_even n c d e = ap (shifts n) (ground arith)

pub shifts_byte : (h : ℕ) → shifts 8 (h * 256) ≡ h
unfolding shifts
shifts_byte h =
    shifts_even 7 (h * 256) (h * 128) (omega arith)
    ∙ shifts_even 6 (h * 128) (h * 64) (omega arith)
    ∙ shifts_even 5 (h * 64) (h * 32) (omega arith)
    ∙ shifts_even 4 (h * 32) (h * 16) (omega arith)
    ∙ shifts_even 3 (h * 16) (h * 8) (omega arith)
    ∙ shifts_even 2 (h * 8) (h * 4) (omega arith)
    ∙ shifts_even 1 (h * 4) (h * 2) (omega arith)
    ∙ shifts_even 0 (h * 2) h (omega arith)
