-- ===== src/Adu/Crc/Detect.antt =====
-- What the checksum finds: a frame that ends in its own checksum leaves no remainder, and a change within
-- two neighbouring bytes is always found.
use mothbus.Base.{
  ℕ, ◌+◌, ◌*◌, ◌/◌, ◌<◌, ◌≡◌, ◌≢◌, ◌⊎◌, inl, inr, ◌↔◌, refl, sym, ap, ◌∙◌, bit_xor, List, [], ◌∷◌,
  ◌++◌, All, All-append, IsByte, bit_and, arith,
}
use mothbus.Base.Bits.{
  bit_xor-lt, bit_xor_assoc, bit_xor_comm, bit_xor_self, bit_xor_injective_left,
  bit_xor_injective_right,
}
use mothbus.Base.Masks.{bit_and_low_byte}
use mathlib.Core.Path.{subst}
use mothbus.Adu.Crc.{crc16}
use mothbus.Adu.Crc.Linear.{
  shifts, bitwise_step, bitwise, shifts-bit_xor, shifts_byte, shifts-lt, shifts-zero,
  shifts-injective, eq_of_bit_xor, zero-shifts,
}
use mothbus.Adu.Crc.Bitwise.{crc16-bitwise, bitwise-lt, joined}

pub crc16-lt : (msg : List ℕ) → crc16 msg < 65536
unfolding crc16
crc16-lt msg = omega arith

bitwise-append : (c : ℕ) (xs ys : List ℕ) → bitwise c (xs ++ ys) ≡ bitwise (bitwise c xs) ys
unfolding bitwise
bitwise-append c [] ys = refl
bitwise-append c (x ∷ xs) ys = bitwise-append (bitwise_step c x) xs ys

step-lt : (c b : ℕ) → c < 65536 → IsByte b → bitwise_step c b < 65536
unfolding bitwise_step
step-lt c b h p = shifts-lt 8 (bit_xor c b) (bit_xor-lt 16 c b h (omega arith))

step-injective :
    (c d b : ℕ) → c < 65536 → d < 65536 → IsByte b → bitwise_step c b ≡ bitwise_step d b → c ≡ d
unfolding bitwise_step
step-injective c d b p q w e = bit_xor_injective_left c d b (
    shifts-injective 8 (bit_xor c b) (bit_xor d b) (bit_xor-lt 16 c b p (omega arith))
      (bit_xor-lt 16 d b q (omega arith)) e)

-- From different remainders the same bytes lead to different remainders.
bitwise-injective :
    (msg : List ℕ) (c d : ℕ)
    → c < 65536
    → d < 65536
    → All IsByte msg
    → bitwise c msg ≡ bitwise d msg
    → c ≡ d
unfolding bitwise
bitwise-injective [] c d p q all e = e
bitwise-injective (b ∷ msg) c d p q all e = step-injective c d b p q all.0 (
    bitwise-injective msg (bitwise_step c b) (bitwise_step d b) (step-lt c b p all.0)
      (step-lt d b q all.0) all.1 e)

-- Two bytes are taken as one word, the first byte low.
two_steps :
    (c x y : ℕ) → IsByte x → bitwise c (x ∷ y ∷ []) ≡ shifts 8 (shifts 8 (bit_xor c (y * 256 + x)))
unfolding bitwise bitwise_step
two_steps c x y p = ap (shifts 8) (
    ap (bit_xor (shifts 8 (bit_xor c x))) (sym (shifts_byte y))
    ∙ sym (shifts-bit_xor 8 (bit_xor c x) (y * 256))
    ∙ ap (shifts 8)
        (bit_xor_assoc c x (y * 256) ∙ ap (bit_xor c) (bit_xor_comm x (y * 256) ∙ joined y x p)))

both_shifts-injective :
    (a b : ℕ) → a < 65536 → b < 65536 → shifts 8 (shifts 8 a) ≡ shifts 8 (shifts 8 b) → a ≡ b
both_shifts-injective a b p q e =
    shifts-injective 8 a b p q
      (shifts-injective 8 (shifts 8 a) (shifts 8 b) (shifts-lt 8 a p) (shifts-lt 8 b q) e)

-- Two bytes are lost to nothing: from one remainder, different pairs lead to different remainders.
two_steps-injective :
    (c x y x' y' : ℕ)
    → c < 65536
    → IsByte x
    → IsByte y
    → IsByte x'
    → IsByte y'
    → bitwise c (x ∷ y ∷ []) ≡ bitwise c (x' ∷ y' ∷ [])
    → (x ≡ x') × (y ≡ y')
two_steps-injective c x y x' y' h p q p' q' e =
    let same : y * 256 + x ≡ y' * 256 + x' =
      bit_xor_injective_right (y * 256 + x) (y' * 256 + x') c (
        both_shifts-injective (bit_xor c (y * 256 + x)) (bit_xor c (y' * 256 + x'))
          (bit_xor-lt 16 c (y * 256 + x) h (omega arith))
          (bit_xor-lt 16 c (y' * 256 + x') h (omega arith))
          (sym (two_steps c x y p) ∙ e ∙ two_steps c x' y' p')) in
    (omega arith, omega arith)

-- Two messages of bytes that differ at most in two neighbouring places have one checksum only if they do
-- not differ at all.
crc16_eq :
    (pre post : List ℕ) (x y x' y' : ℕ)
    → All IsByte pre
    → All IsByte post
    → IsByte x
    → IsByte y
    → IsByte x'
    → IsByte y'
    → crc16 (pre ++ (x ∷ y ∷ post)) ≡ crc16 (pre ++ (x' ∷ y' ∷ post))
    → (x ≡ x') × (y ≡ y')
crc16_eq pre post x y x' y' wpre wpost p q p' q' e =
    two_steps-injective (bitwise 0xffff pre) x y x' y' (bitwise-lt 0xffff pre (omega arith) wpre) p
      q p' q'
      (bitwise-injective post (bitwise (bitwise 0xffff pre) (x ∷ y ∷ []))
        (bitwise (bitwise 0xffff pre) (x' ∷ y' ∷ []))
        (bitwise-lt (bitwise 0xffff pre) (x ∷ y ∷ []) before (p, (q, tt)))
        (bitwise-lt (bitwise 0xffff pre) (x' ∷ y' ∷ []) before (p', (q', tt))) wpost
        (sym (split x y p q) ∙ e ∙ split x' y' p' q'))
  where
    before : bitwise 0xffff pre < 65536
    before = bitwise-lt 0xffff pre (omega arith) wpre

    split :
        (x y : ℕ)
        → IsByte x
        → IsByte y
        → crc16 (pre ++ (x ∷ y ∷ post)) ≡ bitwise (bitwise (bitwise 0xffff pre) (x ∷ y ∷ [])) post
    split x y p q =
        crc16-bitwise (pre ++ (x ∷ y ∷ post))
          (All-append IsByte pre (x ∷ y ∷ post) wpre (p, (q, wpost)))
        ∙ bitwise-append 0xffff pre (x ∷ y ∷ post)
        ∙ bitwise-append (bitwise 0xffff pre) (x ∷ y ∷ []) post

-- Two messages of bytes that differ, but only within two neighbouring places, have different checksums.
pub crc16-detects :
    (pre post : List ℕ) (x y x' y' : ℕ)
    → All IsByte pre
    → All IsByte post
    → IsByte x × IsByte y
    → IsByte x' × IsByte y'
    → (x ≢ x') ⊎ (y ≢ y')
    → crc16 (pre ++ (x ∷ y ∷ post)) ≢ crc16 (pre ++ (x' ∷ y' ∷ post))
crc16-detects pre post x y x' y' wpre wpost p p' differ e =
    let (same, same') = crc16_eq pre post x y x' y' wpre wpost p.0 p.1 p'.0 p'.1 e in
    elim differ [ inl ne ↦ ne same | inr ne ↦ ne same' ]

-- Two bytes behind a message of bytes make the checksum of the whole 0 exactly when they are the
-- checksum of the message, the low byte first.
pub crc16-residue :
    (msg : List ℕ) (low high : ℕ)
    → All IsByte msg
    → IsByte low
    → IsByte high
    → (crc16 (msg ++ (low ∷ high ∷ [])) ≡ 0)
      ↔ ((low ≡ bit_and (crc16 msg) 0xff) × (high ≡ bit_and (crc16 msg / 256) 0xff))
crc16-residue msg low high w p q = (
  λ e.
      let same : crc16 msg ≡ high * 256 + low =
        eq_of_bit_xor (crc16 msg) (high * 256 + low)
          (shifts-zero 8 _ bound (shifts-zero 8 _ (shifts-lt 8 _ bound) (sym remainder ∙ e))) in
      (
        omega (arith, bit_and_low_byte (crc16 msg)),
        omega (arith, bit_and_low_byte (crc16 msg / 256)),
      ),
  λ (l, h).
      let same : crc16 msg ≡ high * 256 + low =
        omega
          (arith, l, h, below, bit_and_low_byte (crc16 msg), bit_and_low_byte (crc16 msg / 256)) in
      remainder
      ∙ ap (λ t. shifts 8 (shifts 8 (bit_xor t (high * 256 + low)))) same
      ∙ ap (λ t. shifts 8 (shifts 8 t)) (bit_xor_self (high * 256 + low))
      ∙ ap (shifts 8) (zero-shifts 8)
      ∙ zero-shifts 8,
)
  where
    below : crc16 msg < 65536
    below =
        subst (λ (t : ℕ). t < 65536) (sym (crc16-bitwise msg w))
          (bitwise-lt 0xffff msg (omega arith) w)

    bound : bit_xor (crc16 msg) (high * 256 + low) < 65536
    bound = bit_xor-lt 16 (crc16 msg) (high * 256 + low) below (omega arith)

    remainder :
        crc16 (msg ++ (low ∷ high ∷ []))
        ≡ shifts 8 (shifts 8 (bit_xor (crc16 msg) (high * 256 + low)))
    remainder =
        crc16-bitwise (msg ++ (low ∷ high ∷ []))
          (All-append IsByte msg (low ∷ high ∷ []) w (p, (q, tt)))
        ∙ bitwise-append 0xffff msg (low ∷ high ∷ [])
        ∙ two_steps (bitwise 0xffff msg) low high p
        ∙ ap (λ t. shifts 8 (shifts 8 (bit_xor t (high * 256 + low)))) (sym (crc16-bitwise msg w))
