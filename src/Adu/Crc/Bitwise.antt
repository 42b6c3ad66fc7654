-- ===== src/Adu/Crc/Bitwise.antt =====
-- The tables of the checksum hold the bitwise form: `CRC16` computes the polynomial's remainder.
use mothbus.Base.{
  ℕ, ◌+◌, ◌*◌, ◌/◌, ◌<◌, ◌≡◌, refl, sym, ap, ap₂, ◌∙◌, true, bit_xor, ◌==◌, eq_of_==, List, [], ◌∷◌,
  All, IsByte, get_or, arith,
}
use mothbus.Base.Bits.{bit_xor-lt, bit_xor_assoc, bit_xor_comm, bit_xor-zero}
use mothbus.Base.Masks.{bit_or_bytes, bit_xor_bytes, passes_below, passes_at}
use mothbus.Adu.Crc.{CrcBytes, auch_crc_hi, auch_crc_lo, crc_step, crc_loop, crc16}
use mothbus.Adu.Crc.Linear.{shifts, bitwise_step, bitwise, shifts-bit_xor, shifts_byte, shifts-lt}

hi_entry : ℕ → ℕ
hi_entry i = get_or auch_crc_hi i 0

lo_entry : ℕ → ℕ
lo_entry i = get_or auch_crc_lo i 0

table : passes_below (λ i. shifts 8 i == lo_entry i * 256 + hi_entry i) 256 ≡ true
unfolding passes_below shifts hi_entry lo_entry
table = refl

hi_table : passes_below (λ i. hi_entry i / 256 == 0) 256 ≡ true
unfolding passes_below hi_entry
hi_table = refl

lo_table : passes_below (λ i. lo_entry i / 256 == 0) 256 ≡ true
unfolding passes_below lo_entry
lo_table = refl

-- An entry of the two tables is what eight bits shifted out of its index leave.
entry : (i : ℕ) → i < 256 → shifts 8 i ≡ lo_entry i * 256 + hi_entry i
entry i h = eq_of_== _ _ (passes_at _ 256 table i h)

hi_entry-lt : (i : ℕ) → i < 256 → hi_entry i < 256
hi_entry-lt i h = omega (arith, eq_of_== _ _ (passes_at _ 256 hi_table i h))

lo_entry-lt : (i : ℕ) → i < 256 → lo_entry i < 256
lo_entry-lt i h = omega (arith, eq_of_== _ _ (passes_at _ 256 lo_table i h))

-- The two bytes as one word.
abbrev pub word_of : CrcBytes → ℕ
word_of s = s.crc_hi * 256 + s.crc_lo

abbrev pub AreBytes : CrcBytes → Type 0
AreBytes s = IsByte s.crc_hi × IsByte s.crc_lo

pub joined : (h l : ℕ) → l < 256 → bit_xor (h * 256) l ≡ h * 256 + l
joined h l p =
    let e : l / 256 ≡ 0 = omega arith in
    omega (arith, bit_xor_bytes h l, ap (λ (t : ℕ). bit_xor h t) e, bit_xor-zero h)

-- The exclusive or of a word and a number, where the word is given by its bytes.
high_apart : (h l x : ℕ) → l < 256 → bit_xor (h * 256 + l) x ≡ bit_xor (h * 256) (bit_xor l x)
high_apart h l x p = ap (λ t. bit_xor t x) (sym (joined h l p)) ∙ bit_xor_assoc (h * 256) l x

-- One step through the tables is one bitwise step.
module _ (s : CrcBytes) (b : ℕ) (w : AreBytes s) (p : IsByte b) where
  abbrev index : ℕ
  index = bit_xor s.crc_lo b

  index-lt : index < 256
  index-lt = bit_xor-lt 8 s.crc_lo b w.1 p

  pub crc_step-AreBytes : AreBytes (crc_step s b)
  unfolding crc_step lo_entry hi_entry
  crc_step-AreBytes = (
    lo_entry-lt index index-lt,
    bit_xor-lt 8 s.crc_hi (hi_entry index) w.0 (hi_entry-lt index index-lt),
  )

  looked_up : word_of (crc_step s b) ≡ lo_entry index * 256 + bit_xor s.crc_hi (hi_entry index)
  unfolding crc_step lo_entry hi_entry
  looked_up = refl

  shifted : bitwise_step (word_of s) b ≡ bit_xor s.crc_hi (lo_entry index * 256 + hi_entry index)
  unfolding bitwise_step
  shifted =
      ap (shifts 8) (high_apart s.crc_hi s.crc_lo b w.1)
      ∙ shifts-bit_xor 8 (s.crc_hi * 256) index
      ∙ ap₂ bit_xor (shifts_byte s.crc_hi) (entry index index-lt)

  regrouped :
      bit_xor s.crc_hi (lo_entry index * 256 + hi_entry index)
      ≡ lo_entry index * 256 + bit_xor s.crc_hi (hi_entry index)
  regrouped =
      bit_xor_comm s.crc_hi (lo_entry index * 256 + hi_entry index)
      ∙ high_apart (lo_entry index) (hi_entry index) s.crc_hi (hi_entry-lt index index-lt)
      ∙ ap (bit_xor (lo_entry index * 256)) (bit_xor_comm (hi_entry index) s.crc_hi)
      ∙ joined (lo_entry index) (bit_xor s.crc_hi (hi_entry index)) crc_step-AreBytes_low
    where
      crc_step-AreBytes_low : bit_xor s.crc_hi (hi_entry index) < 256
      crc_step-AreBytes_low =
          bit_xor-lt 8 s.crc_hi (hi_entry index) w.0 (hi_entry-lt index index-lt)

  pub crc_step-bitwise : word_of (crc_step s b) ≡ bitwise_step (word_of s) b
  crc_step-bitwise = looked_up ∙ sym (shifted ∙ regrouped)

crc_loop-bitwise :
    (s : CrcBytes) (msg : List ℕ)
    → AreBytes s
    → All IsByte msg
    → AreBytes (crc_loop s msg) × (word_of (crc_loop s msg) ≡ bitwise (word_of s) msg)
unfolding crc_loop bitwise
crc_loop-bitwise s [] w all = (w, refl)
crc_loop-bitwise s (b ∷ msg) w all =
    let (bytes, same) = crc_loop-bitwise (crc_step s b) msg (crc_step-AreBytes s b w all.0) all.1 in
    (bytes, same ∙ ap (λ c. bitwise c msg) (crc_step-bitwise s b w all.0))

-- For a message of bytes, the checksum by tables is the bitwise one: it starts with all bits set and
-- takes the bytes in order.
pub crc16-bitwise : (msg : List ℕ) → All IsByte msg → crc16 msg ≡ bitwise 0xffff msg
unfolding crc16
crc16-bitwise msg all =
    let (bytes, same) =
      crc_loop-bitwise (record { crc_hi = 0xff; crc_lo = 0xff }) msg (omega arith, omega arith)
        all in
    let s = crc_loop (record { crc_hi = 0xff; crc_lo = 0xff }) msg in
    omega (arith, bit_or_bytes s.crc_hi s.crc_lo bytes.1, same)

pub bitwise-lt : (c : ℕ) (msg : List ℕ) → c < 65536 → All IsByte msg → bitwise c msg < 65536
unfolding bitwise bitwise_step
bitwise-lt c [] h all = h
bitwise-lt c (b ∷ msg) h all =
    bitwise-lt (bitwise_step c b) msg
      (shifts-lt 8 (bit_xor c b) (bit_xor-lt 16 c b h (omega (arith, all.0)))) all.1
