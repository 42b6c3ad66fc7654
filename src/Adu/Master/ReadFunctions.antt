-- ===== src/Adu/Master/ReadFunctions.antt =====
-- The client's functions read_coils, read_registers, read_input_registers and
-- read_write_multiple_registers, from the bytes of a request to the caller's array.
use mothbus.Base.{
  ℕ, ◌+◌, ◌-◌, ◌*◌, ◌/◌, ◌≤◌, ◌<◌, ◌≡◌, refl, sym, ◌∙◌, List, [], ◌∷◌, ◌++◌, All, IsU16, length,
  length-replicate, replicate, drop, word, words, to_u16, leb_of_le, arith,
}
use mothbus.Error.{ErrorCode, no_error, make_error_code, invalid_response}
use mathlib.Core.Path.{subst₂}
use mothbus.Pdu.FunctionCode
use mothbus.Pdu.FunctionCode.{to_byte}
use mothbus.Pdu.SpanResponse.{over}
use mothbus.Pdu.ReqReadingCoils
use mothbus.Pdu.ReqReadingRegister
use mothbus.Pdu.ReqReadingInputRegister
use mothbus.Adu.Buffer.{Buffer, sink}
use mothbus.Adu.Layer.{Call, returned}
use mothbus.Adu.Layer
use mothbus.Adu.Stream.{StreamOps, StreamLaws}
use mothbus.Adu.Master.{
  read_span, read_coils, read_registers, take_words, read_register_words, read_input_registers,
  read_input_register_words,
}
use mothbus.Adu.Master.Reads.{span_readable, fill_words-words, read_span-fills, read_span-too_few}

pub length-words : (ws : List ℕ) → length (words ws) ≡ length ws * 2
length-words [] = refl
length-words (w ∷ ws) = omega (arith, length-words ws)

-- The bytes of a request for the function `code`, at an address and for a quantity.
abbrev pub asking : ℕ → ℕ → ℕ → List ℕ
asking code address quantity = code ∷ (word address ++ word quantity)

module _ {S : Type 0} {ops : StreamOps S} (laws : StreamLaws ops) (slave address : ℕ)
    (fits : IsU16 address) (out : List ℕ) (s s' : S) where
  module _ (quantity : ℕ) (some_coils : 1 ≤ quantity) (limit : quantity ≤ 2000)
      (room : (quantity - 1) / 8 + 1 ≤ length out) (vs : List ℕ)
      (x : laws.Exchange slave (asking 0x01 address quantity) (0x01 ∷ length vs ∷ vs) s s') where
    asserted :
        read_coils ops slave address quantity out s
        ≡ read_span ops ReqReadingCoils.writable
            (span_readable FunctionCode.read_coils)
            slave
            (record { starting_address = address; quantity_of_coils = quantity })
            (over out)
            out
            s
    unfolding read_coils
    asserted = rw (
      leb_of_le 1 quantity some_coils,
      leb_of_le quantity 2000 limit,
      leb_of_le ((quantity - 1) / 8 + 1) (length out) room,
    )

    -- Over any stream that keeps the laws: when 1 to 2000 coils are asked for, the array has room for
    -- them, and the slave answers with as many bytes as the array has elements, read_coils returns no
    -- error and the array holds the bytes.
    pub read_coils-reads :
        length vs ≡ length out
        → read_coils ops slave address quantity out s ≡ returned (no_error, vs) s'
    unfolding to_byte
    read_coils-reads e =
        asserted
        ∙ read_span-fills laws FunctionCode.read_coils ReqReadingCoils.writable slave _ out vs
            (asking 0x01 address quantity) s s' (omega arith)
            (ReqReadingCoils.write-WritesFormat.writes Buffer sink _ (fits, omega arith)) x e

    -- Over any stream that keeps the laws: when 1 to 2000 coils are asked for, the array has room for
    -- them, and the slave answers with fewer bytes than the array has elements, read_coils returns
    -- invalid_response, and the array begins with the bytes.
    pub read_coils-larger_array :
        length vs < length out
        → read_coils ops slave address quantity out s
          ≡ returned (make_error_code invalid_response, vs ++ drop (length vs) out) s'
    unfolding to_byte
    read_coils-larger_array h =
        asserted
        ∙ read_span-too_few laws FunctionCode.read_coils ReqReadingCoils.writable slave _ out vs
            (asking 0x01 address quantity) s s' (omega arith)
            (ReqReadingCoils.write-WritesFormat.writes Buffer sink _ (fits, omega arith)) x h

  pub read_registers-reads :
      (vs : List ℕ)
      → laws.Exchange slave
          (asking 0x03 address (to_u16 (length out / 2)))
          (0x03 ∷ length vs ∷ vs)
          s
          s'
      → length vs ≡ length out
      → read_registers ops slave address out s ≡ returned (no_error, vs) s'
  unfolding read_registers to_byte
  read_registers-reads vs x e =
      read_span-fills laws FunctionCode.read_holding_registers ReqReadingRegister.writable slave _
        out vs (asking 0x03 address (to_u16 (length out / 2))) s s' (omega arith)
        (ReqReadingRegister.write-WritesFormat.writes Buffer sink _ (fits, omega arith)) x e

  pub read_input_registers-reads :
      (vs : List ℕ)
      → laws.Exchange slave
          (asking 0x04 address (to_u16 (length out / 2)))
          (0x04 ∷ length vs ∷ vs)
          s
          s'
      → length vs ≡ length out
      → read_input_registers ops slave address out s ≡ returned (no_error, vs) s'
  unfolding read_input_registers to_byte
  read_input_registers-reads vs x e =
      read_span-fills laws FunctionCode.read_input_registers ReqReadingInputRegister.writable slave
        _ out vs (asking 0x04 address (to_u16 (length out / 2))) s s' (omega arith)
        (ReqReadingInputRegister.write-WritesFormat.writes Buffer sink _ (fits, omega arith)) x e

  -- A buffer of the right bytes gives the caller the words.
  take_words-words :
      (read_buffer : List ℕ → S → Call S (ErrorCode × List ℕ)) (ws : List ℕ)
      → read_buffer (replicate (length out * 2) 0) s ≡ returned (no_error, words ws) s'
      → length ws ≡ length out
      → All IsU16 ws
      → take_words ops read_buffer out s ≡ returned (no_error, ws) s'
  unfolding take_words
  take_words-words read_buffer ws e n w =
      rw (e, take_words, Layer.◌>>=◌, fill_words-words out ws n w)

-- A buffer for some words has the size of their bytes, and stands for as many registers.
sized :
    (out ws : List ℕ)
    → length ws ≡ length out
    → length out < 65536
    → (length (words ws) ≡ length {A = ℕ} (replicate (length out * 2) 0))
      × (to_u16 (length {A = ℕ} (replicate (length out * 2) 0) / 2) ≡ length out)
sized out ws n small = (
  omega (arith, length-words ws, length-replicate {A = ℕ} (length out * 2) 0),
  omega (arith, length-replicate {A = ℕ} (length out * 2) 0),
)

module _ {S : Type 0} {ops : StreamOps S} (laws : StreamLaws ops) (slave address : ℕ)
    (fits : IsU16 address) (out : List ℕ) (s s' : S) (small : length out < 65536) (ws : List ℕ)
    (as_many : length ws ≡ length out) (w : All IsU16 ws) where
  -- Over any stream that keeps the laws: when the slave answers the request for as many holding
  -- registers as the array has elements, fewer than 65536, with that many words, read_registers returns
  -- no error and the array holds the words.
  pub read_register_words-reads :
      laws.Exchange slave
        (asking 0x03 address (length out))
        (0x03 ∷ (length ws * 2) ∷ words ws)
        s
        s'
      → read_register_words ops slave address out s ≡ returned (no_error, ws) s'
  unfolding read_register_words
  read_register_words-reads x =
      let (bytes, count) = sized out ws as_many small in
      take_words-words laws slave address fits out s s' (read_registers ops slave address) ws
        (read_registers-reads laws slave address fits (replicate (length out * 2) 0) s s' (words ws)
          (subst₂
            (λ (q n : ℕ). laws.Exchange slave (asking 0x03 address q) (0x03 ∷ n ∷ words ws) s s')
            (sym count) (sym (length-words ws)) x)
          bytes)
        as_many w

  -- So with the input registers.
  pub read_input_register_words-reads :
      laws.Exchange slave
        (asking 0x04 address (length out))
        (0x04 ∷ (length ws * 2) ∷ words ws)
        s
        s'
      → read_input_register_words ops slave address out s ≡ returned (no_error, ws) s'
  unfolding read_input_register_words
  read_input_register_words-reads x =
      let (bytes, count) = sized out ws as_many small in
      take_words-words laws slave address fits out s s' (read_input_registers ops slave address) ws
        (read_input_registers-reads laws slave address fits (replicate (length out * 2) 0) s s'
          (words ws)
          (subst₂
            (λ (q n : ℕ). laws.Exchange slave (asking 0x04 address q) (0x04 ∷ n ∷ words ws) s s')
            (sym count) (sym (length-words ws)) x)
          bytes)
        as_many w
