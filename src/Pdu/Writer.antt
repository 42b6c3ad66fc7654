-- ===== src/Pdu/Writer.antt =====
-- include/mothbus/pdu/writer.h: writing values to any sink of bytes. A write returns nothing, so the
-- only way to stop is a fault.
pub mod Laws
use mothbus.Base.{ℕ, ◌/◌, List, [], ◌∷◌, bit_and, to_u8}
use mothbus.Error.{Outcome, done, ModbusExceptionCode, to_int, ◌>>=◌}

-- A `Sink` of the templates: `put` of one byte.
pub record Sink (S : Type 0) : Type 0 where
  pub put : ℕ → S → Outcome S

-- A statement that writes.
abbrev pub Write : Type 0 → Type 0
Write S = S → Outcome S

infixr 5 ◌>>◌
abbrev pub ◌>>◌ : {S : Type 0} → Write S → Write S → Write S
◌>>◌ m k s = m s >>= k

module _ {S : Type 0} (sink : Sink S) where
  abbrev pub write_u8 : ℕ → Write S
  write_u8 v = sink.put v

  -- `(v >> 8) & 0xff`, then `v & 0xff`
  unfoldable pub write_u16 : ℕ → Write S
  write_u16 v = sink.put (bit_and (v / 256) 0xff) >> sink.put (bit_and v 0xff)

  -- `span<byte>`, also a vector's bytes in order
  unfoldable pub write_bytes : List ℕ → Write S
  write_bytes [] s = done s
  write_bytes (b ∷ v) s = (sink.put b >> write_bytes v) s

  -- `span<uint16_t>`, also a vector's words in order
  unfoldable pub write_words : List ℕ → Write S
  unfolding write_u16
  write_words [] s = done s
  write_words (u ∷ v) s = (write_u16 u >> write_words v) s

  unfoldable pub write_exception_code : ModbusExceptionCode → Write S
  unfolding to_int
  write_exception_code v = write_u8 (to_u8 (to_int v))
