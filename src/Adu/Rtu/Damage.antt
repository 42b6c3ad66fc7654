-- ===== src/Adu/Rtu/Damage.antt =====
-- A frame that was damaged on the line is not taken for a response.
use mothbus.Base.{
  ℕ, suc, ◌/◌, ◌%◌, ◌≤◌, ◌<◌, ◌≡◌, ◌≢◌, ◌⊎◌, inl, inr, refl, sym, ap, ◌∙◌, List, [], ◌∷◌, ◌++◌,
  length, IsByte, All, bit_and, arith,
}
use mothbus.Base.Masks.{bit_and_low_byte}
use mothbus.Error.{make_error_code, invalid_response}
use native.Mathlib.Decide.{ℕ_discrete}
use mothbus.Pdu.Codec.{Readable}
use mothbus.Pdu.FunctionCode.{to_byte}
use mothbus.Pdu.Reader.Laws.{Takes}
use mothbus.Adu.Buffer.{Buffer, reader}
use mothbus.Adu.Buffer.Queue.{Holds, reader_laws}
use mothbus.Adu.Crc.{crc16}
use mothbus.Adu.Crc.Detect.{crc16-lt, crc16-detects}
use mothbus.Adu.Layer.{returned}
use mothbus.Adu.Rtu.{Stream, read_response}
use mothbus.Adu.Rtu.Answer.{}
use mothbus.Adu.Rtu.Checksum.{WrongCrc}
use mothbus.Adu.Rtu.Receive.{Delivers}
use mothbus.Adu.Rtu.Send.{checksum}
use mothbus.Adu.Rtu.Verdict.{read_stream, read_response-WrongCrc}
use mothbus.Adu.Timed.{TimedLayer, received}

-- The checksum of one message is wrong behind another, if theirs differ.
wrong_of_ne :
    (m m' : List ℕ)
    → crc16 m ≢ crc16 m'
    → WrongCrc m' (bit_and (crc16 m) 0xff) (bit_and (crc16 m / 256) 0xff)
wrong_of_ne m m' ne = elim (ℕ_discrete (crc16 m % 256) (crc16 m' % 256)) [
  | yes p ↦ inr λ h. ne (
      omega (
        arith,
        h,
        bit_and_low_byte (crc16 m / 256),
        bit_and_low_byte (crc16 m' / 256),
        crc16-lt m,
        crc16-lt m',
      ))
  | no p ↦ inl λ h. p (omega (arith, h, bit_and_low_byte (crc16 m), bit_and_low_byte (crc16 m')))
]

-- Two messages of bytes that differ within two neighbouring places.
pub record Damaged (m m' : List ℕ) : Type 0 where
  pub pre : List ℕ
  pub post : List ℕ
  pub x : ℕ
  pub y : ℕ
  pub x' : ℕ
  pub y' : ℕ
  pub before : m ≡ pre ++ (x ∷ y ∷ post)
  pub after : m' ≡ pre ++ (x' ∷ y' ∷ post)
  pub pre_bytes : All IsByte pre
  pub post_bytes : All IsByte post
  pub two_bytes : IsByte x × IsByte y
  pub two_bytes' : IsByte x' × IsByte y'
  pub differ : (x ≢ x') ⊎ (y ≢ y')

Damaged-WrongCrc :
    (m m' : List ℕ)
    → Damaged m m'
    → WrongCrc m' (bit_and (crc16 m) 0xff) (bit_and (crc16 m / 256) 0xff)
Damaged-WrongCrc m m' d = wrong_of_ne m m' λ e.
    crc16-detects d.pre d.post d.x d.y d.x' d.y' d.pre_bytes d.post_bytes d.two_bytes d.two_bytes'
      d.differ (sym (ap crc16 d.before) ∙ e ∙ ap crc16 d.after)

module _ {N : Type 0} (line : TimedLayer N) {T : Type 0} (c : Readable T) (out : T) (st : Stream N)
    (small : length st.message_buffer ≤ 320) (slave : ℕ) (asked : slave ≢ 0) (n : N)
    (came : line.wait 1 st.timeout_response st.next_layer ≡ received (slave ∷ []) n) (bs : List ℕ)
    (n' : N) (delivered : Delivers line st.timeout_inter_character n bs n')
    (fits : suc (length bs) ≤ length st.message_buffer) where
  -- With a message buffer of at most 320 bytes and a slave other than 0: when the slave and then a
  -- frame that fits the buffer come in, followed by silence or a failed read, and the frame is the
  -- expected function code, below 128, bytes that the class reads, and the checksum of another message
  -- that differs from what came in within two neighbouring bytes only, read_response returns
  -- invalid_response; what was read of the frame is in the object.
  pub read_response-detects :
      (transaction_id : ℕ) (t : T) (xs m : List ℕ)
      → bs ≡ (to_byte c.fc ∷ xs) ++ checksum m
      → Damaged m (slave ∷ to_byte c.fc ∷ xs)
      → to_byte c.fc < 128
      → ((r : Buffer)
          → Holds r (xs ++ checksum m)
          → Takes reader_laws (c.read Buffer reader) out r xs (checksum m) t)
      → read_response line c transaction_id slave out st
        ≡ returned (make_error_code invalid_response, t) (read_stream st slave bs n')
  read_response-detects transaction_id t xs m split damaged small_code takes =
      read_response-WrongCrc line c out st small slave asked n came bs n' delivered fits
        transaction_id t xs (checksum m) split small_code takes (bit_and (crc16 m) 0xff)
        (bit_and (crc16 m / 256) 0xff) refl (Damaged-WrongCrc m (slave ∷ to_byte c.fc ∷ xs) damaged)
