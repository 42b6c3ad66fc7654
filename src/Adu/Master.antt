-- ===== src/Adu/Master.antt =====
-- include/mothbus/adu/master.h: the functions of a client, over any stream.
-- A function takes the caller's array as a list and returns the array afterwards beside the error code.
pub mod Pack
pub mod Reads
pub mod ReadFunctions
pub mod Writes
pub mod ReadWrite
pub mod Exceptions
pub mod Damaged
use mothbus.Base.{
  ℕ, zero, suc, ◌+◌, ◌-◌, ◌*◌, ◌/◌, ◌^◌, Bool, ◌&&◌, not, ◌==◌, leb, if◌then◌else◌, List, [], ◌∷◌,
  ◌++◌, length, take, drop, replicate, min, to_u8, to_u16,
}
use mothbus.Error.{
  ErrorCode, Outcome, done, assert, failed, no_error, make_error_code, invalid_response,
  out_of_bounds,
}
use mothbus.Error
use mothbus.Pdu.Codec.{Readable, Writable}
use mothbus.Pdu.FunctionCode.{FunctionCode}
use mothbus.Pdu.SpanResponse.{SpanPduResp, array}
use mothbus.Pdu.ReqReadingCoils
use mothbus.Pdu.ReqReadingDiscreteInputs
use mothbus.Pdu.ReqReadingRegister
use mothbus.Pdu.ReqReadingInputRegister
use mothbus.Pdu.ReqWritingSingleCoil
use mothbus.Pdu.ReqWritingSingleRegister
use mothbus.Pdu.ReqWritingMultipleCoils
use mothbus.Pdu.ReqWritingMultipleRegisters
use mothbus.Pdu.ReqReadingWritingMultipleRegisters
use mothbus.Pdu.RespReadingCoils
use mothbus.Pdu.RespReadingDiscreteInputs
use mothbus.Pdu.RespReadingRegister
use mothbus.Pdu.RespReadingInputRegister
use mothbus.Pdu.RespReadingWritingMultipleRegisters
use mothbus.Pdu.RespWritingSingleCoil
use mothbus.Pdu.RespWritingSingleRegister
use mothbus.Pdu.RespWritingMultipleCoils
use mothbus.Pdu.RespWritingMultipleRegisters
use mothbus.Pdu.Reader.{resize}
use mothbus.Adu.Layer.{Call, returned, undefined, ◌>>=◌}
use mothbus.Adu.Stream.{StreamOps}

-- `detail::make_uint16`
unfoldable pub make_uint16 : ℕ → ℕ → ℕ
make_uint16 b1 b2 = to_u16 (b1 * 256 + b2)

-- `for (i = 0; i < out.size(); ++i) out[i] = make_uint16(buffer[2 * i], buffer[2 * i + 1]);`
unfoldable pub fill_words : List ℕ → List ℕ → Outcome (List ℕ)
unfolding make_uint16
fill_words [] buffer = done []
fill_words (o ∷ out) [] = Error.fault out_of_bounds
fill_words (o ∷ out) (b1 ∷ []) = Error.fault out_of_bounds
fill_words (o ∷ out) (b1 ∷ b2 ∷ buffer) =
    Error.◌>>=◌ (fill_words out buffer) λ words. done (make_uint16 b1 b2 ∷ words)

-- `std::ranges::copy(values, v.begin())`
unfoldable pub copy : List ℕ → List ℕ → Outcome (List ℕ)
copy values v =
    if leb (length values) (length v)
    then done (values ++ drop (length values) v)
    else Error.fault out_of_bounds

-- `for (c = 0; c < coils.size(); ++c) pack += coils[c] << c;` with an 8-bit `pack`.
unfoldable pub pack_coils : ℕ → ℕ → List ℕ → ℕ
pack_coils pack c [] = pack
pack_coils pack c (coil ∷ coils) = pack_coils (to_u8 (pack + coil * 2 ^ c)) (c + 1) coils

-- The bytes from `i` on, `n` of them, each packed from the coils from `8 * i` up to `8 * (i + 1)`.
unfoldable pub pack_bytes : ℕ → ℕ → List ℕ → List ℕ
unfolding pack_coils
pack_bytes zero i values = []
pack_bytes (suc n) i values =
    let start = i * 8 in
    let sentinel = min ((i + 1) * 8) (length values) in
    pack_coils 0 0 (take (sentinel - start) (drop start values)) ∷ pack_bytes n (i + 1) values

-- `if (!!ec) return ec; return {};`
abbrev pub status : ErrorCode → ErrorCode
status ec = if failed ec then ec else no_error

-- The same with the test between the two that the count is the size of the caller's array.
unfoldable pub status_of_count :
    {fc : FunctionCode} → ErrorCode → SpanPduResp fc → List ℕ → ErrorCode
unfolding make_error_code
status_of_count ec resp out =
    if failed ec
    then ec
    else if not (resp.byte_count == length out)
    then make_error_code invalid_response
    else no_error

module _ {S : Type 0} (ops : StreamOps S) where
  -- A step with no stream in it.
  abbrev pub lift : {A : Type 0} → Outcome A → S → Call S A
  lift o s = elim o [ done a ↦ returned a s | Error.fault e ↦ undefined e ]

  -- `const auto transaction_id = m_stream.write_request(slave, req);` … `m_stream.read_response(…)`
  module _ {T U : Type 0} (w : Writable T) (c : Readable U) (slave : ℕ) where
    unfoldable pub transact : T → Outcome U → S → Call S (ErrorCode × U)
    transact req response = do
      transaction_id ← ops.write_request T w slave req
      resp ← lift response
      ops.read_response U c transaction_id slave resp

  -- The reads into a `span<byte>`: the array afterwards, and the error code after the test of the count.
  unfoldable pub read_span :
      {T : Type 0} {fc : FunctionCode}
      → Writable T
      → Readable (SpanPduResp fc)
      → ℕ
      → T
      → SpanPduResp fc
      → List ℕ
      → S
      → Call S (ErrorCode × List ℕ)
  unfolding transact status_of_count
  read_span w c slave req resp out = do
    (ec, resp') ← transact w c slave req (done resp)
    returned (status_of_count ec resp' out, array resp')

  -- `read_coils`
  unfoldable pub read_coils : ℕ → ℕ → ℕ → List ℕ → S → Call S (ErrorCode × List ℕ)
  unfolding read_span
  read_coils slave address quantity out = do
    _ ← lift (assert (leb 1 quantity && leb quantity 2000))
    _ ← lift (assert (leb ((quantity - 1) / 8 + 1) (length out)))
    read_span ReqReadingCoils.writable RespReadingCoils.readable slave
        (record { starting_address = address; quantity_of_coils = quantity })
        (RespReadingCoils.resp out) out

  -- `read_discrete_inputs`
  unfoldable pub read_discrete_inputs : ℕ → ℕ → ℕ → List ℕ → S → Call S (ErrorCode × List ℕ)
  unfolding read_span
  read_discrete_inputs slave address quantity out = do
    _ ← lift (assert (leb 1 quantity && leb quantity 2000))
    _ ← lift (assert (leb ((quantity - 1) / 8 + 1) (length out)))
    read_span ReqReadingDiscreteInputs.writable RespReadingDiscreteInputs.readable slave
        (record { starting_address = address; quantity_of_discrete_inputs = quantity })
        (RespReadingDiscreteInputs.resp out) out

  -- `read_registers` into a `span<byte>`
  unfoldable pub read_registers : ℕ → ℕ → List ℕ → S → Call S (ErrorCode × List ℕ)
  unfolding read_span
  read_registers slave address out =
      read_span ReqReadingRegister.writable RespReadingRegister.readable slave
        (record { starting_address = address; quantity_of_registers = to_u16 (length out / 2) })
        (RespReadingRegister.resp out) out

  -- `read_input_registers` into a `span<byte>`
  unfoldable pub read_input_registers : ℕ → ℕ → List ℕ → S → Call S (ErrorCode × List ℕ)
  unfolding read_span
  read_input_registers slave address out =
      read_span ReqReadingInputRegister.writable RespReadingInputRegister.readable slave
        (record { starting_address = address; quantity_of_registers = to_u16 (length out / 2) })
        (RespReadingInputRegister.resp out) out

  -- The end of the reads into a `span<uint16_t>`: without an error the words of the buffer go into the
  -- caller's array.
  unfoldable pub take_words :
      (List ℕ → S → Call S (ErrorCode × List ℕ)) → List ℕ → S → Call S (ErrorCode × List ℕ)
  unfolding fill_words
  take_words read_buffer out = do
    (ec, buffer) ← read_buffer (replicate (length out * 2) 0)
    out' ← lift (if failed ec then done out else fill_words out buffer)
    returned (ec, out')

  -- `read_registers` into a `span<uint16_t>`
  unfoldable pub read_register_words : ℕ → ℕ → List ℕ → S → Call S (ErrorCode × List ℕ)
  unfolding take_words read_registers
  read_register_words slave address out = take_words (read_registers slave address) out

  -- `read_input_registers` into a `span<uint16_t>`
  unfoldable pub read_input_register_words : ℕ → ℕ → List ℕ → S → Call S (ErrorCode × List ℕ)
  unfolding take_words read_input_registers
  read_input_register_words slave address out = take_words (read_input_registers slave address) out

  -- The writes: the response is built from the request's own fields, and its values are not looked at.
  unfoldable pub write_and_confirm :
      {T U : Type 0} → Writable T → Readable U → ℕ → T → Outcome U → S → Call S ErrorCode
  unfolding transact
  write_and_confirm w c slave req response = do
    (ec, _) ← transact w c slave req response
    returned (status ec)

  -- `write_single_coil`
  unfoldable pub write_single_coil : ℕ → ℕ → Bool → S → Call S ErrorCode
  unfolding write_and_confirm RespWritingSingleCoil.resp
  write_single_coil slave address value =
      let word = if value then 0xff00 else 0x0000 in
      write_and_confirm ReqWritingSingleCoil.writable RespWritingSingleCoil.readable slave
        (record { address = address; value = word }) (RespWritingSingleCoil.resp address word)

  -- `write_single_register`
  unfoldable pub write_single_register : ℕ → ℕ → ℕ → S → Call S ErrorCode
  unfolding write_and_confirm RespWritingSingleRegister.resp
  write_single_register slave address value =
      write_and_confirm ReqWritingSingleRegister.writable RespWritingSingleRegister.readable slave
        (record { address = address; value = value }) (RespWritingSingleRegister.resp address value)

  -- `write_multiple_coils`
  unfoldable pub write_multiple_coils : ℕ → ℕ → List ℕ → S → Call S ErrorCode
  unfolding write_and_confirm pack_bytes RespWritingMultipleCoils.resp
  write_multiple_coils slave address values = do
    _ ← lift (assert (leb 1 (length values) && leb (length values) 1968))
    let quantity = to_u16 (length values)
    let byte_count = to_u8 ((quantity - 1) / 8 + 1)
    write_and_confirm ReqWritingMultipleCoils.writable RespWritingMultipleCoils.readable slave
        (record {
          starting_address = address;
          quantity_of_coils = quantity;
          byte_count = byte_count;
          values = pack_bytes byte_count 0 values;
        })
        (RespWritingMultipleCoils.resp address quantity)

  -- `write_multiple_registers`
  unfoldable pub write_multiple_registers : ℕ → ℕ → List ℕ → S → Call S ErrorCode
  unfolding write_and_confirm RespWritingMultipleRegisters.resp
  write_multiple_registers slave address values = do
    let quantity = to_u16 (length values)
    copied ← lift (copy values (resize quantity 0 []))
    write_and_confirm ReqWritingMultipleRegisters.writable RespWritingMultipleRegisters.readable
        slave
        (record {
          starting_address = address;
          quantity_of_registers = quantity;
          byte_count = to_u8 (quantity * 2);
          values = copied;
        })
        (RespWritingMultipleRegisters.resp address quantity)

  -- `read_write_multiple_registers`. The count of the response is not looked at.
  unfoldable pub read_write_multiple_registers :
      ℕ → ℕ → List ℕ → ℕ → List ℕ → S → Call S (ErrorCode × List ℕ)
  unfolding transact fill_words
  read_write_multiple_registers slave read_address read_values write_address write_values = do
    let write_quantity = to_u16 (length write_values)
    copied ← lift (copy write_values (resize write_quantity 0 []))
    (ec, resp') ←
        transact ReqReadingWritingMultipleRegisters.writable
          RespReadingWritingMultipleRegisters.readable slave
          (record {
            read_starting_address = read_address;
            read_quantity_of_registers = to_u16 (length read_values);
            write_starting_address = write_address;
            write_quantity_of_registers = write_quantity;
            write_byte_count = to_u8 (write_quantity * 2);
            values = copied;
          })
          (done (RespReadingWritingMultipleRegisters.resp (replicate (length read_values * 2) 0)))
    read_values' ←
        lift (if failed ec then done read_values else fill_words read_values (array resp'))
    returned (ec, read_values')
