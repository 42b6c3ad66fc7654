-- ===== src/Pdu/Response.antt =====
-- include/mothbus/pdu.h, the responses: the exception response, and the reading of an expected
-- response or of an exception in its place.
pub mod Laws
pub mod Single
use mothbus.Base.{ℕ, ◌==◌, not, if◌then◌else◌, bit_and, bit_or, to_u8}
use mothbus.Error.{ErrorCode, make_error_code, ModbusExceptionCode, success, invalid_response}
use mothbus.Pdu.Codec.{Readable, Writable}
use mothbus.Pdu.FunctionCode.{FunctionCode, to_byte, from_byte, same}
use mothbus.Pdu.Reader.{Reader, Reading, Read, ok, error, fault, return_code, read_exception_code}
use mothbus.Pdu.Writer.{Sink, Write, write_u8, write_exception_code, ◌>>◌}

pub record PduExceptionResp : Type 0 where
  pub fc : FunctionCode
  pub exception_code : ModbusExceptionCode

-- `error_function_code |= 0x80`
unfoldable pub write_exception : {S : Type 0} → Sink S → PduExceptionResp → Write S
unfolding to_byte
write_exception sink v =
    write_u8 sink (to_u8 (bit_or (to_byte v.fc) 0x80)) >> write_exception_code sink v.exception_code

abbrev pub writable : Writable PduExceptionResp
writable = record { write = λ S sink. write_exception sink }

module _ {R T : Type 0} (rd : Reader R) where
  -- The branch for a code with its top bit set. Its own error code is that of the byte that follows,
  -- also where that byte is 0.
  unfoldable pub read_exception : Read R T
  unfolding make_error_code
  read_exception resp r = elim (read_exception_code rd success r) [
    | ok code r' ↦ return_code (make_error_code code) resp r'
    | error ec _ r' ↦ error ec resp r'
    | fault e ↦ fault e
  ]

  -- `read(reader, pdu_resp<Response>&)`
  unfoldable pub read : Readable T → Read R T
  unfolding make_error_code same from_byte
  read c resp r = elim (rd.read_u8 0 r) [
    | ok b r' ↦
        if not (bit_and b 0x80 == 0)
        then read_exception resp r'
        else if not (same (from_byte b) c.fc)
        then return_code (make_error_code invalid_response) resp r'
        else c.read R rd resp r'
    | error ec _ r' ↦ error ec resp r'
    | fault e ↦ fault e
  ]
