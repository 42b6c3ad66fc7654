-- ===== src/Pdu/SpanResponse.antt =====
-- The response classes of include/mothbus/pdu/ that hold a `span<byte>`: resp_reading_coils.h,
-- resp_reading_discrete_inputs.h, resp_reading_register.h, resp_reading_input_register.h and
-- resp_reading_writing_multiple_registers.h have the same text but for the function code.
pub mod Laws
use mothbus.Base.{ℕ, List, [], ◌++◌, length, take, drop, ltb, if◌then◌else◌, to_u8}
use mothbus.Error.{make_error_code, too_many_bytes_received}
use mothbus.Pdu.FunctionCode.{FunctionCode, write_function_code}
use mothbus.Pdu.Reader.{Reader, Read, ok, error, field, return_code, read_bytes, ◌>>◌}
use mothbus.Pdu.Writer.{Sink, Write, write_u8, write_bytes, ◌>>◌ as ◌>>>◌}

-- `values` are the elements of the span, and `beyond` those of the array that it was built over which
-- lie behind its end: `subspan` leaves them to the caller.
pub record SpanPduResp (fc : FunctionCode) : Type 0 where
  pub byte_count : ℕ
  pub values : List ℕ
  pub beyond : List ℕ

module _ {fc : FunctionCode} where
  -- The constructor, over a whole array.
  abbrev pub over : List ℕ → SpanPduResp fc
  over v = record { byte_count = to_u8 (length v); values = v; beyond = [] }

  -- The array that the span was built over.
  abbrev pub array : SpanPduResp fc → List ℕ
  array t = t.values ++ t.beyond

  -- `resp.values.subspan(0, n)`
  abbrev pub subspan : ℕ → SpanPduResp fc → SpanPduResp fc
  subspan n t = record t { values = take n t.values; beyond = drop n t.values ++ t.beyond }

  -- The guards between the count and the values.
  unfoldable pub fit : {R : Type 0} → Read R (SpanPduResp fc)
  unfolding make_error_code
  fit resp r =
      if ltb (length resp.values) resp.byte_count
      then return_code (make_error_code too_many_bytes_received) resp r
      else if ltb resp.byte_count (length resp.values)
      then ok (subspan resp.byte_count resp) r
      else ok resp r

  unfoldable pub read : {R : Type 0} → Reader R → Read R (SpanPduResp fc)
  read rd = do
    field (λ t. t.byte_count) (λ c t. record t { byte_count = c }) rd.read_u8
    fit
    field (λ t. t.values) (λ vs t. record t { values = vs }) (read_bytes rd)

unfoldable pub write : {S : Type 0} → Sink S → (fc : FunctionCode) → SpanPduResp fc → Write S
write sink fc v =
    write_function_code sink fc >>> write_u8 sink v.byte_count >>> write_bytes sink v.values
