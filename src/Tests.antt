-- ===== src/Tests.antt =====
-- Runs of include/mothbus/pdu.h and pdu/ on concrete inputs.
mod Streams
mod Serial
mod Client
mod Server
mod Samples
mod Sessions
mod Refusals
mod Connections
use mothbus.Base.{
  ℕ, ◌+◌, ◌≡◌, ◌≢◌, ◌≤◌, ◌↔◌, ◌⊎◌, inl, inr, refl, true, List, [], ◌∷◌, ◌++◌, IsByte, All, length,
  length-replicate, replicate, take, drop, leb, if◌then◌else◌, none, some, arith,
}
use mothbus.Error.{
  ErrorCode, make_error_code, done, to_int, illegal_function, illegal_data_value,
  transaction_id_invalid, invalid_response, too_many_bytes_received, success, modbus_category,
  generic_category, illegal_data_address,
}
use mothbus.Pdu.FunctionCode
use mothbus.Pdu.FunctionCode.{to_byte}
use mothbus.Pdu.Reader.{ok, error}
use mothbus.Pdu.Reader.Laws.{Takes, Fails, skips}
use mothbus.Pdu.Writer.{write_bytes}
use mothbus.Pdu.Writer.Laws.{Writes}
use mothbus.Pdu.Request
use mothbus.Pdu.Request.{
  Request, PduReq, request, not_implemented, read_coils, write_multiple_coils,
}
use mothbus.Pdu.Request.Wire.{encode, code, IsValid, write-encode}
use mothbus.Pdu.Request.Decode.{read-encode}
use mothbus.Pdu.Request.Total.{read_cases}
use mothbus.Pdu.SpanResponse
use mothbus.Pdu.SpanResponse.{SpanPduResp, over}
use mothbus.Pdu.SpanResponse.Laws.{filled, read-Takes, read-too_many}
use mothbus.Pdu.RespReadingCoils
use mothbus.Pdu.RespWritingSingleCoil
use mothbus.Pdu.RespWritingSingleRegister
use mothbus.Pdu.ReqReadingCoils
use mothbus.Pdu.ReqReadingCoils.{ReadCoilsPduReq}
use mothbus.Pdu.Response
use mothbus.Pdu.Response.{PduExceptionResp, write_exception}
use mothbus.Pdu.Response.Laws.{
  write_exception-Writes, read-exception, read-exception_zero, read-other_code, read-expected,
}
use mothbus.Pdu.Response.Single.{IsCoil, single_coil-Takes, single_register-refused}
use mothbus.Adu.Buffer.{Buffer, reader, sink}
use mothbus.Adu.Buffer.Queue.{reader_laws, Holds, skip, skip-Holds}
use mothbus.Adu.Buffer.Fill.{write_bytes-over}
use mothbus.Adu.Layer.{Layer, Call, returned, threw}
use mothbus.Adu.Tcp.{
  MbapHeader, Stream, frame, write_request, write_response, read_response, check_header,
  is_valid_length,
}
use mothbus.Adu.Tcp.Frame.{adu, frame-adu}
use mothbus.Adu.Tcp.Send.{write_request-sends, write_response-sends, framed}
use mothbus.Adu.Tcp.Receive.{mbap}
use mothbus.Adu.Tcp.Answer.{read_response-accepts, read_response-exception}
use mothbus.Adu.Tcp.Refusal.{check_header-none, check_header-large}

abbrev pub coils_request : ReadCoilsPduReq
coils_request = record { starting_address = 19; quantity_of_coils = 10 }

abbrev pub coils_request_bytes : List ℕ
coils_request_bytes = 1 ∷ 0 ∷ 19 ∷ 0 ∷ 10 ∷ []

pub coils_request-Writes :
    Writes sink (ReqReadingCoils.write sink coils_request) coils_request_bytes
unfolding to_byte
coils_request-Writes =
    ReqReadingCoils.write-WritesFormat.writes Buffer sink coils_request (omega arith, omega arith)

-- A buffer that has received `bs`.
abbrev pub incoming : List ℕ → Buffer
incoming bs = record {
  message_buffer = bs;
  input_start = 0;
  input_end = length bs;
  output_start = 0;
}

-- Ten coils from 20 on are set to 0xCD01.
abbrev pub ten_coils : Request
ten_coils = write_multiple_coils (record {
  starting_address = 19;
  quantity_of_coils = 10;
  byte_count = 2;
  values = 0xcd ∷ 0x01 ∷ [];
})

abbrev pub ten_coils_bytes : List ℕ
ten_coils_bytes = 15 ∷ 0 ∷ 19 ∷ 0 ∷ 10 ∷ 2 ∷ 0xcd ∷ 0x01 ∷ []

ten_coils-IsValid : IsValid ten_coils
ten_coils-IsValid = (omega arith, omega arith, omega arith, refl, (omega arith, (omega arith, tt)))

write-encode_example : Writes sink (Request.write sink ten_coils) ten_coils_bytes
unfolding to_byte
write-encode_example = write-encode sink ten_coils ten_coils-IsValid tt

read-encode_example :
    Takes reader_laws
      (Request.read reader)
      (not_implemented 0)
      (incoming (ten_coils_bytes ++ (7 ∷ [])))
      ten_coils_bytes
      (7 ∷ [])
      (request ten_coils)
unfolding to_byte
read-encode_example =
    read-encode reader_laws ten_coils (not_implemented 0) (incoming (ten_coils_bytes ++ (7 ∷ [])))
      (7 ∷ []) ten_coils-IsValid (omega arith, refl)

-- A byte that is no class's function code.
read_cases_example :
    ((q : Request) × (rest : List ℕ) × IsValid q
      × (8 ∷ 1 ∷ [] ≡ encode q ++ rest)
      × Takes reader_laws
          (Request.read reader)
          (not_implemented 0)
          (incoming (8 ∷ 1 ∷ []))
          (encode q)
          rest
          (request q))
    ⊎ ((b : ℕ) × (rest : List ℕ) × (8 ∷ 1 ∷ [] ≡ b ∷ rest)
        × ((q : Request) → to_byte (code q) ≢ b)
        × (Request.read reader (not_implemented 0) (incoming (8 ∷ 1 ∷ []))
            ≡ error
                (make_error_code illegal_function)
                (not_implemented 0)
                (skip (incoming (8 ∷ 1 ∷ [])))))
    ⊎ Fails reader_laws (Request.read reader (not_implemented 0) (incoming (8 ∷ 1 ∷ [])))
read_cases_example =
    read_cases reader_laws (not_implemented 0) (incoming (8 ∷ 1 ∷ [])) (8 ∷ 1 ∷ [])
      (omega arith, (omega arith, tt)) (omega arith, refl)

-- Room for three bytes of coils.
abbrev pub three_bytes : SpanPduResp FunctionCode.read_coils
three_bytes = over (0 ∷ 0 ∷ 0 ∷ [])

read-Takes_test :
    Takes reader_laws
      (SpanResponse.read reader)
      three_bytes
      (incoming (2 ∷ 0xcd ∷ 0x6b ∷ []))
      (2 ∷ 0xcd ∷ 0x6b ∷ [])
      []
      (filled three_bytes (0xcd ∷ 0x6b ∷ []))
read-Takes_test =
    read-Takes reader_laws three_bytes (0xcd ∷ 0x6b ∷ []) (incoming (2 ∷ 0xcd ∷ 0x6b ∷ [])) []
      (omega arith) (omega arith, refl)

read-too_many_test :
    SpanResponse.read reader three_bytes (incoming (4 ∷ 1 ∷ []))
    ≡ error
        (make_error_code too_many_bytes_received)
        (record three_bytes { byte_count = 4 })
        (skip (incoming (4 ∷ 1 ∷ [])))
read-too_many_test =
    read-too_many reader_laws three_bytes 4 (incoming (4 ∷ 1 ∷ [])) (1 ∷ []) (omega arith)
      (omega arith, refl)

abbrev refusal : PduExceptionResp
refusal = record { fc = FunctionCode.read_coils; exception_code = illegal_data_address }

write_exception-Writes_test : Writes sink (write_exception sink refusal) (129 ∷ 2 ∷ [])
unfolding to_byte to_int
write_exception-Writes_test = write_exception-Writes sink refusal (omega arith) (omega arith)

read-exception_test :
    Response.read reader RespReadingCoils.readable three_bytes (incoming (129 ∷ 2 ∷ []))
    ≡ error
        (record { value = 2; category = modbus_category })
        three_bytes
        (skip (skip (incoming (129 ∷ 2 ∷ []))))
read-exception_test =
    read-exception reader_laws RespReadingCoils.readable three_bytes 129 2 (incoming (129 ∷ 2 ∷ []))
      [] (omega arith) (omega arith) (omega arith) (omega arith, refl)

read-exception_zero_example :
    Response.read reader RespReadingCoils.readable three_bytes (incoming (129 ∷ 0 ∷ []))
    ≡ ok three_bytes (skip (skip (incoming (129 ∷ 0 ∷ []))))
read-exception_zero_example =
    read-exception_zero reader_laws RespReadingCoils.readable three_bytes 129
      (incoming (129 ∷ 0 ∷ [])) [] (omega arith) (omega arith) (omega arith, refl)

read-other_code_test :
    Response.read reader RespReadingCoils.readable three_bytes (incoming (2 ∷ 0 ∷ []))
    ≡ error (make_error_code invalid_response) three_bytes (skip (incoming (2 ∷ 0 ∷ [])))
unfolding to_byte
read-other_code_test =
    read-other_code reader_laws RespReadingCoils.readable three_bytes 2 (incoming (2 ∷ 0 ∷ []))
      (0 ∷ []) (omega arith) (omega arith) (omega arith, refl)

abbrev coil_on : RespWritingSingleCoil.WriteSingleCoilPduResp
coil_on = record { address = 172; value = 0xff00 }

abbrev coil_off : RespWritingSingleCoil.WriteSingleCoilPduResp
coil_off = record { address = 0; value = 0 }

single_coil-Takes_test :
    Takes reader_laws
      (RespWritingSingleCoil.read reader)
      coil_off
      (incoming (0 ∷ 172 ∷ 255 ∷ 0 ∷ []))
      (0 ∷ 172 ∷ 255 ∷ 0 ∷ [])
      []
      coil_on
single_coil-Takes_test =
    single_coil-Takes reader_laws coil_off coil_on (incoming (0 ∷ 172 ∷ 255 ∷ 0 ∷ [])) []
      (omega arith, omega arith) (inr refl) (omega arith, refl)

abbrev register_3 : RespWritingSingleRegister.WriteSingleRegisterPduResp
register_3 = record { address = 1; value = 3 }

single_register-refused_example :
    RespWritingSingleRegister.read reader
      (record { address = 0; value = 0 })
      (incoming (0 ∷ 1 ∷ 0 ∷ 3 ∷ []))
    ≡ error
        (make_error_code illegal_data_value)
        register_3
        (skips reader_laws 4 (incoming (0 ∷ 1 ∷ 0 ∷ 3 ∷ [])))
single_register-refused_example =
    single_register-refused reader_laws (record { address = 0; value = 0 }) register_3
      (incoming (0 ∷ 1 ∷ 0 ∷ 3 ∷ [])) [] (omega arith, omega arith) not_a_coil (omega arith, refl)
  where
    not_a_coil : ¬ IsCoil register_3.value
    not_a_coil (inl e) = omega arith
    not_a_coil (inr e) = omega arith
