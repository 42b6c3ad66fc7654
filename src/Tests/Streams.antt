-- ===== src/Tests/Streams.antt =====
-- Runs of include/mothbus/adu/tcp.h on concrete inputs, over a layer that has its input ready.
use mothbus.Base.{
  ℕ, ◌≡◌, ◌≤◌, ◌↔◌, refl, true, List, [], ◌∷◌, ◌++◌, length, length-replicate, replicate, none,
  some, arith,
}
use mothbus.Error.{
  ModbusExceptionCode, make_error_code, done, invalid_response, success, modbus_category,
}
use mothbus.Pdu.FunctionCode.{to_byte}
use mothbus.Pdu.Reader.Laws.{Takes}
use mothbus.Pdu.Writer.{write_bytes}
use mothbus.Pdu.SpanResponse.Laws.{filled, read-Takes}
use mothbus.Pdu.RespReadingCoils
use mothbus.Pdu.ReqReadingCoils
use mothbus.Pdu.ReqReadingCoils.{ReadCoilsPduReq}
use mothbus.Pdu.RespWritingMultipleCoils
use mothbus.Pdu.Response
use mothbus.Pdu.Response.Laws.{read-expected}
use mothbus.Adu.Buffer.{Buffer, reader, sink}
use mothbus.Adu.Buffer.Queue.{reader_laws, skip}
use mothbus.Adu.Buffer.Fill.{write_bytes-over}
use mothbus.Adu.Layer.{returned}
use mothbus.Adu.Layer.Wire.{Wire, wire}
use mothbus.Adu.Tcp.{
  MbapHeader, Stream, frame, write_request, write_response, read_response, check_header,
  is_valid_length,
}
use mothbus.Adu.Tcp.Frame.{adu, frame-adu}
use mothbus.Adu.Tcp.Send.{write_request-sends, write_response-sends}
use mothbus.Adu.Tcp.Receive.{mbap}
use mothbus.Adu.Tcp.Answer.{read_response-refuses, read_response-accepts, read_response-exception}
use mothbus.Adu.Tcp.Refusal.{check_header-none, check_header-large, Refusal}
use mothbus.Tests.{incoming, three_bytes, coils_request, coils_request_bytes, coils_request-Writes}

-- A stream that has sent nothing, with this input ready.
abbrev pub stream : List ℕ → Stream Wire
stream input = record {
  message_buffer = replicate 320 0;
  next_layer = (input, []);
  protocol = 0;
  transaction_id = 0;
}

pub small : length {A = ℕ} (replicate 320 0) ≤ 320
small = omega (arith, length-replicate {A = ℕ} 320 0)

pub roomy : 256 ≤ length {A = ℕ} (replicate 320 0)
roomy = omega (arith, length-replicate {A = ℕ} 320 0)

write_bytes-over_test :
    write_bytes sink (1 ∷ 2 ∷ []) (record {
      message_buffer = 9 ∷ 9 ∷ 9 ∷ 9 ∷ [];
      input_start = 0;
      input_end = 0;
      output_start = 1;
    })
    ≡ done (record {
      message_buffer = 9 ∷ 1 ∷ 2 ∷ 9 ∷ [];
      input_start = 0;
      input_end = 0;
      output_start = 3;
    })
write_bytes-over_test =
    write_bytes-over (1 ∷ 2 ∷ []) (9 ∷ 9 ∷ []) (9 ∷ []) (9 ∷ [])
      (record {
        message_buffer = 9 ∷ 9 ∷ 9 ∷ 9 ∷ [];
        input_start = 0;
        input_end = 0;
        output_start = 1;
      })
      refl refl refl

frame-adu_test :
    frame ReqReadingCoils.writable 5 0 1 coils_request (replicate 14 0)
    ≡ done (record {
      message_buffer = 0 ∷ 5 ∷ 0 ∷ 0 ∷ 0 ∷ 6 ∷ 1 ∷ 1 ∷ 0 ∷ 19 ∷ 0 ∷ 10 ∷ 0 ∷ 0 ∷ [];
      input_start = 0;
      input_end = 12;
      output_start = 24;
    })
frame-adu_test =
    frame-adu ReqReadingCoils.writable 5 0 1 coils_request coils_request_bytes (replicate 14 0)
      coils_request-Writes (omega arith) (omega arith)

write_request-sends_example :
    write_request wire ReqReadingCoils.writable 1 coils_request (stream [])
    ≡ returned 0 (record {
      message_buffer = adu 0 0 1 coils_request_bytes ++ replicate 308 0;
      next_layer = ([], 0 ∷ 0 ∷ 0 ∷ 0 ∷ 0 ∷ 6 ∷ 1 ∷ 1 ∷ 0 ∷ 19 ∷ 0 ∷ 10 ∷ []);
      protocol = 0;
      transaction_id = 1;
    })
write_request-sends_example =
    write_request-sends wire ReqReadingCoils.writable coils_request coils_request_bytes (stream [])
      coils_request-Writes (omega (arith, roomy)) small 1 ([], adu 0 0 1 coils_request_bytes) refl

write_response-sends_test :
    write_response wire RespWritingMultipleCoils.writable 7 1
      (record { starting_address = 19; quantity_of_coils = 10 })
      (stream [])
    ≡ returned tt (record {
      message_buffer = adu 7 0 1 (15 ∷ 0 ∷ 19 ∷ 0 ∷ 10 ∷ []) ++ replicate 308 0;
      next_layer = ([], 0 ∷ 7 ∷ 0 ∷ 0 ∷ 0 ∷ 6 ∷ 1 ∷ 15 ∷ 0 ∷ 19 ∷ 0 ∷ 10 ∷ []);
      protocol = 0;
      transaction_id = 0;
    })
unfolding to_byte
write_response-sends_test =
    write_response-sends wire RespWritingMultipleCoils.writable
      (record { starting_address = 19; quantity_of_coils = 10 }) (15 ∷ 0 ∷ 19 ∷ 0 ∷ 10 ∷ [])
      (stream [])
      (RespWritingMultipleCoils.write-WritesFormat.writes Buffer sink
        (record { starting_address = 19; quantity_of_coils = 10 }) (omega arith, omega arith))
      (omega (arith, roomy)) small 7 1 ([], adu 7 0 1 (15 ∷ 0 ∷ 19 ∷ 0 ∷ 10 ∷ [])) refl

-- The header of a response with a PDU of four bytes, and one with a PDU of two.
abbrev four_bytes : MbapHeader
four_bytes = record { transaction_id = 0; protocol = 0; length = 5; unit_id = 1 }

abbrev two_bytes : MbapHeader
two_bytes = record { transaction_id = 0; protocol = 0; length = 3; unit_id = 1 }

check_header-none_test : (check_header four_bytes 0 0 1 ≡ none) ↔ (
    (four_bytes.transaction_id ≡ 0)
    × (four_bytes.protocol ≡ 0)
    × (four_bytes.unit_id ≡ 1)
    × (2 ≤ 5)
    × (5 ≤ 249))
check_header-none_test = check_header-none four_bytes 0 0 1

abbrev large : MbapHeader
large = record { transaction_id = 0; protocol = 0; length = 250; unit_id = 1 }

check_header-large_test :
    (is_valid_length large ≡ true) × (check_header large 0 0 1 ≡ some invalid_response)
check_header-large_test = check_header-large large (omega arith) (omega arith)

abbrev coils_response_bytes : List ℕ
coils_response_bytes = 1 ∷ 2 ∷ 0xcd ∷ 0x6b ∷ []

read_response-refuses_example :
    (code : ModbusExceptionCode) × Refusal four_bytes 3 0 1 code
    × (read_response wire RespReadingCoils.readable 3 1 three_bytes (stream (mbap four_bytes))
        ≡ returned
            (make_error_code code, three_bytes)
            (record (stream (mbap four_bytes)) {
              message_buffer = mbap four_bytes ++ replicate 313 0;
              next_layer = ([], []);
            }))
read_response-refuses_example =
    read_response-refuses wire RespReadingCoils.readable three_bytes (stream (mbap four_bytes))
      small roomy four_bytes (omega arith, omega arith, omega arith) 3 1 (omega arith) ([], []) refl
      (λ e. omega (arith, e.same_transaction))

read_response-accepts_example :
    read_response wire RespReadingCoils.readable 0 1 three_bytes
      (stream (mbap four_bytes ++ coils_response_bytes))
    ≡ returned
        (make_error_code success, filled three_bytes (0xcd ∷ 0x6b ∷ []))
        (record (stream []) {
          message_buffer = mbap four_bytes ++ (coils_response_bytes ++ replicate 309 0);
        })
unfolding check_header to_byte
read_response-accepts_example =
    read_response-accepts wire RespReadingCoils.readable three_bytes
      (stream (mbap four_bytes ++ coils_response_bytes)) small roomy four_bytes
      (omega arith, omega arith, omega arith) 0 1 (omega arith) (coils_response_bytes, []) refl refl
      coils_response_bytes ([], []) refl refl (2 ∷ 0xcd ∷ 0x6b ∷ [])
      (filled three_bytes (0xcd ∷ 0x6b ∷ [])) (omega arith) refl
      (λ r held. read-Takes reader_laws three_bytes (0xcd ∷ 0x6b ∷ []) r [] (omega arith) held)

read_response-exception_test :
    read_response wire RespReadingCoils.readable 0 1 three_bytes
      (stream (mbap two_bytes ++ (129 ∷ 2 ∷ [])))
    ≡ returned
        (record { value = 2; category = modbus_category }, three_bytes)
        (record (stream []) { message_buffer = mbap two_bytes ++ (129 ∷ 2 ∷ replicate 311 0) })
unfolding check_header
read_response-exception_test =
    read_response-exception wire RespReadingCoils.readable three_bytes
      (stream (mbap two_bytes ++ (129 ∷ 2 ∷ []))) small roomy two_bytes
      (omega arith, omega arith, omega arith) 0 1 (omega arith) (129 ∷ 2 ∷ [], []) refl refl
      (129 ∷ 2 ∷ []) ([], []) refl refl 129 2 (omega arith) (omega arith) (omega arith) refl

-- The response of the test: the bytes behind the function code.
read-expected_test :
    Takes reader_laws
      (Response.read reader RespReadingCoils.readable)
      three_bytes
      (incoming coils_response_bytes)
      coils_response_bytes
      []
      (filled three_bytes (0xcd ∷ 0x6b ∷ []))
unfolding to_byte
read-expected_test =
    read-expected reader_laws RespReadingCoils.readable three_bytes
      (filled three_bytes (0xcd ∷ 0x6b ∷ [])) (2 ∷ 0xcd ∷ 0x6b ∷ []) []
      (incoming coils_response_bytes) (omega arith) (omega arith, refl)
      (read-Takes reader_laws three_bytes (0xcd ∷ 0x6b ∷ []) (skip (incoming coils_response_bytes))
        [] (omega arith) (omega arith, refl))
