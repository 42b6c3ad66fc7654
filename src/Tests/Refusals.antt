-- ===== src/Tests/Refusals.antt =====
-- Runs of include/mothbus/adu/master.h on answers that are exceptions, over both streams, and on a damaged one.
use mothbus.Base.{ℕ, ◌≡◌, refl, inl, List, [], ◌∷◌, ◌++◌, map, some, arith}
use mothbus.Error.{no_error, modbus_category, make_error_code, invalid_response}
use mothbus.Adu.Layer.{returned}
use mothbus.Adu.Layer.Wire.{wire}
use mothbus.Adu.Master.{read_register_words, write_multiple_registers}
use mothbus.Adu.Master.Exceptions.{
  read_register_words-excepted, read_register_words-lost, write_multiple_registers-excepted,
}
use mothbus.Adu.Master.Damaged.{read_register_words-detects}
use mothbus.Adu.Rtu.{Stream}
use mothbus.Adu.Rtu.Send.{adu, checksum}
use mothbus.Adu.Rtu.Verdict.{read_stream}
use mothbus.Adu.Stream.Rtu.{
  ops as rtu_ops, exceptions as rtu_exceptions, Exchange as RtuExchange, waiting, rest_of_frame,
}
use mothbus.Adu.Stream.Tcp
use mothbus.Tests.Client.{answer, after, exchange}
use mothbus.Tests.Serial
use mothbus.Tests.Serial.{serial, deliver}
use mothbus.Tests.Streams.{stream}

abbrev question : List ℕ
question = 3 ∷ 0 ∷ 5 ∷ 0 ∷ 2 ∷ []

read_register_words-excepted_example :
    read_register_words (Tcp.ops wire) 1 5 (7 ∷ 8 ∷ []) (stream (answer (0x83 ∷ 2 ∷ [])))
    ≡ returned
        (record { value = 2; category = modbus_category }, 7 ∷ 8 ∷ [])
        (after question (0x83 ∷ 2 ∷ []))
read_register_words-excepted_example =
    read_register_words-excepted (Tcp.exceptions wire) 1 0x83 2 (omega arith) (omega arith)
      (omega arith) 5 (omega arith) (7 ∷ 8 ∷ []) (stream (answer (0x83 ∷ 2 ∷ [])))
      (after question (0x83 ∷ 2 ∷ [])) (omega arith)
      (exchange question (0x83 ∷ 2 ∷ []) (omega arith) (omega arith, omega arith) refl refl) refl

abbrev two_registers : List ℕ
two_registers = 0x10 ∷ 0 ∷ 5 ∷ 0 ∷ 2 ∷ 4 ∷ 0 ∷ 7 ∷ 0 ∷ 8 ∷ []

write_multiple_registers-excepted_example :
    write_multiple_registers (Tcp.ops wire) 1 5 (7 ∷ 8 ∷ []) (stream (answer (0x90 ∷ 2 ∷ [])))
    ≡ returned
        (record { value = 2; category = modbus_category })
        (after two_registers (0x90 ∷ 2 ∷ []))
write_multiple_registers-excepted_example =
    write_multiple_registers-excepted (Tcp.exceptions wire) 1 0x90 2 (omega arith) (omega arith)
      (omega arith) 5 (omega arith) (7 ∷ 8 ∷ []) (stream (answer (0x90 ∷ 2 ∷ [])))
      (after two_registers (0x90 ∷ 2 ∷ [])) (omega arith) (omega arith)
      (omega arith, (omega arith, tt))
      (exchange two_registers (0x90 ∷ 2 ∷ []) (omega arith) (omega arith, omega arith) refl refl)

-- The slave 1 answers on a serial line with the exception illegal_data_address.
abbrev came : List ℕ
came = (0x83 ∷ 2 ∷ []) ++ checksum (1 ∷ 0x83 ∷ 2 ∷ [])

abbrev start : Stream Serial.Wire
start = Serial.stream (map some (1 ∷ came))

abbrev sent : List ℕ
sent = adu 1 question

-- The stream when the answer has been read.
abbrev heard : Stream Serial.Wire
heard =
    read_stream (waiting serial 1 question start (map some (1 ∷ came), sent)) 1
      (rest_of_frame serial 1 (0x83 ∷ 2 ∷ [])) ([], sent)

refused-Exchange : RtuExchange serial 1 question (0x83 ∷ 2 ∷ []) start heard
refused-Exchange = record {
  asked = omega arith;
  small = Serial.small;
  request_fits = omega (arith, Serial.roomy);
  response_fits = omega (arith, Serial.roomy);
  sent = (map some (1 ∷ came), sent);
  sends = inl refl;
  begun = (map some came, sent);
  begins = refl;
  ended = ([], sent);
  delivers = deliver came sent;
  left = refl;
}

read_register_words-lost_example :
    read_register_words (rtu_ops serial) 1 5 (7 ∷ 8 ∷ []) start
    ≡ returned (no_error, 0 ∷ 0 ∷ []) heard
read_register_words-lost_example =
    read_register_words-lost (rtu_exceptions serial) 1 0x83 2 (omega arith) (omega arith)
      (omega arith) 5 (omega arith) (7 ∷ 8 ∷ []) start heard (omega arith) refused-Exchange refl
      (omega arith)

-- The slave answered with the registers 17 and 2, and 0x55 arrived for 17.
abbrev damaged : List ℕ
damaged = (3 ∷ 4 ∷ 0 ∷ 0x55 ∷ 0 ∷ 2 ∷ []) ++ checksum (1 ∷ 3 ∷ 4 ∷ 0 ∷ 0x11 ∷ 0 ∷ 2 ∷ [])

abbrev start_damaged : Stream Serial.Wire
start_damaged = Serial.stream (map some (1 ∷ damaged))

read_register_words-detects_example :
    read_register_words (rtu_ops serial) 1 5 (7 ∷ 8 ∷ []) start_damaged
    ≡ returned
        (make_error_code invalid_response, 7 ∷ 8 ∷ [])
        (read_stream
          (waiting serial 1 question start_damaged (map some (1 ∷ damaged), sent))
          1
          damaged
          ([], sent))
read_register_words-detects_example =
    read_register_words-detects serial start_damaged Serial.small 1 (omega arith) 5 (omega arith)
      (7 ∷ 8 ∷ []) (omega arith) (omega (arith, Serial.roomy)) (map some (1 ∷ damaged), sent)
      (inl refl) (map some damaged, sent) refl (0 ∷ 0x55 ∷ 0 ∷ 2 ∷ [])
      (1 ∷ 3 ∷ 4 ∷ 0 ∷ 0x11 ∷ 0 ∷ 2 ∷ []) (omega arith) ([], sent) (deliver damaged sent)
      (omega (arith, Serial.roomy))
      (record {
        pre = 1 ∷ 3 ∷ 4 ∷ 0 ∷ [];
        post = 2 ∷ [];
        x = 0x11;
        y = 0;
        x' = 0x55;
        y' = 0;
        before = refl;
        after = refl;
        pre_bytes = omega arith;
        post_bytes = omega arith;
        two_bytes = omega arith;
        two_bytes' = omega arith;
        differ = inl (omega arith);
      })
