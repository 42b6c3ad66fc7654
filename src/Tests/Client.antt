-- ===== src/Tests/Client.antt =====
-- Runs of include/mothbus/adu/master.h on concrete inputs, over the TCP stream.
use mothbus.Base.{
  ℕ, ◌≤◌, ◌≡◌, refl, inl, true, List, [], ◌∷◌, ◌++◌, length, length-replicate, get_or, drop, arith,
}
use mothbus.Error.{no_error, make_error_code, invalid_response}
use mothbus.Adu.Layer.{returned}
use mothbus.Adu.Tcp.{Stream, header_size}
use mothbus.Adu.Tcp.Frame.{adu}
use mothbus.Adu.Tcp.Receive.{mbap}
use mothbus.Adu.Stream.{Accepts}
use mothbus.Adu.Stream.Tcp.{ops, laws, Exchange, answer_header, asking}
use mothbus.Adu.Master.{
  read_coils, read_register_words, read_input_register_words, write_single_coil,
  write_multiple_coils, write_multiple_registers, read_write_multiple_registers, pack_bytes,
}
use mothbus.Adu.Master.Pack.{bit, pack_bytes-coil}
use mothbus.Adu.Master.ReadFunctions.{
  read_coils-reads, read_coils-larger_array, read_register_words-reads,
  read_input_register_words-reads,
}
use mothbus.Adu.Master.Writes.{
  write_single_coil-sends, write_multiple_coils-sends, write_multiple_registers-sends,
}
use mothbus.Adu.Master.ReadWrite.{read_write_multiple_registers-reads}
use mothbus.Adu.Layer.Wire.{Wire, wire}
use mothbus.Tests.Streams.{stream, small, roomy}

-- The answer of the slave 1, with its header.
abbrev pub answer : List ℕ → List ℕ
answer response = mbap (answer_header wire 1 response (stream [])) ++ response

-- The stream after a request and its answer.
abbrev pub after : List ℕ → List ℕ → Stream Wire
after request response = record (stream []) {
  message_buffer =
      mbap (answer_header wire 1 response (stream []))
      ++ (response ++ drop (length response) (drop 7 (asking wire 1 request (stream []))));
  next_layer = ([], adu 0 0 1 request);
  transaction_id = 1;
}

pub exchange :
    (request response : List ℕ)
    → length request ≤ 200
    → (1 ≤ length response) × (length response ≤ 248)
    → wire.read header_size (answer response, adu 0 0 1 request)
      ≡ returned (mbap (answer_header wire 1 response (stream []))) (response, adu 0 0 1 request)
    → wire.read (length response) (response, adu 0 0 1 request)
      ≡ returned response ([], adu 0 0 1 request)
    → Exchange wire 1 request response (stream (answer response)) (after request response)
exchange request response short fits heads ends = record {
  asked = omega arith;
  roomy = roomy;
  small = small;
  request_fits = omega (arith, short, length-replicate {A = ℕ} 320 0);
  response_fits = fits;
  counters = (omega arith, omega arith);
  sent = (answer response, adu 0 0 1 request);
  sends = refl;
  headed = (response, adu 0 0 1 request);
  heads = heads;
  ended = ([], adu 0 0 1 request);
  ends = ends;
  left = refl;
}

abbrev coils_request : List ℕ
coils_request = 1 ∷ 0 ∷ 19 ∷ 0 ∷ 19 ∷ []

abbrev coils_response : List ℕ
coils_response = 1 ∷ 3 ∷ 0xcd ∷ 0x6b ∷ 5 ∷ []

coils-Exchange :
    Exchange wire 1 coils_request coils_response
      (stream (answer coils_response))
      (after coils_request coils_response)
coils-Exchange =
    exchange coils_request coils_response (omega arith) (omega arith, omega arith) refl refl

read_coils-reads_test :
    read_coils (ops wire) 1 19 19 (0 ∷ 0 ∷ 0 ∷ []) (stream (answer coils_response))
    ≡ returned (no_error, 0xcd ∷ 0x6b ∷ 5 ∷ []) (after coils_request coils_response)
read_coils-reads_test =
    read_coils-reads (laws wire) 1 19 (omega arith) (0 ∷ 0 ∷ 0 ∷ [])
      (stream (answer coils_response)) (after coils_request coils_response) 19 (omega arith)
      (omega arith) (omega arith) (0xcd ∷ 0x6b ∷ 5 ∷ []) coils-Exchange refl

-- An array of four bytes for nineteen coils.
read_coils-larger_array_example :
    read_coils (ops wire) 1 19 19 (0 ∷ 0 ∷ 0 ∷ 9 ∷ []) (stream (answer coils_response))
    ≡ returned
        (make_error_code invalid_response, 0xcd ∷ 0x6b ∷ 5 ∷ 9 ∷ [])
        (after coils_request coils_response)
read_coils-larger_array_example =
    read_coils-larger_array (laws wire) 1 19 (omega arith) (0 ∷ 0 ∷ 0 ∷ 9 ∷ [])
      (stream (answer coils_response)) (after coils_request coils_response) 19 (omega arith)
      (omega arith) (omega arith) (0xcd ∷ 0x6b ∷ 5 ∷ []) coils-Exchange (omega arith)

abbrev registers_response : List ℕ
registers_response = 3 ∷ 4 ∷ 0x12 ∷ 0x34 ∷ 0xab ∷ 0xcd ∷ []

read_register_words-reads_example :
    read_register_words (ops wire) 1 5 (0 ∷ 0 ∷ []) (stream (answer registers_response))
    ≡ returned (no_error, 0x1234 ∷ 0xabcd ∷ []) (after (3 ∷ 0 ∷ 5 ∷ 0 ∷ 2 ∷ []) registers_response)
read_register_words-reads_example =
    read_register_words-reads (laws wire) 1 5 (omega arith) (0 ∷ 0 ∷ [])
      (stream (answer registers_response)) (after (3 ∷ 0 ∷ 5 ∷ 0 ∷ 2 ∷ []) registers_response)
      (omega arith) (0x1234 ∷ 0xabcd ∷ []) refl (omega arith, (omega arith, tt))
      (exchange (3 ∷ 0 ∷ 5 ∷ 0 ∷ 2 ∷ []) registers_response (omega arith) (omega arith, omega arith)
        refl refl)

abbrev inputs_response : List ℕ
inputs_response = 4 ∷ 2 ∷ 0x12 ∷ 0x34 ∷ []

read_input_register_words-reads_test :
    read_input_register_words (ops wire) 1 5 (0 ∷ []) (stream (answer inputs_response))
    ≡ returned (no_error, 0x1234 ∷ []) (after (4 ∷ 0 ∷ 5 ∷ 0 ∷ 1 ∷ []) inputs_response)
read_input_register_words-reads_test =
    read_input_register_words-reads (laws wire) 1 5 (omega arith) (0 ∷ [])
      (stream (answer inputs_response)) (after (4 ∷ 0 ∷ 5 ∷ 0 ∷ 1 ∷ []) inputs_response)
      (omega arith) (0x1234 ∷ []) refl (omega arith, tt)
      (exchange (4 ∷ 0 ∷ 5 ∷ 0 ∷ 1 ∷ []) inputs_response (omega arith) (omega arith, omega arith)
        refl refl)

-- The slave echoes another address and another quantity.
write_single_coil-sends_test :
    write_single_coil (ops wire) 1 0xac true (stream (answer (5 ∷ 0 ∷ 7 ∷ 0 ∷ 0 ∷ [])))
    ≡ returned no_error (after (5 ∷ 0 ∷ 0xac ∷ 0xff ∷ 0 ∷ []) (5 ∷ 0 ∷ 7 ∷ 0 ∷ 0 ∷ []))
write_single_coil-sends_test =
    write_single_coil-sends (laws wire) 1 0xac (omega arith)
      (stream (answer (5 ∷ 0 ∷ 7 ∷ 0 ∷ 0 ∷ [])))
      (after (5 ∷ 0 ∷ 0xac ∷ 0xff ∷ 0 ∷ []) (5 ∷ 0 ∷ 7 ∷ 0 ∷ 0 ∷ [])) true 7 0
      (exchange (5 ∷ 0 ∷ 0xac ∷ 0xff ∷ 0 ∷ []) (5 ∷ 0 ∷ 7 ∷ 0 ∷ 0 ∷ []) (omega arith)
        (omega arith, omega arith) refl refl)
      (omega arith) (inl refl)

abbrev ten_coils : List ℕ
ten_coils = 1 ∷ 0 ∷ 1 ∷ 1 ∷ 0 ∷ 0 ∷ 1 ∷ 1 ∷ 1 ∷ 0 ∷ []

pack_bytes-coil_example : bit 0 (get_or (pack_bytes 2 0 ten_coils) 1 0) ≡ 1
pack_bytes-coil_example =
    pack_bytes-coil 2 8 ten_coils
      (
        omega arith,
        (
          omega arith,
          (
            omega arith,
            (
              omega arith,
              (
                omega arith,
                (omega arith, (omega arith, (omega arith, (omega arith, (omega arith, tt))))),
              ),
            ),
          ),
        ),
      )
      (omega arith) (omega arith)

abbrev ten_coils_request : List ℕ
ten_coils_request = 0x0f ∷ 0 ∷ 0x13 ∷ 0 ∷ 10 ∷ 2 ∷ 0xcd ∷ 1 ∷ []

abbrev ten_coils_response : List ℕ
ten_coils_response = 0x0f ∷ 0 ∷ 0x13 ∷ 0 ∷ 10 ∷ []

write_multiple_coils-sends_example :
    write_multiple_coils (ops wire) 1 0x13 ten_coils (stream (answer ten_coils_response))
    ≡ returned no_error (after ten_coils_request ten_coils_response)
unfolding pack_bytes
write_multiple_coils-sends_example =
    write_multiple_coils-sends (laws wire) 1 0x13 (omega arith) (stream (answer ten_coils_response))
      (after ten_coils_request ten_coils_response) ten_coils 0x13 10 (omega arith) (omega arith)
      (omega arith) (omega arith)
      (exchange ten_coils_request ten_coils_response (omega arith) (omega arith, omega arith) refl
        refl)

abbrev two_registers_request : List ℕ
two_registers_request = 0x10 ∷ 0 ∷ 1 ∷ 0 ∷ 2 ∷ 4 ∷ 0 ∷ 10 ∷ 1 ∷ 2 ∷ []

abbrev two_registers_response : List ℕ
two_registers_response = 0x10 ∷ 0 ∷ 1 ∷ 0 ∷ 2 ∷ []

write_multiple_registers-sends_example :
    write_multiple_registers
      (ops wire)
      1
      1
      (10 ∷ 0x102 ∷ [])
      (stream (answer two_registers_response))
    ≡ returned no_error (after two_registers_request two_registers_response)
write_multiple_registers-sends_example =
    write_multiple_registers-sends (laws wire) 1 1 (omega arith)
      (stream (answer two_registers_response)) (after two_registers_request two_registers_response)
      (10 ∷ 0x102 ∷ []) 1 2 (omega arith) (omega arith) (omega arith) (omega arith)
      (omega arith, (omega arith, tt))
      (exchange two_registers_request two_registers_response (omega arith)
        (omega arith, omega arith) refl refl)

abbrev both_request : List ℕ
both_request = 0x17 ∷ 0 ∷ 3 ∷ 0 ∷ 3 ∷ 0 ∷ 14 ∷ 0 ∷ 1 ∷ 2 ∷ 0 ∷ 0xff ∷ []

-- Three registers are asked for, and one comes.
read_write_multiple_registers-reads_example :
    Accepts
      (read_write_multiple_registers (ops wire) 1 3 (7 ∷ 7 ∷ 7 ∷ []) 14 (0xff ∷ []))
      (stream (answer (0x17 ∷ 2 ∷ 0x12 ∷ 0x34 ∷ [])))
      (0x1234 ∷ 0 ∷ 0 ∷ [])
      (after both_request (0x17 ∷ 2 ∷ 0x12 ∷ 0x34 ∷ []))
read_write_multiple_registers-reads_example =
    read_write_multiple_registers-reads (laws wire) 1 3 14 (omega arith, omega arith)
      (7 ∷ 7 ∷ 7 ∷ []) (0xff ∷ []) (omega arith) (omega arith) (omega arith, tt)
      (stream (answer (0x17 ∷ 2 ∷ 0x12 ∷ 0x34 ∷ [])))
      (after both_request (0x17 ∷ 2 ∷ 0x12 ∷ 0x34 ∷ [])) (0x1234 ∷ []) 2 refl (omega arith, tt)
      (exchange both_request (0x17 ∷ 2 ∷ 0x12 ∷ 0x34 ∷ []) (omega arith) (omega arith, omega arith)
        refl refl)
