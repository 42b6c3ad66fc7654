-- ===== src/Tests/Samples.antt =====
-- Runs of the sample server of examples/tcpserver_coroutine_with_data.cpp on concrete inputs.
use mothbus.Base.{
  ℕ, All, ◌≡◌, ◌≤◌, refl, true, List, [], ◌∷◌, ◌++◌, length, length-replicate, replicate, arith,
}
use mothbus.Error.{no_error, out_of_bounds, to_int}
use mothbus.Adu.Layer.{returned, threw, undefined}
use mothbus.Adu.Tcp.{MbapHeader, Stream, is_valid_length}
use mothbus.Adu.Tcp.Frame.{adu}
use mothbus.Adu.Tcp.Receive.{mbap}
use mothbus.Adu.Master.{read_register_words}
use mothbus.Adu.Stream.Tcp.{ops, laws}
use mothbus.Pdu.FunctionCode.{to_byte}
use mothbus.Pdu.Request.{Request, read_holding, read_coils}
use mothbus.Util.{little}
use mothbus.Examples.RegisterServer.{turn, handle_message}
use mothbus.Examples.RegisterServer.Serves.{
  Asked, IsAsked, sent, answers, end_of_input, handle_message-serves,
}
use mothbus.Examples.RegisterServer.Client.{read_register_words-served}
use mothbus.Examples.RegisterServer.Turn.{turn-overflows, turn-replies}
use mothbus.Adu.Layer.Wire.{Wire, wire}
use mothbus.Tests.Streams.{stream, small}
use mothbus.Tests.Client.{answer, after, exchange}

enough : 260 ≤ length {A = ℕ} (replicate 320 0)
enough = omega (arith, length-replicate {A = ℕ} 320 0)

abbrev two_registers : MbapHeader
two_registers = record { transaction_id = 9; protocol = 0; length = 6; unit_id = 1 }

valid : is_valid_length two_registers ≡ true
unfolding is_valid_length
valid = refl

abbrev asks_two : Request
asks_two = read_holding (record { starting_address = 1; quantity_of_registers = 2 })

abbrev registers : List ℕ
registers = 7 ∷ 0x1234 ∷ 0xabcd ∷ []

-- The server has nothing sent, and the bytes of a request are ready.
abbrev asked : Stream Wire
asked = stream (mbap two_registers ++ (3 ∷ 0 ∷ 1 ∷ 0 ∷ 2 ∷ []))

turn-replies_test :
    turn wire little registers (replicate 320 0) asked
    ≡ returned true (record asked {
      message_buffer = adu 9 0 1 (3 ∷ 4 ∷ 0x12 ∷ 0x34 ∷ 0xab ∷ 0xcd ∷ []) ++ replicate 307 0;
      next_layer = ([], adu 9 0 1 (3 ∷ 4 ∷ 0x12 ∷ 0x34 ∷ 0xab ∷ 0xcd ∷ []));
    })
unfolding to_byte
turn-replies_test =
    turn-replies wire little registers (replicate 320 0) enough asked two_registers
      (omega arith, omega arith, omega arith) (3 ∷ 0 ∷ 1 ∷ 0 ∷ 2 ∷ [], []) refl valid asks_two []
      (omega arith, omega arith) refl
      (omega arith, (omega arith, (omega arith, (omega arith, (omega arith, tt))))) ([], []) refl
      ([], adu 9 0 1 (3 ∷ 4 ∷ 0x12 ∷ 0x34 ∷ 0xab ∷ 0xcd ∷ [])) enough small refl

-- A header that announces more than the message buffer has room for.
abbrev large : MbapHeader
large = record { transaction_id = 9; protocol = 0; length = 400; unit_id = 1 }

abbrev flooded : Stream Wire
flooded = stream (mbap large ++ replicate 399 0x55)

turn-overflows_example :
    turn wire little registers (replicate 320 0) flooded ≡ undefined out_of_bounds
turn-overflows_example =
    turn-overflows wire little registers (replicate 320 0) enough flooded large
      (omega arith, omega arith, omega arith) (replicate 399 0x55, []) refl (replicate 399 0x55)
      ([], []) (omega (arith, length-replicate {A = ℕ} 320 0)) refl

read_register_words-served_test :
    read_register_words
      (ops wire)
      1
      1
      (0 ∷ 0 ∷ [])
      (stream (answer (3 ∷ 4 ∷ 0x12 ∷ 0x34 ∷ 0xab ∷ 0xcd ∷ [])))
    ≡ returned
        (no_error, 0x1234 ∷ 0xabcd ∷ [])
        (after (3 ∷ 0 ∷ 1 ∷ 0 ∷ 2 ∷ []) (3 ∷ 4 ∷ 0x12 ∷ 0x34 ∷ 0xab ∷ 0xcd ∷ []))
read_register_words-served_test =
    read_register_words-served (laws wire) 1 1 (omega arith) (0 ∷ 0 ∷ []) registers
      (stream (answer (3 ∷ 4 ∷ 0x12 ∷ 0x34 ∷ 0xab ∷ 0xcd ∷ [])))
      (after (3 ∷ 0 ∷ 1 ∷ 0 ∷ 2 ∷ []) (3 ∷ 4 ∷ 0x12 ∷ 0x34 ∷ 0xab ∷ 0xcd ∷ []))
      (omega arith, omega arith) (omega arith) (omega arith, (omega arith, (omega arith, tt)))
      (exchange (3 ∷ 0 ∷ 1 ∷ 0 ∷ 2 ∷ []) (3 ∷ 4 ∷ 0x12 ∷ 0x34 ∷ 0xab ∷ 0xcd ∷ []) (omega arith)
        (omega arith, omega arith) refl refl)

-- A request for registers, and one that the server does not know, before the first is answered.
abbrev two_requests : List Asked
two_requests =
    record { transaction_id = 9; protocol = 0; unit_id = 1; question = asks_two }
    ∷ record {
      transaction_id = 10;
      protocol = 0;
      unit_id = 1;
      question = read_coils (record { starting_address = 0; quantity_of_coils = 8 });
    }
    ∷ []

two_requests-IsAsked : All IsAsked two_requests
unfolding to_byte
two_requests-IsAsked = (
  record {
    ids = (omega arith, omega arith);
    valid = (omega arith, omega arith);
    short = omega arith;
    bytes = (omega arith, (omega arith, (omega arith, (omega arith, (omega arith, tt)))));
  },
  (
    record {
      ids = (omega arith, omega arith);
      valid = (omega arith, omega arith);
      short = omega arith;
      bytes = (omega arith, (omega arith, (omega arith, (omega arith, (omega arith, tt)))));
    },
    tt,
  ),
)

handle_message-serves_example :
    (st' : Stream Wire) × (handle_message wire little registers 3 (sent two_requests, [])
      ≡ threw end_of_input st')
    × (st'.next_layer ≡ ([], answers registers two_requests))
handle_message-serves_example =
    handle_message-serves little registers two_requests 3 two_requests-IsAsked (omega arith)

-- What has been sent: the registers, and illegal_function.
answers_test :
    answers registers two_requests
    ≡ adu 9 0 1 (3 ∷ 4 ∷ 0x12 ∷ 0x34 ∷ 0xab ∷ 0xcd ∷ []) ++ adu 10 0 1 (0x81 ∷ 1 ∷ [])
unfolding to_byte to_int
answers_test = refl
