-- ===== src/Tests/Sessions.antt =====
-- Runs of the library's client and the sample server at the two ends of a connection.
use mothbus.Base.{
  ℕ, ◌*◌, ◌≤◌, ◌≡◌, ◌≢◌, refl, inl, true, All, IsU16, List, [], ◌∷◌, map, length, length-replicate,
  replicate, take, drop, words, some, arith,
}
use mothbus.Error.{make_error_code, no_error, illegal_data_address, invalid_response, uninitialised}
use mothbus.Adu.Layer.{returned, undefined}
use mothbus.Adu.Layer.Wire.{wire}
use mothbus.Adu.Stream.Tcp.{ops}
use mothbus.Adu.Tcp.{Stream}
use mothbus.Adu.Tcp.Frame.{adu}
use mothbus.Util.{little}
use mothbus.Examples.Session.{Peer, Query, connected, ask, ask_all, Ready}
use mothbus.Examples.Session.Lookup.{lookup, IsQuery, ask_all-lookup, ask-refuses}
use mothbus.Examples.Session.Updates.{Event, asks, posts, IsEvent, run, seen, run-seen}
use mothbus.Examples.TcpClient.{Options, default_options, value, print_bytes, main}
use mothbus.Examples.TcpClient.Prints.{printed, main-prints}
use mothbus.Examples.TcpClient.Unset.{main-unset}
use mothbus.Tests.Streams.{stream}

abbrev message : List ℕ
message = replicate 320 0

enough : 260 ≤ length message
enough = omega (arith, length-replicate {A = ℕ} 320 0)

-- A client that is connected to a server, and neither has sent anything.
abbrev client : Stream Peer
client = record {
  message_buffer = message;
  next_layer = record { running = true; server = stream [] };
  protocol = 0;
  transaction_id = 0;
}

client-Ready : Ready client
client-Ready = record {
  client_roomy = omega (arith, enough);
  client_small = omega (arith, length-replicate {A = ℕ} 320 0);
  server_roomy = enough;
  server_small = omega (arith, length-replicate {A = ℕ} 320 0);
  counters = (omega arith, omega arith);
  same_protocol = refl;
  serving = refl;
  idle = refl;
}

abbrev registers : List ℕ
registers = 7 ∷ 0x1234 ∷ 0xabcd ∷ []

registers_U16 : All IsU16 registers
registers_U16 = (omega arith, (omega arith, (omega arith, tt)))

-- Two registers that are there, one that is not, and none.
abbrev queries : List Query
queries =
    record { slave = 1; address = 1; out = 0 ∷ 0 ∷ [] }
    ∷ record { slave = 1; address = 3; out = 9 ∷ [] }
    ∷ record { slave = 1; address = 0; out = [] }
    ∷ []

short_query : (q : Query) → q.slave ≢ 0 → IsU16 q.address → length q.out ≤ 123 → IsQuery q
short_query q a f s = record { answered = a; fits = f; fits' = omega (arith, s); short = inl s }

queries-IsQuery : All IsQuery queries
queries-IsQuery = (
  short_query _ (omega arith) (omega arith) (omega arith),
  (
    short_query _ (omega arith) (omega arith) (omega arith),
    (short_query _ (omega arith) (omega arith) (omega arith), tt),
  ),
)

ask_all-lookup_example :
    (st' : Stream Peer) × (ask_all little registers message queries client
      ≡ returned (map (lookup registers) queries) st')
    × Ready st'
ask_all-lookup_example =
    ask_all-lookup little registers message enough registers_U16 queries client client-Ready
      queries-IsQuery

-- A query before two updates, one after them, and one that is not inside the registers.
abbrev events : List Event
events =
    asks (record { slave = 1; address = 1; out = 9 ∷ 9 ∷ [] })
    ∷ posts 3
    ∷ posts 65543
    ∷ asks (record { slave = 1; address = 0; out = 9 ∷ 9 ∷ 9 ∷ [] })
    ∷ asks (record { slave = 1; address = 199; out = 9 ∷ 9 ∷ [] })
    ∷ []

events-IsEvent : All IsEvent events
events-IsEvent = (
  short_query _ (omega arith) (omega arith) (omega arith),
  (
    tt,
    (
      tt,
      (
        short_query _ (omega arith) (omega arith) (omega arith),
        (short_query _ (omega arith) (omega arith) (omega arith), tt),
      ),
    ),
  ),
)

run-seen_example :
    (st' : Stream Peer) × (run little message (replicate 200 0) events client
      ≡ returned (seen 200 0 events) st')
    × Ready st'
run-seen_example =
    run-seen little message enough 200 events 0 client (omega arith) client-Ready events-IsEvent

-- What the client gets.
seen_test :
    seen 200 0 events
    ≡ (no_error, 0 ∷ 0 ∷ [])
      ∷ (no_error, 7 ∷ 7 ∷ 7 ∷ [])
      ∷ (make_error_code illegal_data_address, 9 ∷ 9 ∷ [])
      ∷ []
seen_test = refl

-- A client that asks for 124 registers.
abbrev large : Query
large = record { slave = 1; address = 0; out = replicate 124 9 }

many : length {A = ℕ} (replicate 124 9) ≡ 124
many = length-replicate {A = ℕ} 124 9

zeros_U16 : (n : ℕ) → All IsU16 (replicate n 0)
zeros_U16 ℕ.zero = tt
zeros_U16 (ℕ.suc n) = (omega arith, zeros_U16 n)

ask-refuses_example :
    (st' : Stream Peer) × (ask little (replicate 200 0) message large client
      ≡ returned (make_error_code invalid_response, large.out) st')
    × (st'.next_layer.server.next_layer ≡ (
      [],
      0x03 ∷ (length large.out * 2) ∷ words (take (length large.out) (drop 0 (replicate 200 0))),
    ))
ask-refuses_example =
    ask-refuses little (replicate 200 0) message enough (zeros_U16 200) client large client-Ready
      (omega arith) (omega arith) (omega (arith, many), omega (arith, many))
      (omega (arith, many, length-replicate {A = ℕ} 200 0))

abbrev options : Options
options = record default_options { host = some []; register_address = 2 }

main-prints_example :
    (st' : Stream Peer) × (main (ops (connected little registers message)) options client
      ≡ returned (printed registers 2) st')
    × Ready st'
main-prints_example =
    main-prints little registers message options client enough client-Ready (omega arith)
      (omega arith) (refl, refl)

-- What is printed: abcd
printed_test : printed registers 2 ≡ value (97 ∷ 98 ∷ 99 ∷ 100 ∷ [])
unfolding print_bytes
printed_test = refl

abbrev all_slaves : Options
all_slaves = record options { slave = 256 }

main-unset_example : main (ops wire) all_slaves (stream []) ≡ undefined uninitialised
main-unset_example =
    main-unset wire all_slaves (stream []) ([], adu 0 0 0 (3 ∷ 0 ∷ 2 ∷ 0 ∷ 1 ∷ [])) (omega arith)
      (refl, refl) (omega (arith, enough)) (omega (arith, length-replicate {A = ℕ} 320 0)) refl refl
