-- ===== src/Tests/Connections.antt =====
-- Runs of examples/tcpserver.cpp and examples/tcpserver_coroutine.cpp on concrete inputs.
use mothbus.Base.{
  ℕ, ◌≡◌, ◌≢◌, refl, ap, inl, true, All, IsByte, List, [], ◌∷◌, ◌++◌, length, length-replicate,
  replicate, arith,
}
use mothbus.Error.{no_error, out_of_bounds}
use mothbus.Pdu.FunctionCode.{to_byte}
use mothbus.Pdu.Request.{
  Request, PduReq, request, read_holding, read_coils, read_discrete_inputs, read_input,
  write_single_coil, write_single_register, write_multiple_coils, write_multiple_registers,
  read_write_multiple_registers,
}
use mothbus.Pdu.Request.Wire.{encode, IsValid}
use mothbus.Pdu.ReqReadingRegister.{ReadHoldingPduReq}
use mothbus.Adu.Layer.{WriteLaws}
use mothbus.Adu.Layer.Wire.{Wire, wire}
use mothbus.Adu.Tcp.{MbapHeader, Stream, fresh_stream, is_valid_length}
use mothbus.Adu.Tcp.Frame.{adu}
use mothbus.Adu.Tcp.Receive.{mbap}
use mothbus.Adu.Tcp.Server.{filled}
use mothbus.Util.{little}
use mothbus.Examples.Loop.{fresh}
use mothbus.Examples.RegisterServer
use mothbus.Examples.ZeroServer
use mothbus.Examples.ZeroServer.{Terminal, print, beside}
use mothbus.Examples.ZeroServer.Zeros.{announced, handle-zeros}
use mothbus.Examples.TcpServer.{
  Connection, closed, next, fault, async_read, Server, accept, on_completion, on_accept,
}
use mothbus.Examples.TcpServer.Requests.{waiting, header_came, served, overflows, refused}
use mothbus.Examples.TcpServer.Ends.{WellFormed, Ends}
use mothbus.Examples.TcpServer.Reachable.{Reached, started, stepped, accepted, completed}
use mothbus.Examples.TcpServer.Reachable.Invariant.{Reached-WellFormed, Reached-Ends}

abbrev st : Stream Wire
st = fresh_stream ([], [])

size : length {A = ℕ} (replicate 320 0) ≡ 320
size = length-replicate {A = ℕ} 320 0

abbrev of_length : ℕ → MbapHeader
of_length n = record { transaction_id = 9; protocol = 0; length = n; unit_id = 255 }

valid6 : is_valid_length (of_length 6) ≡ true
unfolding is_valid_length
valid6 = refl

valid2 : is_valid_length (of_length 2) ≡ true
unfolding is_valid_length
valid2 = refl

-- Two registers at the address 100.
abbrev two_at_100 : ReadHoldingPduReq
two_at_100 = record { starting_address = 100; quantity_of_registers = 2 }

abbrev asks_two : List ℕ
asks_two = 3 ∷ 0 ∷ 100 ∷ 0 ∷ 2 ∷ []

asks_two_bytes : All IsByte asks_two
asks_two_bytes = (omega arith, (omega arith, (omega arith, (omega arith, (omega arith, tt)))))

abbrev heard : Connection Wire
heard =
    waiting wire st fresh (omega (arith, size)) (of_length 6)
      (omega arith, omega arith, omega arith) valid6

served_example :
    (on_completion wire (filled (mbap (of_length 6))) (async_read wire st fresh) ≡ next heard)
    × (on_completion wire (filled asks_two) heard
        ≡ next (
            async_read wire
              (record st {
                message_buffer = adu 9 0 255 (3 ∷ 4 ∷ 0 ∷ 0 ∷ 0 ∷ 0 ∷ []) ++ replicate 307 0;
                next_layer = ([], adu 9 0 255 (3 ∷ 4 ∷ 0 ∷ 0 ∷ 0 ∷ 0 ∷ []));
              })
              (request (read_holding two_at_100))))
unfolding to_byte
served_example =
    served wire st fresh (omega (arith, size)) (of_length 6) (omega arith, omega arith, omega arith)
      valid6 asks_two refl asks_two_bytes two_at_100 []
      ([], adu 9 0 255 (3 ∷ 4 ∷ 0 ∷ 0 ∷ 0 ∷ 0 ∷ [])) (omega arith, omega arith) refl
      (omega (arith, size)) (omega (arith, size)) (inl refl)

-- Two hundred registers at the address 100.
abbrev many_at_100 : ReadHoldingPduReq
many_at_100 = record { starting_address = 100; quantity_of_registers = 200 }

abbrev asks_many : List ℕ
asks_many = 3 ∷ 0 ∷ 100 ∷ 0 ∷ 200 ∷ []

overflows_example : on_completion wire (filled asks_many) heard ≡ fault out_of_bounds
unfolding to_byte
overflows_example =
    overflows wire st fresh (omega (arith, size)) (of_length 6)
      (omega arith, omega arith, omega arith) valid6 asks_many refl
      (omega arith, (omega arith, (omega arith, (omega arith, (omega arith, tt))))) many_at_100 []
      (omega arith, omega arith) refl (omega (arith, size, length-replicate {A = ℕ} 400 0))

-- A function code of no class.
abbrev unknown : List ℕ
unknown = 0x63 ∷ []

abbrev first : List ℕ → ℕ
first [] = 0
first (b ∷ bs) = b

no_request : (q : Request) (rest : List ℕ) → IsValid q → unknown ≢ encode q ++ rest
unfolding to_byte
no_request (read_coils v) rest k e = omega (arith, ap first e)
no_request (read_discrete_inputs v) rest k e = omega (arith, ap first e)
no_request (read_holding v) rest k e = omega (arith, ap first e)
no_request (read_input v) rest k e = omega (arith, ap first e)
no_request (write_single_coil v) rest k e = omega (arith, ap first e)
no_request (write_single_register v) rest k e = omega (arith, ap first e)
no_request (write_multiple_coils v) rest k e = omega (arith, ap first e)
no_request (write_multiple_registers v) rest k e = omega (arith, ap first e)
no_request (read_write_multiple_registers v) rest k e = omega (arith, ap first e)

abbrev short : Connection Wire
short =
    waiting wire st fresh (omega (arith, size)) (of_length 2)
      (omega arith, omega arith, omega arith) valid2

refused_example :
    (st' : Stream Wire) × (req : PduReq) × (on_completion wire (filled unknown) short
      ≡ next (closed st' req))
    × (st'.next_layer ≡ ([], []))
refused_example =
    refused wire st fresh (omega (arith, size)) (of_length 2)
      (omega arith, omega arith, omega arith) valid2 unknown refl (omega arith, tt) no_request

wire-WriteLaws : WriteLaws wire
wire-WriteLaws = record { write_ends = λ bytes s. ((s.0, s.1 ++ bytes), inl refl) }

-- A connection has come in, and then a header over it.
abbrev one : Server Wire
one = accept (heard ∷ [])

one-Reached : Reached wire one
unfolding on_accept
one-Reached = stepped (stepped started (accepted no_error ([], []) refl)) (
    completed [] [] st _ (filled (mbap (of_length 6))) heard refl
      (
        refl,
        (
          omega arith,
          (
            omega arith,
            (omega arith, (omega arith, (omega arith, (omega arith, (omega arith, tt))))),
          ),
        ),
      )
      (header_came wire st fresh (omega (arith, size)) (of_length 6)
        (omega arith, omega arith, omega arith) valid6))

Reached-WellFormed_example : All WellFormed (heard ∷ [])
Reached-WellFormed_example = Reached-WellFormed wire wire-WriteLaws one-Reached

Reached-Ends_example : Ends wire (filled asks_many) (on_completion wire (filled asks_many) heard)
Reached-Ends_example =
    Reached-Ends wire wire-WriteLaws [] [] st _ (filled asks_many) one-Reached refl
      (refl, (omega arith, (omega arith, (omega arith, (omega arith, (omega arith, tt))))))

abbrev terminal : Stream (Terminal Wire)
terminal = fresh_stream (record { socket = ([], []); printed = [] })

handle-zeros_example :
    ZeroServer.handle wire (request (read_holding two_at_100)) 9 1 terminal
    ≡ RegisterServer.handle
        (beside wire)
        little
        (replicate 65660 0)
        (request (read_holding two_at_100))
        9
        1
        (print (announced 1 (read_holding two_at_100)) terminal)
handle-zeros_example =
    handle-zeros wire little 65660 (omega arith) 9 1 terminal (read_holding two_at_100)
      (omega arith, omega arith)
