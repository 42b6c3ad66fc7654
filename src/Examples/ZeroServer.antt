-- ===== src/Examples/ZeroServer.antt =====
-- examples/tcpserver_coroutine.cpp: a server without registers of its own, which answers zeros, and prints
-- what it is asked.
pub mod Zeros
use Prim.Native.String.{String}
use mothbus.Base.{ℕ, ◌*◌, Bool, ◌&&◌, not, leb, if◌then◌else◌, List, [], ◌∷◌, ◌++◌, replicate}
use mothbus.Error.{illegal_function, illegal_data_value}
use mothbus.Pdu.FunctionCode.{FunctionCode, to_byte}
use mothbus.Pdu.Request.{PduReq, request, read_holding}
use mothbus.Pdu.RespReadingRegister
use mothbus.Adu.Layer.{Call, Layer, returned, threw, undefined}
use mothbus.Adu.Tcp.{Stream, fresh_stream, write_response}
use mothbus.Examples.Loop
use mothbus.Examples.Loop.{request_code, write_exception_response}

-- What goes into `std::cout`: a text, or a number, which is printed in base 10.
pub data Output : Type 0 where
  text : String → Output
  number : ℕ → Output

-- The socket, and what has been printed while it was served.
pub record Terminal (N : Type 0) : Type 0 where
  pub socket : N
  pub printed : List Output

-- `std::cout << ...`
abbrev pub print : {N : Type 0} → List Output → Stream (Terminal N) → Stream (Terminal N)
print outputs st = record st {
  next_layer = record st.next_layer { printed = st.next_layer.printed ++ outputs };
}

-- A call of the layer prints nothing.
abbrev pub on_socket : {N A : Type 0} → (N → Call N A) → Terminal N → Call (Terminal N) A
on_socket call terminal = elim (call terminal.socket) [
  | returned a s ↦ returned a (record terminal { socket = s })
  | threw ec s ↦ threw ec (record terminal { socket = s })
  | undefined e ↦ undefined e
]

abbrev pub beside : {N : Type 0} → Layer N → Layer (Terminal N)
beside layer = record {
  read = λ n. on_socket (layer.read n);
  write = λ bytes. on_socket (layer.write bytes);
}

module _ {N : Type 0} (layer : Layer N) where
  -- `reqest_handler`: any registers can be read, and they are zero. Both overloads print the request first.
  unfoldable pub handle :
      PduReq → ℕ → ℕ → Stream (Terminal N) → Call (Stream (Terminal N)) (Unit {0})
  unfolding write_exception_response write_response to_byte
  handle (request (read_holding req)) transaction_id unit_id st =
      let st' =
        print
          (text "read holding register request received:\n"
            ∷ text "unitID: "
            ∷ number unit_id
            ∷ text "\n"
            ∷ text "register address: "
            ∷ number req.starting_address
            ∷ text "\n"
            ∷ [])
          st in
      if not (leb 1 req.quantity_of_registers && leb req.quantity_of_registers 125)
      then write_exception_response (beside layer) FunctionCode.read_holding_registers
          illegal_data_value transaction_id unit_id st'
      else write_response (beside layer) RespReadingRegister.writable transaction_id unit_id
          (RespReadingRegister.resp (replicate (req.quantity_of_registers * 2) 0)) st'
  handle req transaction_id unit_id st =
      let st' =
        print
          (text "not implemented function code received:\n"
            ∷ text "unitID: "
            ∷ number unit_id
            ∷ text "\n"
            ∷ text "functionCode "
            ∷ number (to_byte (request_code req))
            ∷ text "\n"
            ∷ [])
          st in
      write_exception_response (beside layer) (request_code req) illegal_function transaction_id
        unit_id st'

  -- One turn of `handle_message`.
  unfoldable pub turn : List ℕ → Stream (Terminal N) → Call (Stream (Terminal N)) Bool
  unfolding Loop.turn handle
  turn message st = Loop.turn (beside layer) handle message st

  -- `handle_message` on a new connection, with a bound on the number of turns.
  unfoldable pub handle_message : ℕ → N → Call (Stream (Terminal N)) (Unit {0})
  unfolding Loop.turns handle
  handle_message n socket =
      Loop.turns (beside layer) handle (replicate 320 0) n
        (fresh_stream (record { socket = socket; printed = [] }))
