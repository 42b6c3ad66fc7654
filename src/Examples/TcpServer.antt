-- ===== src/Examples/TcpServer.antt =====
-- examples/tcpserver.cpp: a server with callbacks, its connections and the handler of their requests.
pub mod Handler
pub mod Requests
pub mod Ends
pub mod Reachable
use mothbus.Base.{
  ℕ, ◌*◌, ◌==◌, Bool, true, false, not, if◌then◌else◌, List, [], ◌∷◌, ◌++◌, Option, none, some,
  replicate,
}
use mothbus.Error.{
  ErrorCode, Fault, done, failed, illegal_function, illegal_data_address, gateway_path_unavailable,
}
use mothbus.Error
use mothbus.Pdu.FunctionCode.{FunctionCode}
use mothbus.Pdu.Request.{PduReq, request, not_implemented, read_holding}
use mothbus.Pdu.ReqReadingRegister.{ReadHoldingPduReq}
use mothbus.Pdu.Response
use mothbus.Pdu.RespReadingRegister
use mothbus.Adu.Layer.{Call, Layer, returned, threw, undefined}
use mothbus.Adu.Tcp.{Stream, fresh_stream, write_response}
use mothbus.Adu.Tcp.Server.{
  State, called_back, Callback, RequestReadOp, Completion, async_read_request, complete,
}
use mothbus.Examples.Loop.{fresh}

-- `connection`. While a request is being read, the operation's source is the message buffer of the stream.
-- A connection is closed when it asks for no further request: nothing holds it then.
pub data Connection (N : Type 0) : Type 0 where
  reading : Stream N → State → Connection N
  closed : Stream N → PduReq → Connection N

-- How the completion of a read ends. `no_overload` stands for a request for whose class `req_handler` has no
-- overload: `std::visit` is ill-formed then.
pub data Progress (N : Type 0) : Type 0 where
  next : Connection N → Progress N
  no_overload : Progress N
  terminates : ErrorCode → Progress N
  fault : Fault → Progress N

module _ {N : Type 0} (layer : Layer N) where
  -- `req_handler`: the overload for `not_implemented`.
  unfoldable pub handle_not_implemented : ℕ → ℕ → Stream N → Call (Stream N) (Unit {0})
  unfolding write_response
  handle_not_implemented transaction_id slave st =
      write_response layer Response.writable transaction_id slave
        (record { fc = FunctionCode.read_holding_registers; exception_code = illegal_function }) st

  -- `req_handler`: the overload for reading registers, less the lines that it prints. The number of registers
  -- is not looked at.
  unfoldable pub handle_read_holding :
      ReadHoldingPduReq → ℕ → ℕ → Stream N → Call (Stream N) (Unit {0})
  unfolding write_response
  handle_read_holding req transaction_id slave st =
      if not (slave == 255)
      then write_response layer Response.writable transaction_id slave
          (record {
            fc = FunctionCode.read_holding_registers;
            exception_code = gateway_path_unavailable;
          })
          st
      else if req.starting_address == 100
      then write_response layer RespReadingRegister.writable transaction_id slave
          (RespReadingRegister.resp (replicate (req.quantity_of_registers * 2) 0)) st
      else write_response layer Response.writable transaction_id slave
          (record {
            fc = FunctionCode.read_holding_registers;
            exception_code = illegal_data_address;
          })
          st

  -- `std::visit(handler, req)`
  unfoldable pub visit : PduReq → ℕ → ℕ → Stream N → Option (Call (Stream N) (Unit {0}))
  unfolding handle_not_implemented handle_read_holding
  visit (not_implemented fc) transaction_id slave st =
      some (handle_not_implemented transaction_id slave st)
  visit (request (read_holding req)) transaction_id slave st =
      some (handle_read_holding req transaction_id slave st)
  visit (request q) transaction_id slave st = none

  -- `connection::async_read`
  unfoldable pub async_read : Stream N → PduReq → Connection N
  async_read st req = reading st (async_read_request st.message_buffer req)

  -- `connection::handle`
  unfoldable pub handle : PduReq → ℕ → ℕ → Stream N → Progress N
  unfolding visit async_read
  handle req transaction_id slave st = elim (visit req transaction_id slave st) [
    | none ↦ no_overload
    | some call ↦ elim call [
      | returned _ st' ↦ next (async_read st' req)
      | threw ec st' ↦ terminates ec
      | undefined e ↦ fault e
    ]
  ]

  -- The callback that `async_read` gives.
  unfoldable pub on_request : Callback → PduReq → Stream N → Progress N
  unfolding handle
  on_request call req st =
      if failed call.ec then next (closed st req) else handle req call.transaction_id call.slave st

  -- The read that a connection waits for completes.
  unfoldable pub on_completion : Completion → Connection N → Progress N
  unfolding complete on_request
  on_completion c (closed st req) = next (closed st req)
  on_completion c (reading st s) = elim (complete c s) [
    | done (called_back call op) ↦
        on_request call op.request (record st { message_buffer = op.source.message_buffer })
    | done s' ↦ next (reading st s')
    | Error.fault e ↦ fault e
  ]

-- `server`: whether `_acceptor` waits for a connection, and the connections, the latest one first.
pub record Server (N : Type 0) : Type 0 where
  pub accepting : Bool
  pub connections : List (Connection N)

-- `server::accept`
abbrev pub accept : {N : Type 0} → List (Connection N) → Server N
accept connections = record { accepting = true; connections = connections }

-- The callback that `accept` gives, with the error code and the socket.
unfoldable pub on_accept : {N : Type 0} → Layer N → ErrorCode → N → Server N → Server N
unfolding async_read
on_accept layer ec n s =
    if failed ec
    then record s { accepting = false }
    else accept (async_read layer (fresh_stream n) fresh ∷ s.connections)
