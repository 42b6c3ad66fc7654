-- ===== src/Examples/RegisterServer.antt =====
-- examples/tcpserver_coroutine_with_data.cpp: a server with holding registers.
pub mod Reply
pub mod Turn
pub mod Client
pub mod Serves
pub mod Updates
use mothbus.Base.{
  ℕ, ◌+◌, ◌*◌, Bool, ◌&&◌, not, leb, ltb, if◌then◌else◌, List, length, take, drop, replicate,
}
use mothbus.Error.{illegal_function, illegal_data_address, illegal_data_value, done}
use mothbus.Error
use mothbus.Pdu.FunctionCode.{FunctionCode}
use mothbus.Pdu.Request.{PduReq, request, read_holding}
use mothbus.Pdu.RespReadingRegister
use mothbus.Adu.Layer.{Call, Layer, undefined}
use mothbus.Adu.Tcp.{Stream, fresh_stream, write_response}
use mothbus.Util.{Endian, memcpy_msb}
use mothbus.Examples.Loop
use mothbus.Examples.Loop.{request_code, write_exception_response}

module _ {N : Type 0} (layer : Layer N) (native : Endian) (holding_registers : List ℕ) where
  -- `reqest_handler`: one overload of its operator () for reading registers, and one for all else.
  unfoldable pub handle : PduReq → ℕ → ℕ → Stream N → Call (Stream N) (Unit {0})
  unfolding write_exception_response memcpy_msb write_response
  handle (request (read_holding req)) transaction_id unit_id st =
      if not (leb 1 req.quantity_of_registers && leb req.quantity_of_registers 125)
      then write_exception_response layer FunctionCode.read_holding_registers illegal_data_value
          transaction_id unit_id st
      else if ltb (length holding_registers) (req.starting_address + req.quantity_of_registers)
      then write_exception_response layer FunctionCode.read_holding_registers illegal_data_address
          transaction_id unit_id st
      else elim (memcpy_msb native (replicate (req.quantity_of_registers * 2) 0)
          (take req.quantity_of_registers (drop req.starting_address holding_registers))) [
            | done regs ↦
                write_response layer RespReadingRegister.writable transaction_id unit_id
                  (RespReadingRegister.resp regs) st
            | Error.fault e ↦ undefined e
          ]
  handle req transaction_id unit_id st =
      write_exception_response layer (request_code req) illegal_function transaction_id unit_id st

  -- One turn of `handle_message`.
  unfoldable pub turn : List ℕ → Stream N → Call (Stream N) Bool
  unfolding Loop.turn handle
  turn message st = Loop.turn layer handle message st

  -- `handle_message` on a new connection, with a bound on the number of turns.
  unfoldable pub handle_message : ℕ → N → Call (Stream N) (Unit {0})
  unfolding Loop.turns handle
  handle_message n socket = Loop.turns layer handle (replicate 320 0) n (fresh_stream socket)
