-- ===== src/Examples/TcpClient/Unset.antt =====
-- What the client prints for a slave that does not answer.
use mothbus.Base.{◌++◌, ◌+◌, ◌≤◌, ◌≡◌, refl, false, IsU16, length, drop, to_u8, to_u16, arith}
use mothbus.Error.{make_error_code, success, uninitialised}
use mothbus.Pdu.FunctionCode
use mothbus.Pdu.FunctionCode.{to_byte}
use mothbus.Pdu.ReqReadingRegister
use mothbus.Pdu.ReqReadingRegister.{ReadHoldingPduReq}
use mothbus.Adu.Buffer.{Buffer, sink}
use mothbus.Adu.Layer.{Layer, returned, undefined}
use mothbus.Adu.Master.{read_registers}
use mothbus.Adu.Master.Exceptions.{read_span-lost}
use mothbus.Adu.Master.ReadFunctions.{asking}
use mothbus.Adu.Stream.{Unread}
use mothbus.Adu.Stream.Tcp.{ops}
use mothbus.Adu.Tcp.{Stream, write_request}
use mothbus.Adu.Tcp.{read_response}
use mothbus.Adu.Tcp.Frame.{adu}
use mothbus.Adu.Tcp.Send.{write_request-sends}
use mothbus.Examples.TcpClient.{Options, no_host, main}
use mothbus.Examples.TcpClient.Prints.{single_register, main-unread}

module _ {N : Type 0} (layer : Layer N) (options : Options) (st : Stream N) (n : N)
    (fits : IsU16 options.register_address)
    (given : (options.help ≡ false) × (no_host options.host ≡ false))
    (room : 12 ≤ length st.message_buffer) (small : length st.message_buffer ≤ 320) where
  abbrev request : ReadHoldingPduReq
  request = record { starting_address = options.register_address; quantity_of_registers = 1 }

  -- The stream when the request has been written.
  abbrev pub asking_all : Stream N
  asking_all = record st {
    message_buffer =
        adu st.transaction_id st.protocol 0 (asking 0x03 options.register_address 1)
        ++ drop 12 st.message_buffer;
    next_layer = n;
    transaction_id = to_u16 (st.transaction_id + 1);
  }

  unanswered :
      layer.write
          (adu st.transaction_id st.protocol 0 (asking 0x03 options.register_address 1))
          st.next_layer
        ≡ returned tt n
      → Unread
          (ops layer)
          0
          (make_error_code success)
          (write_request layer ReqReadingRegister.writable 0 request st)
          asking_all
  unfolding read_response to_byte
  unanswered sent = record {
    transaction_id = st.transaction_id;
    sent = asking_all;
    wrote =
        write_request-sends layer ReqReadingRegister.writable request
          (asking 0x03 options.register_address 1) st
          (ReqReadingRegister.write-WritesFormat.writes Buffer sink _ (fits, omega arith)) room
          small 0 n sent;
    unread = λ U c out. refl;
  }

  -- Over any layer that takes the request, with a message buffer of 12 to 320 bytes, a host given and
  -- no help asked for: for a slave that is 0 modulo 256 the run of the sample client ends in the use of
  -- a variable that was never set: it has no error, and prints an array that nothing was read into.
  pub main-unset :
      to_u8 options.slave ≡ 0
      → layer.write
          (adu st.transaction_id st.protocol 0 (asking 0x03 options.register_address 1))
          st.next_layer
        ≡ returned tt n
      → main (ops layer) options st ≡ undefined uninitialised
  unfolding read_registers make_error_code
  main-unset all sent = main-unread (ops layer) options st asking_all given.0 given.1 (
      rw all (
        read_span-lost (ops layer) 0 (make_error_code success) ReqReadingRegister.writable request
          st asking_all (unanswered sent) FunctionCode.read_holding_registers single_register refl
          (omega arith)))
