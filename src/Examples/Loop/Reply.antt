-- ===== src/Examples/Loop/Reply.antt =====
-- The frames that the sample servers send.
use mothbus.Base.{ℕ, ◌+◌, ◌≤◌, ◌<◌, ◌≡◌, List, [], ◌∷◌, ◌++◌, length, drop, arith}
use mothbus.Error.{ModbusExceptionCode, to_int}
use mothbus.Pdu.FunctionCode.{FunctionCode, to_byte}
use mothbus.Pdu.Response
use mothbus.Pdu.Response.Laws.{write_exception-Writes}
use mothbus.Adu.Buffer.{sink}
use mothbus.Adu.Layer.{Layer, returned}
use mothbus.Adu.Tcp.{Stream}
use mothbus.Adu.Tcp.Frame.{adu}
use mothbus.Adu.Tcp.Send.{write_response-sends}
use mothbus.Examples.Loop.{write_exception_response}

abbrev pub exception_pdu : FunctionCode → ModbusExceptionCode → List ℕ
exception_pdu fc ec = (to_byte fc + 128) ∷ to_int ec ∷ []

module _ {N : Type 0} (layer : Layer N) (st : Stream N) (roomy : 260 ≤ length st.message_buffer)
    (small : length st.message_buffer ≤ 320) (transaction_id unit_id : ℕ) where
  -- The stream when a PDU has been sent.
  abbrev pub replied : List ℕ → N → Stream N
  replied pdu n = record st {
    message_buffer =
        adu transaction_id st.protocol unit_id pdu ++ drop (length pdu + 7) st.message_buffer;
    next_layer = n;
  }

  abbrev pub Sends : List ℕ → N → Type 0
  Sends pdu n =
      layer.write (adu transaction_id st.protocol unit_id pdu) st.next_layer ≡ returned tt n

  pub exception-Sends :
      (fc : FunctionCode) (ec : ModbusExceptionCode) (n : N)
      → to_byte fc < 128
      → to_int ec < 256
      → Sends (exception_pdu fc ec) n
      → write_exception_response layer fc ec transaction_id unit_id st
        ≡ returned tt (replied (exception_pdu fc ec) n)
  unfolding write_exception_response
  exception-Sends fc ec n h k sent =
      write_response-sends layer Response.writable (record { fc = fc; exception_code = ec })
        (exception_pdu fc ec) st
        (write_exception-Writes sink (record { fc = fc; exception_code = ec }) h k) (omega arith)
        small transaction_id unit_id n sent
