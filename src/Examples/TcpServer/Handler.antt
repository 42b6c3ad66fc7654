-- ===== src/Examples/TcpServer/Handler.antt =====
-- The frames that the server sends, and those for which there is no room.
use mothbus.Base.{
  ℕ, ◌+◌, ◌*◌, ◌≤◌, ◌<◌, ◌≡◌, ◌∙◌, ◌⊎◌, refl, ◌==◌, Bool-cases, not, if◌then◌else◌, inl, inr, List,
  ◌∷◌, ◌++◌, length, length-replicate, drop, replicate, to_u8, arith,
}
use mothbus.Error.{ErrorCode, to_int, illegal_data_address, gateway_path_unavailable, out_of_bounds}
use mothbus.Pdu.Codec.{Writable}
use mothbus.Pdu.FunctionCode.{FunctionCode, to_byte, write_function_code}
use mothbus.Pdu.ReqReadingRegister.{ReadHoldingPduReq}
use mothbus.Pdu.Response
use mothbus.Pdu.Response.Laws.{write_exception-Writes}
use mothbus.Pdu.RespReadingRegister
use mothbus.Pdu.SpanResponse
use mothbus.Pdu.Writer.Laws.{Writes, byte-Writes, write_bytes-Writes}
use mothbus.Adu.Buffer.{Buffer, sink}
use mothbus.Adu.Layer.{Call, Layer, returned, threw, undefined}
use mothbus.Adu.Tcp.{Stream, write_response}
use mothbus.Adu.Tcp.Frame.{adu}
use mothbus.Adu.Tcp.Send.{write_response-sends, write_response-drops, write_response-outside}
use mothbus.Examples.Loop.Reply.{exception_pdu}
use mothbus.Examples.TcpServer.{handle_read_holding}

-- The count is one byte, so it is not that of the bytes behind it for more than 127 registers.
abbrev pub zeros_pdu : ℕ → List ℕ
zeros_pdu quantity = 0x03 ∷ to_u8 (quantity * 2) ∷ replicate (quantity * 2) 0

-- The PDU with which the server answers a request for registers.
abbrev pub reply : ℕ → ReadHoldingPduReq → List ℕ
reply slave req =
    if not (slave == 255)
    then exception_pdu FunctionCode.read_holding_registers gateway_path_unavailable
    else if req.starting_address == 100
    then zeros_pdu req.quantity_of_registers
    else exception_pdu FunctionCode.read_holding_registers illegal_data_address

zeros-Writes :
    (quantity : ℕ)
    → Writes sink
        (RespReadingRegister.writable.write Buffer sink
          (RespReadingRegister.resp (replicate (quantity * 2) 0)))
        (zeros_pdu quantity)
unfolding SpanResponse.write write_function_code to_byte
zeros-Writes quantity = rw (length-replicate {A = ℕ} (quantity * 2) 0) (
    byte-Writes sink 0x03 _ _ (
      byte-Writes sink (to_u8 (quantity * 2)) _ _
        (write_bytes-Writes sink (replicate (quantity * 2) 0))))

module _ {N : Type 0} (layer : Layer N) (transaction_id slave : ℕ) (st : Stream N) where
  -- The call writes a response, and its PDU is this one.
  record Responds (call : Call (Stream N) (Unit {0})) (pdu : List ℕ) : Type 1 where
    T : Type 0
    w : Writable T
    t : T
    writes : Writes sink (w.write Buffer sink t) pdu
    calls : call ≡ write_response layer w transaction_id slave t st

  -- Which response goes out does not hang on the room that there is for it.
  handle-Responds :
      (req : ReadHoldingPduReq)
      → Responds (handle_read_holding layer req transaction_id slave st) (reply slave req)
  unfolding handle_read_holding to_byte to_int
  handle-Responds req = elim (Bool-cases (slave == 255)) [
    | inr other ↦ rw other (record {
      T = Response.PduExceptionResp;
      w = Response.writable;
      t = record {
        fc = FunctionCode.read_holding_registers;
        exception_code = gateway_path_unavailable;
      };
      writes = write_exception-Writes sink _ (omega arith) (omega arith);
      calls = refl;
    })
    | inl own ↦ elim (Bool-cases (req.starting_address == 100)) [
      | inl there ↦
          rw (own, there)
            (record {
              T = _;
              w = RespReadingRegister.writable;
              t = RespReadingRegister.resp (replicate (req.quantity_of_registers * 2) 0);
              writes = zeros-Writes req.quantity_of_registers;
              calls = refl;
            })
      | inr not_there ↦
          rw (own, not_there)
            (record {
              T = Response.PduExceptionResp;
              w = Response.writable;
              t = record {
                fc = FunctionCode.read_holding_registers;
                exception_code = illegal_data_address;
              };
              writes = write_exception-Writes sink _ (omega arith) (omega arith);
              calls = refl;
            })
    ]
  ]

  -- The stream when a PDU has been sent.
  abbrev pub answered : List ℕ → N → Stream N
  answered pdu n = record st {
    message_buffer =
        adu transaction_id st.protocol slave pdu ++ drop (length pdu + 7) st.message_buffer;
    next_layer = n;
  }

  -- The layer takes these bytes, or fails.
  abbrev pub Written : List ℕ → N → Type 0
  Written bytes n =
      (layer.write bytes st.next_layer ≡ returned tt n)
      ⊎ ((ec : ErrorCode) × (layer.write bytes st.next_layer ≡ threw ec n))

  -- A reply for which there is room goes out as one frame.
  pub handle-replies :
      (req : ReadHoldingPduReq) (n : N)
      → length st.message_buffer ≤ 320
      → length (reply slave req) + 7 ≤ length st.message_buffer
      → Written (adu transaction_id st.protocol slave (reply slave req)) n
      → handle_read_holding layer req transaction_id slave st
        ≡ returned tt (answered (reply slave req) n)
  handle-replies req n small fits written =
      let r = handle-Responds req in
      elim written [
        | inl took ↦
            r.calls
            ∙ write_response-sends layer r.w r.t (reply slave req) st r.writes fits small
                transaction_id slave n took
        | inr (ec, failed) ↦
            r.calls
            ∙ write_response-drops layer r.w r.t (reply slave req) st r.writes fits small
                transaction_id slave ec n failed
      ]

  -- A reply for which there is none is written behind the end of the message buffer.
  pub handle-outside :
      (req : ReadHoldingPduReq)
      → length st.message_buffer < length (reply slave req) + 7
      → handle_read_holding layer req transaction_id slave st ≡ undefined out_of_bounds
  handle-outside req large =
      let r = handle-Responds req in
      r.calls
      ∙ write_response-outside layer r.w r.t (reply slave req) st r.writes large transaction_id
          slave
