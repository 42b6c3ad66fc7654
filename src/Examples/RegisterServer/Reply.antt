-- ===== src/Examples/RegisterServer/Reply.antt =====
-- The frames that the sample server sends.
use mothbus.Base.{
  ℕ, ◌+◌, ◌*◌, ◌≤◌, ◌<◌, ◌≡◌, sym, leb_of_le, ltb_of_le, true, false, Bool-cases, ◌&&◌, not, leb,
  ltb, if◌then◌else◌, inl, inr, List, ◌∷◌, length, length-replicate, length-take, length-drop, take,
  drop, replicate, words, to_u8, arith,
}
use mothbus.Error.{to_int, illegal_function, illegal_data_address, illegal_data_value}
use mothbus.Pdu.FunctionCode.{FunctionCode, to_byte, write_function_code}
use mothbus.Pdu.Request.{
  PduReq, request, not_implemented, read_holding, read_coils, read_discrete_inputs, read_input,
  write_single_coil, write_single_register, write_multiple_coils, write_multiple_registers,
  read_write_multiple_registers,
}
use mathlib.Core.Path.{subst}
use mothbus.Pdu.ReqReadingRegister.{ReadHoldingPduReq}
use mothbus.Pdu.SpanResponse
use mothbus.Pdu.SpanResponse.{over}
use mothbus.Pdu.RespReadingRegister
use mothbus.Pdu.Writer.Laws.{byte-Writes, write_bytes-Writes}
use mothbus.Adu.Buffer.{sink}
use mothbus.Adu.Layer.{Layer, returned}
use mothbus.Adu.Master.ReadFunctions.{length-words}
use mothbus.Adu.Tcp.{Stream}
use mothbus.Adu.Tcp.Send.{write_response-sends}
use mothbus.Util.{Endian, memcpy_msb-words}
use mothbus.Examples.Loop.{request_code, write_exception_response}
use mothbus.Examples.Loop.Reply.{exception_pdu, replied, Sends, exception-Sends}
use mothbus.Examples.RegisterServer.{handle}

-- The PDU with the registers that are asked for.
abbrev pub registers_pdu : List ℕ → ReadHoldingPduReq → List ℕ
registers_pdu registers req =
    0x03
    ∷ (req.quantity_of_registers * 2)
    ∷ words (take req.quantity_of_registers (drop req.starting_address registers))

-- The PDU with which a server with these registers answers a request.
abbrev pub reply : List ℕ → PduReq → List ℕ
reply registers (request (read_holding req)) =
    if not (leb 1 req.quantity_of_registers && leb req.quantity_of_registers 125)
    then exception_pdu FunctionCode.read_holding_registers illegal_data_value
    else if ltb (length registers) (req.starting_address + req.quantity_of_registers)
    then exception_pdu FunctionCode.read_holding_registers illegal_data_address
    else registers_pdu registers req
reply registers req = exception_pdu (request_code req) illegal_function

pub in_range : (q : ℕ) → (leb 1 q && leb q 125) ≡ true → (1 ≤ q) × (q ≤ 125)
in_range q e = ground arith

pub inside : (a b : ℕ) → ltb a b ≡ false → b ≤ a
inside a b e = ground arith

module _ {N : Type 0} (layer : Layer N) (native : Endian) (registers : List ℕ) (st : Stream N)
    (roomy : 260 ≤ length st.message_buffer) (small : length st.message_buffer ≤ 320)
    (transaction_id unit_id : ℕ) where
  registers-Sends :
      (req : ReadHoldingPduReq) (n : N)
      → (1 ≤ req.quantity_of_registers) × (req.quantity_of_registers ≤ 125)
      → req.starting_address + req.quantity_of_registers ≤ length registers
      → Sends layer st roomy small transaction_id unit_id (registers_pdu registers req) n
      → handle layer native registers (request (read_holding req)) transaction_id unit_id st
        ≡ returned tt
            (replied layer st roomy small transaction_id unit_id (registers_pdu registers req) n)
  unfolding handle SpanResponse.write write_function_code
  registers-Sends req n count inside sent =
      let ws = take req.quantity_of_registers (drop req.starting_address registers) in
      let counted : length ws ≡ req.quantity_of_registers = omega (
        arith,
        length-take req.quantity_of_registers (drop req.starting_address registers),
        length-drop req.starting_address registers,
      ) in
      let bytes : to_u8 (length (words ws)) ≡ req.quantity_of_registers * 2 =
        omega (arith, length-words ws, counted) in
      rw
        (
          leb_of_le 1 req.quantity_of_registers count.0,
          leb_of_le req.quantity_of_registers 125 count.1,
          ltb_of_le (length registers) (req.starting_address + req.quantity_of_registers) inside,
          memcpy_msb-words native (replicate (req.quantity_of_registers * 2) 0) ws
              (omega (arith, counted, length-replicate {A = ℕ} (req.quantity_of_registers * 2) 0)),
        )
        (write_response-sends layer RespReadingRegister.writable (over (words ws))
          (registers_pdu registers req) st
          (byte-Writes sink 0x03 _ _ (
            rw bytes (
              byte-Writes sink (req.quantity_of_registers * 2) _ _
                (write_bytes-Writes sink (words ws)))))
          (omega (arith, length-words ws, counted)) small transaction_id unit_id n sent)

  -- A PDU that is the reply.
  by_pdu :
      (req : PduReq) (pdu : List ℕ) (n : N)
      → reply registers req ≡ pdu
      → (Sends layer st roomy small transaction_id unit_id pdu n
          → handle layer native registers req transaction_id unit_id st
            ≡ returned tt (replied layer st roomy small transaction_id unit_id pdu n))
      → Sends layer st roomy small transaction_id unit_id (reply registers req) n
      → handle layer native registers req transaction_id unit_id st
        ≡ returned tt (replied layer st roomy small transaction_id unit_id (reply registers req) n)
  by_pdu req pdu n e f sent =
      subst
        (λ (p : List ℕ).
          handle layer native registers req transaction_id unit_id st
          ≡ returned tt (replied layer st roomy small transaction_id unit_id p n))
        (sym e)
        (f (subst (λ (p : List ℕ). Sends layer st roomy small transaction_id unit_id p n) e sent))

  refused :
      (req : PduReq) (n : N)
      → to_byte (request_code req) < 128
      → Sends layer st roomy small transaction_id unit_id
          (exception_pdu (request_code req) illegal_function)
          n
      → write_exception_response layer (request_code req) illegal_function transaction_id unit_id st
        ≡ returned tt (
            replied layer st roomy small transaction_id unit_id
              (exception_pdu (request_code req) illegal_function)
              n)
  unfolding to_int
  refused req n h =
      exception-Sends layer st roomy small transaction_id unit_id (request_code req)
        illegal_function n h (omega arith)

  holding-replies :
      (req : ReadHoldingPduReq) (n : N)
      → Sends layer st roomy small transaction_id unit_id
          (reply registers (request (read_holding req)))
          n
      → handle layer native registers (request (read_holding req)) transaction_id unit_id st
        ≡ returned tt (
            replied layer st roomy small transaction_id unit_id
              (reply registers (request (read_holding req)))
              n)
  unfolding handle to_byte to_int
  holding-replies req n =
      elim (Bool-cases (leb 1 req.quantity_of_registers && leb req.quantity_of_registers 125)) [
        | inr many ↦
            by_pdu (request (read_holding req))
              (exception_pdu FunctionCode.read_holding_registers illegal_data_value) n (rw many)
              (λ sent. rw many (
                exception-Sends layer st roomy small transaction_id unit_id
                  FunctionCode.read_holding_registers illegal_data_value n (omega arith)
                  (omega arith) sent))
        | inl some ↦
            elim (Bool-cases
              (ltb (length registers) (req.starting_address + req.quantity_of_registers))) [
                | inl outside ↦
                    by_pdu (request (read_holding req))
                      (exception_pdu FunctionCode.read_holding_registers illegal_data_address) n
                      (rw (some, outside))
                      (λ sent.
                        rw (some, outside)
                          (exception-Sends layer st roomy small transaction_id unit_id
                            FunctionCode.read_holding_registers illegal_data_address n (omega arith)
                            (omega arith) sent))
                | inr there ↦
                    by_pdu (request (read_holding req)) (registers_pdu registers req) n
                      (rw (some, there))
                      (registers-Sends req n (in_range req.quantity_of_registers some) (
                        inside (length registers) (req.starting_address + req.quantity_of_registers)
                          there))
              ]
      ]

  -- A request with a function code below 128 is answered by its reply.
  pub handle-replies :
      (req : PduReq) (n : N)
      → to_byte (request_code req) < 128
      → Sends layer st roomy small transaction_id unit_id (reply registers req) n
      → handle layer native registers req transaction_id unit_id st
        ≡ returned tt (replied layer st roomy small transaction_id unit_id (reply registers req) n)
  unfolding handle
  handle-replies (request (read_holding req)) n h sent = holding-replies req n sent
  handle-replies (request (read_coils req)) n h sent = refused (request (read_coils req)) n h sent
  handle-replies (request (read_discrete_inputs req)) n h sent =
      refused (request (read_discrete_inputs req)) n h sent
  handle-replies (request (read_input req)) n h sent = refused (request (read_input req)) n h sent
  handle-replies (request (write_single_coil req)) n h sent =
      refused (request (write_single_coil req)) n h sent
  handle-replies (request (write_single_register req)) n h sent =
      refused (request (write_single_register req)) n h sent
  handle-replies (request (write_multiple_coils req)) n h sent =
      refused (request (write_multiple_coils req)) n h sent
  handle-replies (request (write_multiple_registers req)) n h sent =
      refused (request (write_multiple_registers req)) n h sent
  handle-replies (request (read_write_multiple_registers req)) n h sent =
      refused (request (read_write_multiple_registers req)) n h sent
  handle-replies (not_implemented fc) n h sent = refused (not_implemented fc) n h sent
