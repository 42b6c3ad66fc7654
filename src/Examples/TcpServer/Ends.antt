-- ===== src/Examples/TcpServer/Ends.antt =====
-- How the completion of a read of a connection can end, whatever comes in: the header.
pub mod Body
use mothbus.Base.{
  ℕ, ◌+◌, ◌-◌, ◌*◌, ◌≤◌, ◌<◌, ◌≡◌, ◌⊎◌, ◌==◌, refl, ap, ◌∙◌, inl, inr, true, false, Bool,
  Bool-cases, eq_of_==, leb, List, ◌++◌, length, length-append, length-drop, length-replicate, drop,
  All, IsByte, arith,
}
use mothbus.Error.{failed, done, make_error_code, out_of_bounds, ◌>>=◌}
use mathlib.Core.Path.{subst}
use mothbus.Pdu.Request.{
  Request, PduReq, request, read_holding, read_coils, read_discrete_inputs, read_input,
  write_single_coil, write_single_register, write_multiple_coils, write_multiple_registers,
  read_write_multiple_registers,
}
use mothbus.Pdu.Request.Wire.{encode, IsValid}
use mothbus.Pdu.ReqReadingRegister.{ReadHoldingPduReq}
use mothbus.Adu.Buffer.{buffer}
use mothbus.Adu.Layer.{Layer, WriteLaws}
use mothbus.Adu.Tcp.{MbapHeader, Stream, header_size, is_valid_length}
use mothbus.Adu.Tcp.Frame.{adu}
use mothbus.Adu.Tcp.Receive.{mbap, FitsHeader}
use mothbus.Adu.Tcp.Server.{
  RequestReadOp, State, reading_header, reading_body, called_back, Callback, Completion, filled,
  broken, gives_up, complete, Admissible,
}
use mothbus.Adu.Tcp.Server.Header.{header_of, length_bounds}
use mothbus.Adu.Tcp.Server.Reply.{op_with, op_after, body-filled, async_read_request-too_big}
use mothbus.Adu.Tcp.Server.Safe.{store_read-inside}
use mothbus.Examples.TcpServer.{
  Connection, reading, closed, Progress, next, no_overload, fault, async_read, visit, handle,
  on_request, on_completion,
}
use mothbus.Examples.TcpServer.Handler.{reply, zeros_pdu}
use mothbus.Examples.TcpServer.Requests.{
  waiting, header_came, request_came, served, overflows, filled_stream, memory_length,
}

-- The class for which the handler has an overload.
abbrev pub asks_registers : Request → Bool
asks_registers (read_holding req) = true
asks_registers _ = false

-- What a connection waits for, over this message buffer.
abbrev pub Pending : List ℕ → PduReq → State → Type 0
Pending message old (reading_header op) = op ≡ op_with message old (buffer message)
Pending message old (reading_body op) =
    (h : MbapHeader) × FitsHeader h × (is_valid_length h ≡ true) × (op ≡ op_after message old h)
Pending message old (called_back call op) = ⊥

-- The message buffer keeps its size, and the read that is pending is one of a request that is read into it.
abbrev pub WellFormed : {N : Type 0} → Connection N → Type 0
WellFormed (reading st s) =
    (length st.message_buffer ≡ 320) × (old : PduReq) × Pending st.message_buffer old s
WellFormed (closed st req) = Unit {0}

module _ {N : Type 0} (layer : Layer N) where
  -- How a completion of a pending read can end: the connection goes on or is closed; or the bytes are a
  -- request of a class for which the handler has no overload; or the reply leaves the message buffer,
  -- which takes a request for 156 registers at least at the address 100.
  abbrev pub Ends : Completion → Progress N → Type 0
  Ends c p =
      ((conn : Connection N) × (p ≡ next conn) × WellFormed conn)
      ⊎ ((q : Request) × (rest : List ℕ) × (c ≡ filled (encode q ++ rest))
          × (asks_registers q ≡ false)
          × (p ≡ no_overload))
      ⊎ ((req : ReadHoldingPduReq) × (rest : List ℕ) × (c
            ≡ filled (encode (read_holding req) ++ rest))
          × (req.starting_address ≡ 100)
          × (156 ≤ req.quantity_of_registers)
          × (p ≡ fault out_of_bounds))

  -- A callback with an error code closes the connection.
  pub gives_up-Ends :
      (c : Completion) (st : Stream N) (s : State) (call : Callback) (op : RequestReadOp)
      → complete c s ≡ done (called_back call op)
      → failed call.ec ≡ true
      → Ends c (on_completion layer c (reading st s))
  unfolding on_completion on_request
  gives_up-Ends c st s call op e bad = inl (
    closed (record st { message_buffer = op.source.message_buffer }) op.request,
    rw (e, on_completion, bad),
    tt,
  )

  module _ (st : Stream N) (size : length st.message_buffer ≡ 320) (old : PduReq) where
    pub room : 260 ≤ length st.message_buffer
    room = omega arith

    pub header-Ends :
        (c : Completion)
        → Admissible c header_size
        → Ends c (on_completion layer c (async_read layer st old))
    unfolding async_read complete
    header-Ends (filled bytes) (n, w) =
        let (h, fits, same) = header_of bytes n w in
        subst
          (λ (l : List ℕ).
            Ends (filled l) (on_completion layer (filled l) (async_read layer st old)))
          same
          (elim (Bool-cases (is_valid_length h)) [
            | inl valid ↦ inl (
              waiting layer st old room h fits valid,
              header_came layer st old room h fits valid,
              (size, old, (h, fits, valid, refl)),
            )
            | inr invalid ↦
                gives_up-Ends (filled (mbap h)) st _ _ _
                  (async_read_request-too_big st.message_buffer old room h fits invalid) refl
          ])
    header-Ends (broken ec bytes) (n, w, f) =
        let (op', stored) =
          store_read-inside header_size bytes
            (op_with st.message_buffer old (buffer st.message_buffer)) (omega arith) in
        gives_up-Ends (broken ec bytes) st _ _ op'
          (ap (λ o. o >>= λ op'. done (gives_up ec op')) stored) f
