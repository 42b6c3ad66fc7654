-- ===== src/Examples/TcpServer/Ends/Body.antt =====
-- How the completion of the read of a body can end.
use mothbus.Base.{
  ℕ, ◌+◌, ◌-◌, ◌*◌, ◌≤◌, ◌<◌, ◌≡◌, ◌==◌, refl, ap, ◌∙◌, inl, inr, true, false, Bool-cases, eq_of_==,
  leb, List, ◌++◌, length, length-append, length-drop, length-replicate, drop, All, IsByte, arith,
}
use mothbus.Error.{failed, done, make_error_code, ◌>>=◌}
use mothbus.Pdu.Request.{
  Request, PduReq, request, read_holding, read_coils, read_discrete_inputs, read_input,
  write_single_coil, write_single_register, write_multiple_coils, write_multiple_registers,
  read_write_multiple_registers,
}
use mothbus.Pdu.Request.Wire.{encode, IsValid}
use mothbus.Pdu.ReqReadingRegister.{ReadHoldingPduReq}
use mothbus.Adu.Layer.{Layer, WriteLaws}
use mothbus.Adu.Tcp.{MbapHeader, Stream, is_valid_length}
use mothbus.Adu.Tcp.Frame.{adu}
use mothbus.Adu.Tcp.Receive.{FitsHeader}
use mothbus.Adu.Tcp.Server.{Completion, filled, broken, gives_up, complete, Admissible}
use mothbus.Adu.Tcp.Server.Header.{length_bounds}
use mothbus.Adu.Tcp.Server.Reply.{op_after, body-filled}
use mothbus.Adu.Tcp.Server.Safe.{store_read-inside}
use mothbus.Examples.TcpServer.{no_overload, async_read, visit, handle, on_completion}
use mothbus.Examples.TcpServer.Handler.{reply, zeros_pdu}
use mothbus.Examples.TcpServer.Requests.{
  waiting, request_came, served, overflows, filled_stream, memory_length,
}
use mothbus.Examples.TcpServer.Ends.{asks_registers, Ends, gives_up-Ends, room}

le_of_leb : (a b : ℕ) → leb a b ≡ true → a ≤ b
le_of_leb a b e = ground arith

lt_of_leb : (a b : ℕ) → leb a b ≡ false → b < a
lt_of_leb a b e = ground arith

module _ {N : Type 0} (layer : Layer N) (writes : WriteLaws layer) (st : Stream N)
    (size : length st.message_buffer ≡ 320) (old : PduReq) (h : MbapHeader) (fits : FitsHeader h)
    (valid : is_valid_length h ≡ true) where
  -- A reply that is too large for the message buffer.
  large :
      (slave : ℕ) (req : ReadHoldingPduReq)
      → 314 ≤ length (reply slave req)
      → (req.starting_address ≡ 100) × (156 ≤ req.quantity_of_registers)
  large slave req many = elim (Bool-cases (slave == 255)) [
    | inr other ↦
        let short : length (reply slave req) ≡ 2 = rw other in absurd (omega (arith, many, short))
    | inl own ↦ elim (Bool-cases (req.starting_address == 100)) [
      | inr not_there ↦
          let short : length (reply slave req) ≡ 2 = rw (own, not_there) in
          absurd (omega (arith, many, short))
      | inl there ↦
          let zeros : length (reply slave req) ≡ length (zeros_pdu req.quantity_of_registers) =
            rw (own, there) in
          (
            eq_of_== req.starting_address 100 there,
            omega (arith, many, zeros, length-replicate {A = ℕ} (req.quantity_of_registers * 2) 0),
          )
    ]
  ]

  module _ (body : List ℕ) (full : length body ≡ h.length - 1) (bytes : All IsByte body) where
    abbrev Finishes : Type 0
    Finishes = Ends layer (filled body) (
        on_completion layer (filled body)
          (waiting layer st old (room layer st size old) h fits valid))

    registers-Ends :
        (req : ReadHoldingPduReq) (rest : List ℕ)
        → IsValid (read_holding req)
        → body ≡ encode (read_holding req) ++ rest
        → Finishes
    unfolding async_read
    registers-Ends req rest is_valid split =
        let pdu : List ℕ = reply h.unit_id req in
        elim (Bool-cases (leb (length pdu + 7) (length st.message_buffer))) [
          | inl enough ↦
              let fit : length pdu + 7 ≤ length st.message_buffer = le_of_leb _ _ enough in
              let (n, written) =
                writes.write_ends (adu h.transaction_id st.protocol h.unit_id pdu) st.next_layer in
              let (_, goes_on) =
                served layer st old (room layer st size old) h fits valid body full bytes req rest n
                  is_valid split (omega arith) fit written in
              let memory =
                filled_stream layer st old (room layer st size old) h fits valid body full bytes in
              inl (
                _,
                goes_on,
                (
                  omega (
                    arith,
                    size,
                    fit,
                    memory_length layer st old (room layer st size old) h fits valid body full
                        bytes,
                    length-append (adu h.transaction_id st.protocol h.unit_id pdu)
                        (drop (length pdu + 7) memory.message_buffer),
                    length-drop (length pdu + 7) memory.message_buffer,
                  ),
                  request (read_holding req),
                  refl,
                ),
              )
          | inr tight ↦
              let over : length st.message_buffer < length pdu + 7 = lt_of_leb _ _ tight in
              let (there, many) = large h.unit_id req (omega (arith, over, size)) in
              inr (
                inr (
                  req,
                  rest,
                  ap filled split,
                  there,
                  many,
                  overflows layer st old (room layer st size old) h fits valid body full bytes req
                      rest is_valid split over,
                ))
        ]

    other-Ends :
        (q : Request) (rest : List ℕ)
        → IsValid q
        → body ≡ encode q ++ rest
        → asks_registers q ≡ false
        → handle layer
            (request q)
            h.transaction_id
            h.unit_id
            (filled_stream layer st old (room layer st size old) h fits valid body full bytes)
          ≡ no_overload
        → Finishes
    other-Ends q rest is_valid split other unhandled = inr (
        inl (
          q,
          rest,
          ap filled split,
          other,
          request_came layer st old (room layer st size old) h fits valid body full bytes q rest
                is_valid split
              ∙ unhandled,
        ))

    request-Ends : (q : Request) (rest : List ℕ) → IsValid q → body ≡ encode q ++ rest → Finishes
    unfolding handle visit
    request-Ends (read_holding v) rest k e = registers-Ends v rest k e
    request-Ends (read_coils v) rest k e = other-Ends (read_coils v) rest k e refl refl
    request-Ends (read_discrete_inputs v) rest k e =
        other-Ends (read_discrete_inputs v) rest k e refl refl
    request-Ends (read_input v) rest k e = other-Ends (read_input v) rest k e refl refl
    request-Ends (write_single_coil v) rest k e =
        other-Ends (write_single_coil v) rest k e refl refl
    request-Ends (write_single_register v) rest k e =
        other-Ends (write_single_register v) rest k e refl refl
    request-Ends (write_multiple_coils v) rest k e =
        other-Ends (write_multiple_coils v) rest k e refl refl
    request-Ends (write_multiple_registers v) rest k e =
        other-Ends (write_multiple_registers v) rest k e refl refl
    request-Ends (read_write_multiple_registers v) rest k e =
        other-Ends (read_write_multiple_registers v) rest k e refl refl

    filled-Ends : Finishes
    unfolding make_error_code
    filled-Ends =
        let (ec, op, called, verdict) =
          body-filled st.message_buffer old (room layer st size old) h fits valid body full bytes in
        elim verdict [
          | inl (q, (rest, is_valid, split), _, _) ↦ request-Ends q rest is_valid split
          | inr (inl (_, e, _)) ↦ gives_up-Ends layer (filled body) st _ _ op called (ap failed e)
          | inr (inr (_, _, e)) ↦ gives_up-Ends layer (filled body) st _ _ op called (ap failed e)
        ]

  pub body-Ends :
      (c : Completion)
      → Admissible c (h.length - 1)
      → Ends layer c
          (on_completion layer c (waiting layer st old (room layer st size old) h fits valid))
  unfolding complete
  body-Ends (filled body) (n, w) = filled-Ends body n w
  body-Ends (broken ec bytes) (n, w, f) =
      let (op', stored) =
        store_read-inside (h.length - 1) bytes (op_after st.message_buffer old h)
          (omega (arith, length-drop 7 st.message_buffer, length_bounds h valid)) in
      gives_up-Ends layer (broken ec bytes) st _ _ op'
        (ap (λ o. o >>= λ op'. done (gives_up ec op')) stored) f
