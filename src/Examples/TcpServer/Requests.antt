-- ===== src/Examples/TcpServer/Requests.antt =====
-- One request of a connection, from the bytes that come in to the frame that goes out.
use mothbus.Base.{
  ℕ, ◌+◌, ◌-◌, ◌≤◌, ◌<◌, ◌≡◌, ◌≢◌, refl, ap, ◌∙◌, inl, inr, true, List, ◌++◌, length, length-append,
  length-drop, drop, All, IsByte, arith,
}
use mothbus.Error.{out_of_bounds, failed, make_error_code}
use mothbus.Pdu.Request.{Request, PduReq, request, read_holding}
use mothbus.Pdu.Request.Wire.{encode, IsValid}
use mothbus.Pdu.ReqReadingRegister.{ReadHoldingPduReq}
use mothbus.Adu.Buffer.{commit}
use mothbus.Adu.Buffer.Queue.{skips-eq}
use mothbus.Adu.Layer.{Layer}
use mothbus.Adu.Tcp.{MbapHeader, Stream, is_valid_length}
use mothbus.Adu.Tcp.Frame.{adu}
use mothbus.Adu.Tcp.Receive.{mbap, FitsHeader}
use mothbus.Adu.Tcp.Server.{reading_body, filled}
use mothbus.Adu.Tcp.Server.Header.{length_bounds}
use mothbus.Adu.Tcp.Server.Reply.{op_after, body_source, header-filled, request-filled, body-filled}
use mothbus.Examples.TcpServer.{
  Connection, reading, closed, next, fault, async_read, visit, handle, on_request, on_completion,
}
use mothbus.Examples.TcpServer.Handler.{reply, answered, Written, handle-replies, handle-outside}

module _ {N : Type 0} (layer : Layer N) (st : Stream N) (old : PduReq)
    (room : 260 ≤ length st.message_buffer) (h : MbapHeader) (fits : FitsHeader h)
    (valid : is_valid_length h ≡ true) where
  -- A connection that waits for the body behind this header.
  abbrev pub waiting : Connection N
  waiting = reading st (reading_body (op_after st.message_buffer old h))

  pub header_came : on_completion layer (filled (mbap h)) (async_read layer st old) ≡ next waiting
  unfolding on_completion async_read
  header_came = rw (header-filled st.message_buffer old room h fits valid, on_completion)

  module _ (body : List ℕ) (full : length body ≡ h.length - 1) (bytes : All IsByte body) where
    -- The stream when the body has been read.
    abbrev pub filled_stream : Stream N
    filled_stream = record st {
      message_buffer = mbap h ++ (body ++ drop (h.length - 1) (drop 7 st.message_buffer));
    }

    pub request_came :
        (q : Request) (rest : List ℕ)
        → IsValid q
        → body ≡ encode q ++ rest
        → on_completion layer (filled body) waiting
          ≡ handle layer (request q) h.transaction_id h.unit_id filled_stream
    unfolding on_completion on_request commit
    request_came q rest is_valid split = rw (
      request-filled st.message_buffer old room h fits valid body full bytes q rest is_valid split,
      on_completion,
      skips-eq (length (encode q)) (
          commit (length body)
            (body_source st.message_buffer old room h fits valid body full bytes)),
    )

    pub memory_length : length filled_stream.message_buffer ≡ length st.message_buffer
    memory_length = omega (
      arith,
      length-append body (drop (h.length - 1) (drop 7 st.message_buffer)),
      length-drop (h.length - 1) (drop 7 st.message_buffer),
      length-drop 7 st.message_buffer,
      length_bounds h valid,
    )

    answered_by :
        (req : ReadHoldingPduReq) (rest : List ℕ) (n : N)
        → IsValid (read_holding req)
        → body ≡ encode (read_holding req) ++ rest
        → length st.message_buffer ≤ 320
        → length (reply h.unit_id req) + 7 ≤ length st.message_buffer
        → Written layer h.transaction_id h.unit_id st
            (adu h.transaction_id st.protocol h.unit_id (reply h.unit_id req))
            n
        → on_completion layer (filled body) waiting
          ≡ next (
              async_read layer
                (answered layer h.transaction_id h.unit_id filled_stream (reply h.unit_id req) n)
                (request (read_holding req)))
    unfolding handle visit
    answered_by req rest n is_valid split small enough written =
        request_came (read_holding req) rest is_valid split
        ∙ rw (
          handle-replies layer h.transaction_id h.unit_id filled_stream req n
              (omega (arith, memory_length)) (omega (arith, memory_length)) written,
          handle,
        )

    -- With a message buffer of 260 to 320 bytes: when a header with a valid length comes in and then as
    -- many bytes as it announces, which begin with a valid request for holding registers, the
    -- connection sends the reply in one frame, where the message buffer has room for it, and waits for
    -- the next header, also where the sending fails. The reply is gateway_path_unavailable for a slave
    -- other than 255, else zeros for the address 100, with their number of bytes modulo 256, and else
    -- illegal_data_address.
    pub served :
        (req : ReadHoldingPduReq) (rest : List ℕ) (n : N)
        → IsValid (read_holding req)
        → body ≡ encode (read_holding req) ++ rest
        → length st.message_buffer ≤ 320
        → length (reply h.unit_id req) + 7 ≤ length st.message_buffer
        → Written layer h.transaction_id h.unit_id st
            (adu h.transaction_id st.protocol h.unit_id (reply h.unit_id req))
            n
        → (on_completion layer (filled (mbap h)) (async_read layer st old) ≡ next waiting)
          × (on_completion layer (filled body) waiting
              ≡ next (
                  async_read layer
                    (answered layer h.transaction_id h.unit_id filled_stream
                      (reply h.unit_id req)
                      n)
                    (request (read_holding req))))
    served req rest n is_valid split small enough written =
        (header_came, answered_by req rest n is_valid split small enough written)

    -- With a message buffer of 260 bytes at least: when the body behind a header with a valid length
    -- begins with a valid request for holding registers whose reply, with its header, is larger than
    -- the message buffer, the connection writes it behind the end of the message buffer.
    pub overflows :
        (req : ReadHoldingPduReq) (rest : List ℕ)
        → IsValid (read_holding req)
        → body ≡ encode (read_holding req) ++ rest
        → length st.message_buffer < length (reply h.unit_id req) + 7
        → on_completion layer (filled body) waiting ≡ fault out_of_bounds
    unfolding handle visit
    overflows req rest is_valid split large =
        request_came (read_holding req) rest is_valid split
        ∙ rw (
          handle-outside layer h.transaction_id h.unit_id filled_stream req
              (omega (arith, memory_length)),
          handle,
        )

    -- With a message buffer of 260 bytes at least: when the body behind a header with a valid length
    -- begins with no valid request, one with an unknown function code for instance, the connection is
    -- closed and nothing is sent.
    pub refused :
        ((q : Request) (rest : List ℕ) → IsValid q → body ≢ encode q ++ rest)
        → (st' : Stream N) × (req : PduReq) × (on_completion layer (filled body) waiting
            ≡ next (closed st' req))
          × (st'.next_layer ≡ st.next_layer)
    unfolding on_completion on_request make_error_code
    refused none =
        let (ec, op, called, verdict) =
          body-filled st.message_buffer old room h fits valid body full bytes in
        let bad : failed ec ≡ true = elim verdict [
          | inl (q, (rest, is_valid, split), _, _) ↦ absurd (none q rest is_valid split)
          | inr (inl (_, e, _)) ↦ ap failed e
          | inr (inr (_, _, e)) ↦ ap failed e
        ] in
        (
          record st { message_buffer = op.source.message_buffer },
          op.request,
          rw (called, on_completion, bad),
          refl,
        )
