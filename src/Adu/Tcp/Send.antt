-- ===== src/Adu/Tcp/Send.antt =====
-- What a stream hands to the layer below when it writes.
use mothbus.Error.{ErrorCode, out_of_bounds}
use mothbus.Base.{ℕ, ◌+◌, ◌≤◌, ◌<◌, ◌≡◌, List, ◌++◌, length}
use mothbus.Base.{to_u16, drop, arith}
use mothbus.Pdu.Codec.{Writable}
use mothbus.Pdu.Writer.Laws.{Writes}
use mothbus.Adu.Buffer.{Buffer, sink}
use mothbus.Adu.Buffer.Fill.{data-frame}
use mothbus.Adu.Layer.{Layer, returned, threw, undefined}
use mothbus.Adu.Tcp.{Stream, write_request, write_response}
use mothbus.Adu.Tcp.Frame.{adu, frame-adu, frame-outside}

module _ {N : Type 0} (layer : Layer N) {T : Type 0} (w : Writable T) (t : T) (pdu : List ℕ)
    (st : Stream N) (writes : Writes sink (w.write Buffer sink t) pdu)
    (fits : length pdu + 7 ≤ length st.message_buffer)
    (small : length st.message_buffer ≤ 320) where
  -- The message buffer behind a frame of this PDU.
  abbrev pub framed : ℕ → ℕ → List ℕ
  framed transaction_id slave =
      adu transaction_id st.protocol slave pdu ++ drop (length pdu + 7) st.message_buffer

  -- A request whose PDU fits the message buffer goes out as one frame with the stream's transaction id;
  -- that id is returned, and the next one is one more, modulo 2 ^ 16.
  pub write_request-sends :
      (slave : ℕ) (n : N)
      → layer.write (adu st.transaction_id st.protocol slave pdu) st.next_layer ≡ returned tt n
      → write_request layer w slave t st
        ≡ returned st.transaction_id (record st {
          message_buffer = framed st.transaction_id slave;
          next_layer = n;
          transaction_id = to_u16 (st.transaction_id + 1);
        })
  unfolding write_request
  write_request-sends slave n sent = rw (
    frame-adu w st.transaction_id st.protocol slave t pdu st.message_buffer writes fits small,
    write_request,
    data-frame (adu st.transaction_id st.protocol slave pdu)
        (drop (length pdu + 7) st.message_buffer) (length pdu + 7)
        (length pdu + 7 + (length pdu + 7)) (omega arith),
    sent,
  )

  -- A response whose PDU fits the message buffer goes out as one frame with the transaction id that it
  -- answers; the stream's own transaction id stays.
  pub write_response-sends :
      (transaction_id slave : ℕ) (n : N)
      → layer.write (adu transaction_id st.protocol slave pdu) st.next_layer ≡ returned tt n
      → write_response layer w transaction_id slave t st
        ≡ returned tt (record st { message_buffer = framed transaction_id slave; next_layer = n })
  unfolding write_response
  write_response-sends transaction_id slave n sent = rw (
    frame-adu w transaction_id st.protocol slave t pdu st.message_buffer writes fits small,
    write_response,
    data-frame (adu transaction_id st.protocol slave pdu) (drop (length pdu + 7) st.message_buffer)
        (length pdu + 7) (length pdu + 7 + (length pdu + 7)) (omega arith),
    sent,
  )

  -- It goes out so also where the layer's write fails: its error code is dropped.
  pub write_response-drops :
      (transaction_id slave : ℕ) (ec : ErrorCode) (n : N)
      → layer.write (adu transaction_id st.protocol slave pdu) st.next_layer ≡ threw ec n
      → write_response layer w transaction_id slave t st
        ≡ returned tt (record st { message_buffer = framed transaction_id slave; next_layer = n })
  unfolding write_response
  write_response-drops transaction_id slave ec n failed = rw (
    frame-adu w transaction_id st.protocol slave t pdu st.message_buffer writes fits small,
    write_response,
    data-frame (adu transaction_id st.protocol slave pdu) (drop (length pdu + 7) st.message_buffer)
        (length pdu + 7) (length pdu + 7 + (length pdu + 7)) (omega arith),
    failed,
  )

-- A response for whose frame the message buffer has no room is written behind its end.
pub write_response-outside :
    {N : Type 0} (layer : Layer N) {T : Type 0} (w : Writable T) (t : T) (pdu : List ℕ)
    (st : Stream N)
    → Writes sink (w.write Buffer sink t) pdu
    → length st.message_buffer < length pdu + 7
    → (transaction_id slave : ℕ)
    → write_response layer w transaction_id slave t st ≡ undefined out_of_bounds
unfolding write_response
write_response-outside layer w t pdu st writes large transaction_id slave = rw (
  frame-outside w transaction_id st.protocol slave t pdu st.message_buffer writes large,
  write_response,
)
