-- ===== src/Examples/Loop/Turn.antt =====
-- One turn of the loop, from the bytes that come in to the handler.
use mothbus.Base.{
  ℕ, ◌+◌, ◌-◌, ◌≤◌, ◌<◌, ◌≡◌, ◌≢◌, refl, inl, inr, true, false, leb_of_le, leb_of_lt, List, [],
  ◌++◌, length, length-append, length-drop, drop, All, IsByte, arith,
}
use mothbus.Error.{out_of_bounds}
use mothbus.Pdu.FunctionCode.{to_byte}
use mothbus.Pdu.Request.{
  PduReq, Request, request, read_coils, read_discrete_inputs, read_holding, read_input,
  write_single_coil, write_single_register, write_multiple_coils, write_multiple_registers,
  read_write_multiple_registers,
}
use mothbus.Pdu.Request.Decode.{read-encode}
use mothbus.Pdu.Request.Total.{read_cases}
use mathlib.Core.Path.{subst}
use mothbus.Pdu.Request.Wire.{encode, code, IsValid}
use mothbus.Adu.Buffer.{Buffer, buffer, commit, prepare, store}
use mothbus.Adu.Buffer.Fill.{after, store-after}
use mothbus.Adu.Buffer.Queue.{Holds, reader_laws}
use mothbus.Adu.Layer.{Call, Layer, returned, undefined}
use mothbus.Adu.Tcp.{MbapHeader, Stream, header_size, is_valid_length, parse_body}
use mothbus.Adu.Tcp.Receive.{mbap, FitsHeader}
use mothbus.Adu.Tcp.Server.Header.{length_bounds}
use mothbus.Adu.Tcp.Server.Reply.{parsed, body_source, body_held}
use mothbus.Examples.Loop.{fresh, await_read, turn}

pub code_small : (q : Request) → to_byte (code q) < 128
unfolding to_byte
code_small (read_coils v) = omega arith
code_small (read_discrete_inputs v) = omega arith
code_small (read_holding v) = omega arith
code_small (read_input v) = omega arith
code_small (write_single_coil v) = omega arith
code_small (write_single_register v) = omega arith
code_small (write_multiple_coils v) = omega arith
code_small (write_multiple_registers v) = omega arith
code_small (read_write_multiple_registers v) = omega arith

module _ {N : Type 0} (layer : Layer N)
    (handler : PduReq → ℕ → ℕ → Stream N → Call (Stream N) (Unit {0})) (message : List ℕ)
    (room : 260 ≤ length message) (st : Stream N) (h : MbapHeader) (fits : FitsHeader h) (n : N)
    (headed : layer.read header_size st.next_layer ≡ returned (mbap h) n) where
  abbrev stored : Buffer
  stored = record (buffer message) { message_buffer = mbap h ++ drop 7 message }

  header_read : await_read layer header_size (buffer message) st.next_layer ≡ returned (7, stored) n
  unfolding await_read
  header_read = rw (headed, await_read, store-after [] (mbap h) message 0 7 refl (omega arith))

  -- The region for the body ends behind the message buffer.
  body_outside :
      (bytes : List ℕ) (n' : N)
      → length message < h.length + 6
      → layer.read (h.length - 1) n ≡ returned bytes n'
      → await_read layer (h.length - 1) (after (mbap h) (drop 7 message) 7 7) n
        ≡ undefined out_of_bounds
  unfolding await_read store prepare
  body_outside bytes n' large got = rw (
    got,
    await_read,
    leb_of_lt (7 + (h.length - 1)) (length (mbap h ++ drop 7 message))
        (omega (arith, length-append (mbap h) (drop 7 message), length-drop 7 message)),
  )

  -- A body for which there is no room is stored behind the end of the message buffer.
  pub turn-overflows :
      (bytes : List ℕ) (n' : N)
      → length message < h.length + 6
      → layer.read (h.length - 1) n ≡ returned bytes n'
      → turn layer handler message st ≡ undefined out_of_bounds
  unfolding turn
  turn-overflows bytes n' large got = rw (
    header_read,
    turn,
    parsed message fresh room h fits,
    turn,
    leb_of_le 2 h.length (omega arith),
    body_outside bytes n' large got,
  )

  module _ (valid : is_valid_length h ≡ true) (body : List ℕ) (full : length body ≡ h.length - 1)
      (bytes : All IsByte body) (n' : N)
      (came : layer.read (h.length - 1) n ≡ returned body n') where
    abbrev source : Buffer
    source = body_source message fresh room h fits valid body full bytes

    body_read :
        await_read layer (h.length - 1) (after (mbap h) (drop 7 message) 7 7) n
        ≡ returned (length body, source) n'
    unfolding await_read
    body_read = rw (
      came,
      await_read,
      store-after (mbap h) body (drop 7 message) 7 (h.length - 1) full
          (omega (arith, length-drop 7 message, length_bounds h valid)),
    )

    -- A valid request goes to the handler, and there is another turn when that has returned.
    pub turn-handles :
        (q : Request) (rest : List ℕ) (st' : Stream N)
        → IsValid q
        → body ≡ encode q ++ rest
        → handler (request q) h.transaction_id h.unit_id (record st { next_layer = n' })
          ≡ returned tt st'
        → turn layer handler message st ≡ returned true st'
    unfolding turn parse_body
    turn-handles q rest st' is_valid split handled = rw (
      header_read,
      turn,
      parsed message fresh room h fits,
      turn,
      leb_of_le 2 h.length (length_bounds h valid).0,
      body_read,
      turn,
      (read-encode reader_laws q fresh (commit (length body) source) rest is_valid (
          subst (Holds (commit (length body) source)) split
            (body_held message fresh room h fits valid body full bytes))).result,
      turn,
      handled,
    )

    -- A body that begins with no valid request ends the loop, and nothing is written.
    pub turn-ends :
        ((q : Request) (rest : List ℕ) → IsValid q → body ≢ encode q ++ rest)
        → turn layer handler message st ≡ returned false (record st { next_layer = n' })
    unfolding turn parse_body
    turn-ends none =
        elim (read_cases reader_laws fresh (commit (length body) source) body bytes
          (body_held message fresh room h fits valid body full bytes)) [
            | inl (q, rest, is_valid, split, took) ↦ absurd (none q rest is_valid split)
            | inr (inl (b, rest, split, others, e)) ↦ rw (
              header_read,
              turn,
              parsed message fresh room h fits,
              turn,
              leb_of_le 2 h.length (length_bounds h valid).0,
              body_read,
              turn,
              e,
            )
            | inr (inr (r, b, e)) ↦ rw (
              header_read,
              turn,
              parsed message fresh room h fits,
              turn,
              leb_of_le 2 h.length (length_bounds h valid).0,
              body_read,
              turn,
              e,
            )
          ]
