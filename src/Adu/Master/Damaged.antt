-- ===== src/Adu/Master/Damaged.antt =====
-- A client on a serial line whose answer was damaged on the way.
use mothbus.Base.{
  ℕ, suc, ◌*◌, ◌/◌, ◌≤◌, ◌<◌, ◌≡◌, ◌≢◌, ◌⊎◌, refl, true, List, [], ◌∷◌, ◌++◌, IsU16, length,
  length-append, length-drop, length-replicate, replicate, drop, to_u16, arith,
}
use mothbus.Error.{ErrorCode, failed, done, make_error_code, invalid_response}
use mothbus.Pdu.Codec.{Writable}
use mothbus.Pdu.FunctionCode.{FunctionCode, to_byte}
use mothbus.Pdu.ReqReadingRegister
use mothbus.Pdu.ReqReadingRegister.{ReadHoldingPduReq}
use mothbus.Pdu.SpanResponse.{SpanPduResp, over, array}
use mothbus.Pdu.SpanResponse.Laws.{filled, read-Takes}
use mothbus.Adu.Buffer.{Buffer, sink}
use mothbus.Adu.Buffer.Queue.{reader_laws}
use mothbus.Adu.Layer.{returned, threw}
use mothbus.Adu.Layer
use mothbus.Adu.Master.{
  transact, read_span, status_of_count, take_words, read_registers, read_register_words,
}
use mothbus.Adu.Master.Reads.{span_readable}
use mothbus.Adu.Master.ReadFunctions.{asking}
use mothbus.Adu.Master.Exceptions.{words_request}
use mothbus.Adu.Rtu.{Stream}
use mothbus.Adu.Rtu.Damage.{Damaged, read_response-detects}
use mothbus.Adu.Rtu.Receive.{Delivers}
use mothbus.Adu.Rtu.Send.{adu, checksum, write_request-checksummed, length-adu}
use mothbus.Adu.Rtu.Verdict.{read_stream}
use mothbus.Adu.Stream.{StreamOps}
use mothbus.Adu.Stream.Rtu.{ops, waiting}
use mothbus.Adu.Timed.{TimedLayer, received}

-- A read into a span that ends with an error returns it, and what is in the array then.
read_span-failed :
    {S T : Type 0} (stream : StreamOps S) (fc : FunctionCode) (w : Writable T) (slave : ℕ) (t : T)
    (resp resp' : SpanPduResp fc) (out : List ℕ) (s s' : S) (ec : ErrorCode)
    → transact stream w (span_readable fc) slave t (done resp) s ≡ returned (ec, resp') s'
    → failed ec ≡ true
    → read_span stream w (span_readable fc) slave t resp out s ≡ returned (ec, array resp') s'
unfolding read_span status_of_count
read_span-failed stream fc w slave t resp resp' out s s' ec e bad =
    rw (e, read_span, Layer.◌>>=◌, bad)

module _ {N : Type 0} (line : TimedLayer N) (st : Stream N) (small : length st.message_buffer ≤ 320)
    (slave : ℕ) (asked : slave ≢ 0) (address : ℕ) (fits : IsU16 address) (out : List ℕ)
    (count : length out < 65536) (room : 8 ≤ length st.message_buffer) (sent : N)
    (sends : (line.write (adu slave (asking 0x03 address (length out))) st.next_layer
        ≡ returned tt sent)
      ⊎ ((ec : ErrorCode) × (line.write (adu slave (asking 0x03 address (length out))) st.next_layer
            ≡ threw ec sent))) where
  -- The stream when the request has been written.
  abbrev pub written : Stream N
  written = waiting line slave (asking 0x03 address (length out)) st sent

  written_length : length written.message_buffer ≡ length st.message_buffer
  written_length = omega (
    arith,
    length-append (adu slave (asking 0x03 address (length out))) (drop 8 st.message_buffer),
    length-adu slave (asking 0x03 address (length out)),
    length-drop 8 st.message_buffer,
    room,
  )

  module _ (begun : N) (begins : line.wait 1 st.timeout_response sent ≡ received (slave ∷ []) begun)
      (vs m : List ℕ) (few : length vs ≤ length out * 2) (ended : N)
      (delivered : Delivers line st.timeout_inter_character begun
        ((0x03 ∷ length vs ∷ vs) ++ checksum m)
        ended)
      (fit : suc (length ((0x03 ∷ length vs ∷ vs) ++ checksum m)) ≤ length st.message_buffer)
      (damaged : Damaged m (slave ∷ 0x03 ∷ length vs ∷ vs)) where
    abbrev pub heard : Stream N
    heard = read_stream written slave ((0x03 ∷ length vs ∷ vs) ++ checksum m) ended

    abbrev buffer : List ℕ
    buffer = replicate (length out * 2) 0

    size : length buffer ≡ length out * 2
    size = length-replicate {A = ℕ} (length out * 2) 0

    transacted :
        transact
          (ops line)
          ReqReadingRegister.writable
          (span_readable FunctionCode.read_holding_registers)
          slave
          (words_request address out)
          (done (over buffer))
          st
        ≡ returned (make_error_code invalid_response, filled (over buffer) vs) heard
    unfolding transact to_byte
    transacted =
        rw
          (
            write_request-checksummed line ReqReadingRegister.writable (words_request address out)
                (asking 0x03 address (length out)) st
                (ReqReadingRegister.write-WritesFormat.writes Buffer sink _ (fits, count)) room
                small slave sent sends,
            transact,
            Layer.◌>>=◌,
          )
          (read_response-detects line (span_readable FunctionCode.read_holding_registers)
            (over buffer) written (omega (arith, written_length, small)) slave asked begun begins
            ((0x03 ∷ length vs ∷ vs) ++ checksum m) ended delivered
            (omega (arith, written_length, fit)) st.transaction_id (filled (over buffer) vs)
            (length vs ∷ vs) m refl damaged (omega arith)
            (λ r held.
              read-Takes reader_laws (over buffer) vs r (checksum m) (omega (arith, few, size))
                held))

    -- Over a serial line, with a message buffer of 8 to 320 bytes, a slave other than 0, a 16-bit
    -- address and fewer than 65536 registers: when the request goes out, or its write throws, and what
    -- comes in from the slave is the function code, a byte count, that many bytes, at most two for each
    -- register, and the checksum of another message that differs from what came in within two
    -- neighbouring bytes only, followed by silence or a failed read, then read_register_words returns
    -- invalid_response and leaves the array of the caller as it was.
    pub read_register_words-detects :
        read_register_words (ops line) slave address out st
        ≡ returned (make_error_code invalid_response, out) heard
    unfolding read_register_words take_words read_registers make_error_code
    read_register_words-detects =
        let quantity : to_u16 (length buffer / 2) ≡ length out = omega (arith, size, count) in
        rw (
          quantity,
          read_span-failed (ops line) FunctionCode.read_holding_registers
              ReqReadingRegister.writable slave (words_request address out) (over buffer)
              (filled (over buffer) vs) buffer st heard (make_error_code invalid_response)
              transacted refl,
          Layer.◌>>=◌,
        )
