-- ===== src/Adu/Rtu/Send.antt =====
-- What a serial stream hands to the line when it writes a request.
use mothbus.Base.{
  ℕ, suc, ◌+◌, ◌/◌, ◌≤◌, ◌≡◌, refl, sym, ap, ◌∙◌, List, [], ◌∷◌, ◌++◌, append_assoc, length,
  length-append, length-take, length-drop, take-append-drop, take-length_append, to_u16, bit_and,
  drop, drop-drop, take, ◌⊎◌, inl, inr, arith,
}
use mothbus.Error.{ErrorCode, done, ◌>>=◌}
use mothbus.Pdu.Codec.{Writable}
use mothbus.Pdu.Writer.{◌>>◌}
use mothbus.Pdu.Writer.Laws.{Writes, byte-Writes, write_u8-Writes}
use mothbus.Adu.Buffer.{Buffer, buffer, sink, add_size, commit}
use mothbus.Adu.Buffer.Fill.{write_bytes-over, data-frame}
use mothbus.Adu.Crc.{crc16}
use mothbus.Adu.Layer.{returned, threw, undefined}
use mothbus.Adu.Rtu.{Stream, frame, write_request}
use mothbus.Adu.Timed.{TimedLayer}

-- The checksum of a message as it stands behind it.
abbrev pub checksum : List ℕ → List ℕ
checksum msg = bit_and (crc16 msg) 0xff ∷ bit_and (crc16 msg / 256) 0xff ∷ []

-- Slave, PDU and checksum.
abbrev pub adu : ℕ → List ℕ → List ℕ
adu slave pdu = (slave ∷ pdu) ++ checksum (slave ∷ pdu)

pub frame-adu :
    {T : Type 0} (w : Writable T) (slave : ℕ) (t : T) (pdu message : List ℕ)
    → Writes sink (w.write Buffer sink t) pdu
    → length pdu + 3 ≤ length message
    → length message ≤ 320
    → frame w slave t message
      ≡ done (record {
        message_buffer = adu slave pdu ++ drop (length pdu + 3) message;
        input_start = 0;
        input_end = length pdu + 3;
        output_start = length pdu + 3 + (length pdu + 3);
      })
unfolding frame commit
frame-adu {T} w slave t pdu message writes fits small =
    rw (first, frame, ◌>>=◌, take-length_append (slave ∷ pdu) behind, second)
      (ap done (λ i. record {
        message_buffer = same_bytes i;
        input_start = 0;
        input_end = counted i;
        output_start = twice i;
      }))
  where
    behind : List ℕ
    behind = drop (suc (length pdu)) message

    b1 : Buffer
    b1 = record {
      message_buffer = (slave ∷ pdu) ++ behind;
      input_start = 0;
      input_end = 0;
      output_start = suc (length pdu);
    }

    first : (sink.put slave >> w.write Buffer sink t) (buffer message) ≡ done b1
    first =
        byte-Writes sink slave _ pdu writes (buffer message)
        ∙ write_bytes-over (slave ∷ pdu) (take (suc (length pdu)) message) [] behind
            (buffer message) (omega (arith, length-take (suc (length pdu)) message))
            (sym (take-append-drop (suc (length pdu)) message)) refl
        ∙ ap (λ (o : ℕ). done (record b1 { output_start = o })) (omega arith)

    second :
        (sink.put (bit_and (crc16 (slave ∷ pdu)) 0xff)
            >> sink.put (bit_and (crc16 (slave ∷ pdu) / 256) 0xff))
          b1
        ≡ done (record b1 {
          message_buffer = (slave ∷ pdu) ++ (checksum (slave ∷ pdu) ++ drop 2 behind);
          output_start = suc (length pdu) + 2;
        })
    second =
        byte-Writes sink (bit_and (crc16 (slave ∷ pdu)) 0xff) _ _
          (write_u8-Writes sink (bit_and (crc16 (slave ∷ pdu) / 256) 0xff)) b1
        ∙ write_bytes-over (checksum (slave ∷ pdu)) (take 2 behind) (slave ∷ pdu) (drop 2 behind) b1
            (omega (arith, length-take 2 behind, length-drop (suc (length pdu)) message))
            (ap (λ l. (slave ∷ pdu) ++ l) (sym (take-append-drop 2 behind))) refl

    same_bytes :
        (slave ∷ pdu) ++ (checksum (slave ∷ pdu) ++ drop 2 behind)
        ≡ adu slave pdu ++ drop (length pdu + 3) message
    same_bytes =
        sym (append_assoc (slave ∷ pdu) (checksum (slave ∷ pdu)) (drop 2 behind))
        ∙ ap (λ l. adu slave pdu ++ l)
            (drop-drop 2 (suc (length pdu)) message
              ∙ ap (λ (k : ℕ). drop k message) {x = suc (length pdu) + 2} (omega arith))

    counted : add_size 0 (suc (length pdu) + 2) ≡ length pdu + 3
    counted = omega arith

    twice :
        add_size (suc (length pdu) + 2) (suc (length pdu) + 2) ≡ length pdu + 3 + (length pdu + 3)
    twice = omega arith

pub length-adu : (slave : ℕ) (pdu : List ℕ) → length (adu slave pdu) ≡ length pdu + 3
length-adu slave pdu = omega (arith, length-append (slave ∷ pdu) (checksum (slave ∷ pdu)))

module _ {N : Type 0} (line : TimedLayer N) {T : Type 0} (w : Writable T) (t : T) (pdu : List ℕ)
    (st : Stream N) (writes : Writes sink (w.write Buffer sink t) pdu)
    (fits : length pdu + 3 ≤ length st.message_buffer)
    (small : length st.message_buffer ≤ 320) where
  -- The stream after a request, with its line in the state `n`.
  abbrev pub sent : ℕ → N → Stream N
  sent slave n = record st {
    message_buffer = adu slave pdu ++ drop (length pdu + 3) st.message_buffer;
    next_layer = n;
    transaction_id = to_u16 (st.transaction_id + 1);
  }

  written :
      (slave : ℕ)
      → write_request line w slave t st ≡ elim (line.write (adu slave pdu) st.next_layer) [
        | returned _ n ↦ returned st.transaction_id (sent slave n)
        | threw _ n ↦ returned st.transaction_id (sent slave n)
        | undefined e ↦ undefined e
      ]
  unfolding write_request
  written slave = rw (
    frame-adu w slave t pdu st.message_buffer writes fits small,
    write_request,
    data-frame (adu slave pdu) (drop (length pdu + 3) st.message_buffer) (length pdu + 3)
        (length pdu + 3 + (length pdu + 3)) (sym (length-adu slave pdu)),
  )

  -- Into a message buffer of at most 320 bytes with room for it, a request goes out as one frame: the
  -- slave, the PDU and their checksum. The stream's transaction id is returned, and the next one is one
  -- more, modulo 2 ^ 16; this is so also where the line's write fails.
  pub write_request-checksummed :
      (slave : ℕ) (n : N)
      → ((line.write (adu slave pdu) st.next_layer ≡ returned tt n)
          ⊎ ((ec : ErrorCode) × (line.write (adu slave pdu) st.next_layer ≡ threw ec n)))
      → write_request line w slave t st ≡ returned st.transaction_id (sent slave n)
  write_request-checksummed slave n (inl went) = written slave ∙ rw went
  write_request-checksummed slave n (inr (ec, failed)) = written slave ∙ rw failed
