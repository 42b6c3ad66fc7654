-- ===== src/Adu/Tcp/Frame.antt =====
-- The bytes of a frame.
use mothbus.Base.{ℕ, suc, ◌+◌, ◌-◌, ◌^◌, ◌≤◌, ◌<◌, ◌≡◌, refl, sym, ap, ap₂, ◌∙◌}
use mothbus.Base.{
  List, [], ◌∷◌, ◌++◌, word, length, length-take, take-append-drop, to_u16, take, drop, arith,
}
use mothbus.Error.{done, fault, out_of_bounds, ◌>>=◌}
use mothbus.Pdu.Codec.{Writable}
use mothbus.Pdu.Writer.{write_u16, ◌>>◌}
use mothbus.Pdu.Writer.Laws.{Writes, byte-Writes, word-Writes, write_u16-Writes}
use mothbus.Adu.Buffer.{Buffer, buffer, sink, commit, add_size}
use mothbus.Adu.Buffer.Fill.{write_bytes-over, write_bytes-outside}
use mothbus.Adu.Tcp.{frame}

-- The MBAP header, with the length of what follows it, and the PDU.
abbrev pub adu : ℕ → ℕ → ℕ → List ℕ → List ℕ
adu transaction_id protocol slave pdu =
    word transaction_id ++ (word protocol ++ (word (suc (length pdu)) ++ (slave ∷ pdu)))

-- `frame` fills the front of the message with the frame, and commits just that.
pub frame-adu :
    {T : Type 0} (w : Writable T) (transaction_id protocol slave : ℕ) (t : T) (pdu message : List ℕ)
    → Writes sink (w.write Buffer sink t) pdu
    → length pdu + 7 ≤ length message
    → length message ≤ 320
    → frame w transaction_id protocol slave t message
      ≡ done (record {
        message_buffer = adu transaction_id protocol slave pdu ++ drop (length pdu + 7) message;
        input_start = 0;
        input_end = length pdu + 7;
        output_start = length pdu + 7 + (length pdu + 7);
      })
unfolding frame commit
frame-adu {T} w transaction_id protocol slave t pdu message writes fits small =
    rw (first, frame, ◌>>=◌, counted, second)
      (ap₂
        (λ (i o : ℕ). done (record {
          message_buffer = adu transaction_id protocol slave pdu ++ behind;
          input_start = 0;
          input_end = i;
          output_start = o;
        }))
        (omega arith) (omega arith))
  where
    behind : List ℕ
    behind = drop (length pdu + 7) message

    placed : List ℕ
    placed = word transaction_id ++ (word protocol ++ (word 0 ++ (slave ∷ pdu)))

    b1 : Buffer
    b1 = record {
      message_buffer = placed ++ behind;
      input_start = 0;
      input_end = 0;
      output_start = 7 + length pdu;
    }

    first :
        (write_u16 sink transaction_id
            >> write_u16 sink protocol
            >> write_u16 sink 0
            >> sink.put slave
            >> w.write Buffer sink t)
          (buffer message)
        ≡ done b1
    first =
        word-Writes sink transaction_id _ _
          (word-Writes sink protocol _ _
            (word-Writes sink 0 _ _ (byte-Writes sink slave _ pdu writes)))
          (buffer message)
        ∙ write_bytes-over placed (take (length pdu + 7) message) [] behind (buffer message)
            (omega (arith, length-take (length pdu + 7) message))
            (sym (take-append-drop (length pdu + 7) message)) refl
        ∙ ap (λ (o : ℕ). done (record b1 { output_start = o })) (omega arith)

    counted : to_u16 (add_size (7 + length pdu) (2 ^ 64 - 6)) ≡ suc (length pdu)
    counted = omega arith

    second :
        write_u16 sink (suc (length pdu)) (record b1 { output_start = 4 })
        ≡ done (record b1 {
          message_buffer = adu transaction_id protocol slave pdu ++ behind;
          output_start = 6;
        })
    second =
        write_u16-Writes sink (suc (length pdu)) (record b1 { output_start = 4 })
        ∙ write_bytes-over (word (suc (length pdu))) (word 0) (word transaction_id ++ word protocol)
            (slave ∷ (pdu ++ behind)) (record b1 { output_start = 4 }) refl refl refl

-- A frame for which the message has no room is written behind its end.
pub frame-outside :
    {T : Type 0} (w : Writable T) (transaction_id protocol slave : ℕ) (t : T) (pdu message : List ℕ)
    → Writes sink (w.write Buffer sink t) pdu
    → length message < length pdu + 7
    → frame w transaction_id protocol slave t message ≡ fault out_of_bounds
unfolding frame
frame-outside w transaction_id protocol slave t pdu message writes large = rw (
  word-Writes sink transaction_id _ _
        (word-Writes sink protocol _ _
          (word-Writes sink 0 _ _ (byte-Writes sink slave _ pdu writes)))
        (buffer message)
      ∙ write_bytes-outside (word transaction_id ++ (word protocol ++ (word 0 ++ (slave ∷ pdu))))
          (buffer message) (omega arith) (omega arith),
  frame,
  ◌>>=◌,
)
