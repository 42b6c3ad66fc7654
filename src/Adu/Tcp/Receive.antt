-- ===== src/Adu/Tcp/Receive.antt =====
-- What the synchronous reads of a stream leave in its buffer, and the reading of a header.
use mothbus.Base.{ℕ, ◌+◌, ◌≤◌, ◌≡◌, sym, ap₂, append_assoc, List, [], ◌∷◌, ◌++◌}
use mothbus.Base.{length, take-length_append, drop, word, IsU16}
use mothbus.Base.{leb_of_le, arith}
use mothbus.Pdu.Counted.{word-Takes}
use mothbus.Pdu.Reader.Laws.{Takes, field-Takes, read_u8-Takes}
use mothbus.Adu.Buffer.{Buffer, reader, prepare, store, commit}
use mothbus.Adu.Buffer.Fill.{after, drop_append}
use mothbus.Adu.Buffer.Queue.{Holds, reader_laws}
use mothbus.Adu.Layer.{Layer, returned}
use mothbus.Adu.Tcp.{MbapHeader, read_header, receive}

-- The seven bytes of a header.
abbrev pub mbap : MbapHeader → List ℕ
mbap h = word h.transaction_id ++ (word h.protocol ++ (word h.length ++ (h.unit_id ∷ [])))

-- The fields fit their types.
abbrev pub FitsHeader : MbapHeader → Type 0
FitsHeader h = IsU16 h.transaction_id × IsU16 h.protocol × IsU16 h.length

pub read_header-Takes :
    (h h' : MbapHeader) (b : Buffer) (rest : List ℕ)
    → FitsHeader h
    → Holds b (mbap h ++ rest)
    → Takes reader_laws read_header h' b (mbap h) rest h
unfolding read_header
read_header-Takes h h' b rest fits held =
    word-Takes (λ h. h.transaction_id) (λ x h. record h { transaction_id = x }) reader_laws _ _ rest
      fits.0 held
      λ held1.
        word-Takes (λ h. h.protocol) (λ x h. record h { protocol = x }) reader_laws _ _ rest fits.1
          held1
          λ held2.
            word-Takes (λ h. h.length) (λ x h. record h { length = x }) reader_laws _ _ rest fits.2
              held2
              λ held3.
                field-Takes reader_laws (λ h. h.unit_id) (λ x h. record h { unit_id = x })
                  reader.read_u8 _ _ (read_u8-Takes reader_laws held3)

module _ {N : Type 0} (layer : Layer N) where
  -- Bytes that the layer gives are stored behind what has been read, and can be read.
  pub receive-stores :
      (xs bytes behind : List ℕ) (n : ℕ) (s s' : N)
      → length xs + length bytes ≤ length (xs ++ behind)
      → length (xs ++ behind) ≤ 320
      → layer.read n s ≡ returned bytes s'
      → length bytes ≡ n
      → receive layer n (after xs behind (length xs) (length xs)) s
        ≡ returned
            (after
              (xs ++ bytes)
              (drop (length bytes) behind)
              (length xs)
              (length xs + length bytes))
            s'
  unfolding receive prepare store commit
  receive-stores xs bytes behind n s s' fits small got full =
      rw
        (
          got,
          receive,
          leb_of_le (length xs + n) (length (xs ++ behind)) (omega arith),
          take-length_append xs behind,
          drop_append xs behind (length bytes),
        )
        (ap₂
          (λ (l : List ℕ) (k : ℕ).
            returned
              (record {
                message_buffer = l;
                input_start = length xs;
                input_end = k;
                output_start = k;
              })
              s')
          (sym (append_assoc xs bytes (drop (length bytes) behind))) (omega arith))
