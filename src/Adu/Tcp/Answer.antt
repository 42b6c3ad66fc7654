-- ===== src/Adu/Tcp/Answer.antt =====
-- What a stream makes of the bytes that answer a request.
use mothbus.Base.{
  append-nil, ℕ, ◌+◌, ◌-◌, ◌≤◌, ◌<◌, ◌≡◌, ◌≢◌, refl, sym, ap, ◌∙◌, List, [], ◌∷◌, ◌++◌,
}
use mothbus.Base.{length, length-append, length-drop, take-length_append, take, drop, IsByte}
use mothbus.Base.{none, some, ==_of_ne, if◌then◌else◌, arith}
use mothbus.Error.{ModbusExceptionCode, ErrorCode, make_error_code, success, modbus_category}
use mathlib.Core.Path.{subst}
use mothbus.Pdu.Codec.{Readable}
use mothbus.Pdu.FunctionCode.{to_byte}
use mothbus.Pdu.Reader.{Reading, ok, error, fault}
use mothbus.Pdu.Reader.Laws.{Takes, skips}
use mothbus.Pdu.Response
use mothbus.Pdu.Response.Laws.{read-expected, read-exception}
use mothbus.Adu.Buffer.{Buffer, buffer, reader}
use mothbus.Adu.Buffer.Queue.{Holds, skip, skip-Holds, skips-eq, reader_laws}
use mothbus.Adu.Layer.{Layer, Call, returned, undefined}
use mothbus.Adu.Tcp.{
  MbapHeader, mbap_header, Stream, read_header, check_header, receive, read_response_body,
  read_response, header_size,
}
use mothbus.Adu.Tcp.Refusal.{Expected, Refusal, check_header-none, check_header-refuses}
use mothbus.Adu.Tcp.Receive.{mbap, FitsHeader, read_header-Takes, receive-stores}
use mothbus.Adu.Buffer.Fill.{after}

module _ {N : Type 0} (layer : Layer N) {T : Type 0} (c : Readable T) (out : T) (st : Stream N)
    (small : length st.message_buffer ≤ 320) (roomy : 256 ≤ length st.message_buffer) where
  module _ (h : MbapHeader) (fits : FitsHeader h) (transaction_id slave : ℕ) (asked : slave ≢ 0)
      (n : N) (header : layer.read header_size st.next_layer ≡ returned (mbap h) n) where
    held : Holds (after (mbap h) (drop 7 st.message_buffer) 0 7) (mbap h ++ [])
    held = (omega (arith, length-drop 7 st.message_buffer), refl)

    received :
        receive layer header_size (buffer st.message_buffer) st.next_layer
        ≡ returned (after (mbap h) (drop 7 st.message_buffer) 0 7) n
    received =
        receive-stores layer [] (mbap h) st.message_buffer 7 st.next_layer n (omega arith) small
          header refl

    abbrev header_buffer : Buffer
    header_buffer = after (mbap h) (drop 7 st.message_buffer) 0 7

    header_read : read_header mbap_header header_buffer ≡ ok h (skips reader_laws 7 header_buffer)
    header_read = (read_header-Takes h mbap_header header_buffer [] fits held).result

    -- A header that fails its tests is reported, and nothing is read behind it.
    pub read_response-fails :
        (code : ModbusExceptionCode)
        → check_header h transaction_id st.protocol slave ≡ some code
        → read_response layer c transaction_id slave out st
          ≡ returned
              (make_error_code code, out)
              (record st { message_buffer = mbap h ++ drop 7 st.message_buffer; next_layer = n })
    unfolding read_response
    read_response-fails code refused = rw (
      ==_of_ne slave 0 asked,
      if◌then◌else◌,
      received,
      read_response,
      header_read,
      read_response,
      refused,
    )

    -- With a message buffer of 256 to 320 bytes and a slave other than 0: a header that comes in and is
    -- not the expected one, which has the transaction id of the request, the protocol of the stream, the
    -- slave that was asked and a length from 2 to 249, makes read_response return transaction_id_invalid
    -- where its transaction id is another, else illegal_protocol where its protocol is, else
    -- slave_id_invalid where its slave is, else invalid_response; the object to read into is unchanged,
    -- and nothing behind the header is read.
    pub read_response-refuses :
        ¬ Expected h transaction_id st.protocol slave
        → (code : ModbusExceptionCode) × Refusal h transaction_id st.protocol slave code
          × (read_response layer c transaction_id slave out st
              ≡ returned
                  (make_error_code code, out)
                  (record st {
                    message_buffer = mbap h ++ drop 7 st.message_buffer;
                    next_layer = n;
                  }))
    read_response-refuses unexpected =
        let (code, refusal, refused) =
          check_header-refuses h transaction_id st.protocol slave unexpected in
        (code, refusal, read_response-fails code refused)

    module _ (passed : check_header h transaction_id st.protocol slave ≡ none) (pdu : List ℕ)
        (n' : N) (body : layer.read (h.length - 1) n ≡ returned pdu n')
        (full : length pdu ≡ h.length - 1) where
      abbrev behind : List ℕ
      behind = drop (length pdu) (drop 7 st.message_buffer)

      abbrev whole : Buffer
      whole = after (mbap h ++ pdu) behind 7 (7 + length pdu)

      bounded : h.length ≤ 249
      bounded = ((check_header-none h transaction_id st.protocol slave).0 passed).4

      whole-Holds : Holds whole (pdu ++ [])
      whole-Holds = (
        omega (arith, length-append pdu behind),
        ap (λ (k : ℕ). take k (pdu ++ behind)) {y = length pdu} (omega arith)
            ∙ take-length_append pdu behind
            ∙ sym (append-nil pdu),
      )

      body_received :
          receive layer (h.length - 1) (after (mbap h) (drop 7 st.message_buffer) 7 7) n
          ≡ returned whole n'
      body_received =
          receive-stores layer (mbap h) pdu (drop 7 st.message_buffer) (h.length - 1) n n'
            (omega (arith, length-drop 7 st.message_buffer, bounded))
            (omega (arith, length-drop 7 st.message_buffer, bounded)) body full

      -- What a stream returns when the PDU has been read.
      abbrev answer : Reading Buffer T → Call (Stream N) (ErrorCode × T)
      answer x = elim x [
        | ok out' b ↦
            returned (make_error_code success, out')
              (record st { message_buffer = b.message_buffer; next_layer = n' })
        | error ec out' b ↦
            returned (ec, out') (record st { message_buffer = b.message_buffer; next_layer = n' })
        | fault e ↦ undefined e
      ]

      reads_pdu :
          read_response layer c transaction_id slave out st
          ≡ answer (Response.read reader c out whole)
      unfolding read_response read_response_body
      reads_pdu = rw (
        ==_of_ne slave 0 asked,
        if◌then◌else◌,
        received,
        read_response,
        header_read,
        read_response,
        passed,
        read_response,
        read_response_body,
        body_received,
      )

      abbrev kept : Stream N
      kept = record st { message_buffer = mbap h ++ (pdu ++ behind); next_layer = n' }

      -- When the header passes and the bytes behind it are the expected function code and what the class
      -- reads, the call returns success and what was read.
      pub read_response-accepts :
          (xs : List ℕ) (t : T)
          → to_byte c.fc < 128
          → pdu ≡ to_byte c.fc ∷ xs
          → ((r : Buffer)
              → Holds r (xs ++ [])
              → Takes reader_laws (c.read Buffer reader) out r xs [] t)
          → read_response layer c transaction_id slave out st
            ≡ returned (make_error_code success, t) kept
      read_response-accepts xs t small_code e takes =
          let held' = subst (λ (l : List ℕ). Holds whole (l ++ [])) e whole-Holds in
          let took =
            read-expected reader_laws c out t xs [] whole small_code held'
              (takes _ (skip-Holds whole (to_byte c.fc) (xs ++ []) held')) in
          reads_pdu
          ∙ ap answer took.result
          ∙ ap
              (λ (l : List ℕ).
                returned (make_error_code success, t)
                  (record st { message_buffer = l; next_layer = n' }))
              (ap (λ (b : Buffer). b.message_buffer) (skips-eq (length xs) (skip whole)))

      -- When the header passes and an exception stands behind it, the call returns that exception.
      pub read_response-exception :
          (f e : ℕ)
          → IsByte f
          → 128 ≤ f
          → e ≢ 0
          → pdu ≡ f ∷ e ∷ []
          → read_response layer c transaction_id slave out st
            ≡ returned (record { value = e; category = modbus_category }, out) kept
      read_response-exception f e w top ne is =
          reads_pdu
          ∙ ap answer (
              read-exception reader_laws c out f e whole [] w top ne
                (subst (λ (l : List ℕ). Holds whole (l ++ [])) is whole-Holds))
