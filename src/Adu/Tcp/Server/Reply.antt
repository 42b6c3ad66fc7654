-- ===== src/Adu/Tcp/Server/Reply.antt =====
-- What a server makes of a request: the header, then the body.
use mothbus.Base.{
  ℕ, ◌-◌, ◌≤◌, ◌≡◌, refl, ap, ◌∙◌, inl, inr, true, false, List, [], ◌++◌, IsByte, All, length,
  length-append, length-drop, take, drop, take-length_append, arith,
}
use mothbus.Error.{
  ErrorCode, done, make_error_code, request_too_big, no_error, illegal_function,
  too_many_bytes_received, to_int,
}
use mothbus.Pdu.Reader.{ok, error}
use mothbus.Pdu.Request.{Request, PduReq, not_implemented}
use mothbus.Pdu.Request
use mothbus.Pdu.Request.Wire.{encode, IsValid}
use mothbus.Pdu.Request.Decode.{read-encode}
use mathlib.Core.Path.{subst}
use mothbus.Pdu.Request.Total.{read_cases}
use mothbus.Pdu.Request.Unknown.{read-refuses}
use mothbus.Pdu.FunctionCode.{}
use mothbus.Adu.Buffer.{Buffer, buffer, reader, commit}
use mothbus.Adu.Buffer.Fill.{after, store-after}
use mothbus.Adu.Buffer.Queue.{Holds, skip, reader_laws}
use mothbus.Pdu.Reader.Laws.{skips}
use mothbus.Adu.Tcp.{MbapHeader, header_size, is_valid_length, parse_header, parse_body}
use mothbus.Adu.Tcp.Receive.{mbap, FitsHeader}
use mothbus.Adu.Tcp.Server.{
  RequestReadOp, reading_body, called_back, filled, gives_up, async_read_request, store_read,
  on_body, complete,
}
use mothbus.Adu.Tcp.Server.Verdict.{Begins, IsUnknown, Verdict}
use mothbus.Adu.Tcp.Server.Header.{parse_header-reads, length_bounds}

-- The callback gets the error code of reading the request.
on_body-ok :
    (n : ℕ) (op : RequestReadOp) (req : PduReq) (b : Buffer)
    → Request.read reader op.request (commit n op.source) ≡ ok req b
    → on_body n op
      ≡ done (
          called_back
            (record { transaction_id = op.transaction_id; slave = op.slave; ec = no_error })
            (record op { source = b; request = req }))
unfolding on_body parse_body
on_body-ok n op req b e = rw (on_body, e)

on_body-error :
    (n : ℕ) (op : RequestReadOp) (ec : ErrorCode) (req : PduReq) (b : Buffer)
    → Request.read reader op.request (commit n op.source) ≡ error ec req b
    → on_body n op
      ≡ done (
          called_back
            (record { transaction_id = op.transaction_id; slave = op.slave; ec = ec })
            (record op { source = b; request = req }))
unfolding on_body parse_body
on_body-error n op ec req b e = rw (on_body, e)

module _ (message : List ℕ) (req : PduReq) where
  abbrev pub op_with : Buffer → RequestReadOp
  op_with source = record {
    source = source;
    request = req;
    transaction_id = 0;
    protocol = 0;
    length = 0;
    slave = 0;
  }

  -- What the operation has become when the header `h` passed its test.
  abbrev pub op_after : MbapHeader → RequestReadOp
  op_after h = record {
    source = after (mbap h) (drop 7 message) 7 7;
    request = req;
    transaction_id = h.transaction_id;
    protocol = h.protocol;
    length = h.length;
    slave = h.unit_id;
  }

  module _ (room : 260 ≤ length message) (h : MbapHeader) (fits : FitsHeader h) where
    stored_header :
        store_read header_size (mbap h) (op_with (buffer message))
        ≡ done (op_with (record (buffer message) { message_buffer = mbap h ++ drop 7 message }))
    unfolding store_read
    stored_header = rw (store-after [] (mbap h) message 0 7 refl (omega arith))

    pub parsed :
        parse_header (record (buffer message) { message_buffer = mbap h ++ drop 7 message }) 7
        ≡ done (h, after (mbap h) (drop 7 message) 7 7)
    unfolding commit
    parsed =
        parse_header-reads (record (buffer message) { message_buffer = mbap h ++ drop 7 message }) 7
          h fits (omega arith, refl)

    -- A header whose length is from 2 to 254 is followed by its body.
    pub header-filled :
        is_valid_length h ≡ true
        → complete (filled (mbap h)) (async_read_request message req)
          ≡ done (reading_body (op_after h))
    unfolding complete
    header-filled valid = rw (stored_header, parsed, valid)

    -- With a message buffer of at least 260 bytes: when a header comes in whose length is not valid,
    -- the callback is called with request_too_big at once, and no body is read.
    pub async_read_request-too_big :
        is_valid_length h ≡ false
        → complete (filled (mbap h)) (async_read_request message req)
          ≡ done (
              gives_up
                (make_error_code request_too_big)
                (op_with (after (mbap h) (drop 7 message) 7 7)))
    unfolding complete
    async_read_request-too_big invalid = rw (stored_header, parsed, invalid)

    module _ (valid : is_valid_length h ≡ true) (body : List ℕ) (full : length body ≡ h.length - 1)
        (bytes : All IsByte body) where
      abbrev pub body_source : Buffer
      body_source = record (after (mbap h) (drop 7 message) 7 7) {
        message_buffer = mbap h ++ (body ++ drop (h.length - 1) (drop 7 message));
      }

      stored_body :
          store_read (h.length - 1) body (op_after h)
          ≡ done (record (op_after h) { source = body_source })
      unfolding store_read
      stored_body = rw (
          store-after (mbap h) body (drop 7 message) 7 (h.length - 1) full
            (omega (arith, length-drop 7 message, length_bounds h valid)))

      pub body_held : Holds (commit (length body) body_source) body
      unfolding commit
      body_held = (
        omega (arith, length_bounds, length-append body (drop (h.length - 1) (drop 7 message))),
        ap (λ (k : ℕ). take k (body ++ drop (h.length - 1) (drop 7 message)))
              (omega (arith, length_bounds h valid))
            ∙ take-length_append body (drop (h.length - 1) (drop 7 message)),
      )

      -- The callback gets a request that the body begins with.
      pub request-filled :
          (q : Request) (rest : List ℕ)
          → IsValid q
          → body ≡ encode q ++ rest
          → complete (filled body) (reading_body (op_after h))
            ≡ done (
                called_back
                  (record { transaction_id = h.transaction_id; slave = h.unit_id; ec = no_error })
                  (record (op_after h) {
                    source =
                        skips reader_laws (length (encode q)) (commit (length body) body_source);
                    request = Request.request q;
                  }))
      unfolding complete
      request-filled q rest is_valid split =
          let source = commit (length body) body_source in
          rw (stored_body, complete)
            (on_body-ok (length body) (record (op_after h) { source = body_source })
              (Request.request q) _
              (read-encode reader_laws q req source rest is_valid
                (subst (Holds source) split body_held)).result)

      -- An input that ends too early begins with no request, nor with an unknown function code.
      no_request :
          {r : PduReq} {b : Buffer} {ec : ErrorCode}
          → Request.read reader req (commit (length body) body_source) ≡ error ec r b
          → (q : Request) → ¬ Begins body q
      no_request e q (rest, is_valid, split) =
          let took =
            read-encode reader_laws q req (commit (length body) body_source) rest is_valid (
              subst (λ (l : List ℕ). Holds (commit (length body) body_source) l) split body_held) in
          cc (took.result, e)

      known :
          {r : PduReq} {b : Buffer}
          → Request.read reader req (commit (length body) body_source)
            ≡ error (make_error_code too_many_bytes_received) r b
          → ¬ IsUnknown body
      unfolding make_error_code to_int
      known e (b, rest, split, none) =
          let refused =
            read-refuses reader_laws b none req (commit (length body) body_source) rest (
              subst (λ (l : List ℕ). Holds (commit (length body) body_source) l) split body_held) in
          cc (refused, e)

      pub body-filled :
          (ec : ErrorCode) × (op : RequestReadOp) × (complete
              (filled body)
              (reading_body (op_after h))
            ≡ done (
                called_back
                  (record { transaction_id = h.transaction_id; slave = h.unit_id; ec = ec })
                  op))
          × Verdict body ec op.request
      unfolding complete
      body-filled =
          let op = record (op_after h) { source = body_source } in
          let source = commit (length body) body_source in
          elim (read_cases reader_laws req source body bytes body_held) [
            | inl (q, rest, is_valid, split, took) ↦ (
              no_error,
              record op {
                source = skips reader_laws (length (encode q)) source;
                request = Request.request q;
              },
              rw (stored_body, complete)
                  (on_body-ok (length body) op (Request.request q) _ took.result),
              inl (q, (rest, is_valid, split), refl, refl),
            )
            | inr (inl (b, rest, split, others, e)) ↦ (
              make_error_code illegal_function,
              record op { source = skip source; request = not_implemented 0 },
              rw (stored_body, complete) (on_body-error (length body) op _ (not_implemented 0) _ e),
              inr (inl ((b, rest, split, others), refl, refl)),
            )
            | inr (inr (r, b, e)) ↦ (
              make_error_code too_many_bytes_received,
              record op { source = b; request = r },
              rw (stored_body, complete) (on_body-error (length body) op _ r b e),
              inr (inr (no_request e, known e, refl)),
            )
          ]

      -- With a message buffer of at least 260 bytes: when a header with a valid length and then as many
      -- bytes as it announces come in, the callback is called once both have come, with the transaction
      -- id and the unit id of the header. Where the bytes begin with a valid request, it gets no error
      -- and that request; where they begin with a byte that is no function code of a class,
      -- illegal_function and not_implemented; otherwise too_many_bytes_received.
      pub async_read_request-reads :
          (ec : ErrorCode) × (op : RequestReadOp) × (complete
              (filled (mbap h))
              (async_read_request message req)
            ≡ done (reading_body (op_after h)))
          × (complete (filled body) (reading_body (op_after h))
              ≡ done (
                  called_back
                    (record { transaction_id = h.transaction_id; slave = h.unit_id; ec = ec })
                    op))
          × Verdict body ec op.request
      async_read_request-reads =
          let (ec, op, called, verdict) = body-filled in
          (ec, op, header-filled valid, called, verdict)
