-- ===== src/Adu/Tcp.antt =====
-- include/mothbus/adu/tcp.h: the MBAP header, the body, and the synchronous half of `stream`.
pub mod Frame
pub mod Send
pub mod Receive
pub mod Refusal
pub mod Answer
pub mod Server
use mothbus.Base.{
  ℕ, ◌+◌, ◌-◌, ◌^◌, Bool, ◌&&◌, ◌||◌, not, ◌==◌, ltb, leb, if◌then◌else◌, List, Option, none, some,
  length, replicate, to_u16,
}
use mothbus.Error.{
  ModbusExceptionCode, ErrorCode, Outcome, done, Fault, make_error_code, success,
  transaction_id_invalid,
}
use mothbus.Error.{illegal_protocol, slave_id_invalid, invalid_response}
use mothbus.Error
use mothbus.Pdu.Codec.{Readable, Writable}
use mothbus.Pdu.Reader.{Reader, Reading, Read, ok, error, fault, field, read_u16, ◌>>◌}
use mothbus.Pdu.Writer.{Write, write_u8, write_u16, ◌>>◌ as ◌>>>◌}
use mothbus.Pdu.Request
use mothbus.Pdu.Request.{PduReq}
use mothbus.Pdu.Response
use mothbus.Adu.Buffer.{Buffer, buffer, add_size, reader, sink, data_bytes, prepare, store, commit}
use mothbus.Adu.Layer.{Call, returned, threw, undefined, Layer, ◌>>=◌}

pub record MbapHeader : Type 0 where
  pub transaction_id : ℕ
  pub protocol : ℕ
  pub length : ℕ
  pub unit_id : ℕ

abbrev pub header_size : ℕ
header_size = 7

abbrev pub max_adu_size : ℕ
max_adu_size = 260

abbrev pub mbap_header : MbapHeader
mbap_header = record { transaction_id = 0; protocol = 0; length = 0; unit_id = 0 }

unfoldable pub is_valid_length : MbapHeader → Bool
is_valid_length h = leb 2 h.length && leb (h.length + (header_size - 1)) max_adu_size

-- The four reads of a header.
abbrev pub read_transaction_id : Read Buffer MbapHeader
read_transaction_id =
    field (λ h. h.transaction_id) (λ x h. record h { transaction_id = x }) (read_u16 reader)

abbrev pub read_protocol : Read Buffer MbapHeader
read_protocol = field (λ h. h.protocol) (λ x h. record h { protocol = x }) (read_u16 reader)

abbrev pub read_length : Read Buffer MbapHeader
read_length = field (λ h. h.length) (λ x h. record h { length = x }) (read_u16 reader)

abbrev pub read_unit_id : Read Buffer MbapHeader
read_unit_id = field (λ h. h.unit_id) (λ x h. record h { unit_id = x }) reader.read_u8

-- `m; k` with the error code of `m` dropped.
abbrev pub unchecked :
    Reading Buffer MbapHeader → Read Buffer MbapHeader → Reading Buffer MbapHeader
unchecked x k = elim x [ ok h r ↦ k h r | error _ h r ↦ k h r | fault e ↦ fault e ]

-- `parse_header`; the source names the field `length` also `message_length`, and the result also `h`.
-- The error codes of the reads are dropped.
unfoldable pub parse_header : Buffer → ℕ → Outcome (MbapHeader × Buffer)
unfolding read_u16 commit
parse_header source read_size =
    elim (unchecked
      (unchecked
        (unchecked (read_transaction_id mbap_header (commit read_size source)) read_protocol)
        read_length)
      read_unit_id) [
        | ok h source' ↦ done (h, source')
        | error _ h source' ↦ done (h, source')
        | fault e ↦ Error.fault e
      ]

unfoldable pub parse_body : Buffer → ℕ → PduReq → Reading Buffer PduReq
unfolding commit
parse_body source read_size req = Request.read reader req (commit read_size source)

-- `stream`: the message buffer of 320 bytes, the layer below and two counters.
pub record Stream (N : Type 0) : Type 0 where
  pub message_buffer : List ℕ
  pub next_layer : N
  pub protocol : ℕ
  pub transaction_id : ℕ

-- The constructor, with the members' initial values.
abbrev pub fresh_stream : {N : Type 0} → N → Stream N
fresh_stream n = record {
  message_buffer = replicate 320 0;
  next_layer = n;
  protocol = 0;
  transaction_id = 0;
}

-- What `write_request` and `write_response` do to their buffer: the header with a place holder for the
-- length, the PDU, then the length at its place, and the commit of the whole.
unfoldable pub frame : {T : Type 0} → Writable T → ℕ → ℕ → ℕ → T → List ℕ → Outcome Buffer
unfolding write_u16
frame {T} w transaction_id protocol slave pdu message =
    Error.◌>>=◌
      ((write_u16 sink transaction_id
          >>> write_u16 sink protocol
          >>> write_u16 sink 0
          >>> write_u8 sink slave
          >>> w.write Buffer sink pdu)
        (buffer message))
      (λ b.
        let index = b.output_start in
        let count = to_u16 (add_size index (2 ^ 64 - 6)) in
        Error.◌>>=◌ (write_u16 sink count (record b { output_start = 4 }))
          (λ b'. done (commit index (record b' { output_start = index }))))

module _ {N : Type 0} (layer : Layer N) where
  unfoldable pub write_request : {T : Type 0} → Writable T → ℕ → T → Stream N → Call (Stream N) ℕ
  unfolding frame data_bytes
  write_request w slave req st =
      elim (frame w st.transaction_id st.protocol slave req st.message_buffer) [
        | done b ↦ elim (data_bytes b) [
          | done bytes ↦ elim (layer.write bytes st.next_layer) [
            | returned _ n ↦ returned st.transaction_id (record st {
              message_buffer = b.message_buffer;
              next_layer = n;
              transaction_id = to_u16 (st.transaction_id + 1);
            })
            | threw ec n ↦
                threw ec (record st { message_buffer = b.message_buffer; next_layer = n })
            | undefined e ↦ undefined e
          ]
          | Error.fault e ↦ undefined e
        ]
        | Error.fault e ↦ undefined e
      ]

  -- Here the error code of the write is dropped.
  unfoldable pub write_response :
      {T : Type 0} → Writable T → ℕ → ℕ → T → Stream N → Call (Stream N) (Unit {0})
  unfolding frame data_bytes
  write_response w transaction_id slave response st =
      elim (frame w transaction_id st.protocol slave response st.message_buffer) [
        | done b ↦ elim (data_bytes b) [
          | done bytes ↦ elim (layer.write bytes st.next_layer) [
            | returned _ n ↦
                returned tt (record st { message_buffer = b.message_buffer; next_layer = n })
            | threw ec n ↦
                returned tt (record st { message_buffer = b.message_buffer; next_layer = n })
            | undefined e ↦ undefined e
          ]
          | Error.fault e ↦ undefined e
        ]
        | Error.fault e ↦ undefined e
      ]

  -- `read_size = mothbus::read(m_next_layer, source.prepare(n)); source.commit(read_size);`
  unfoldable pub receive : ℕ → Buffer → N → Call N Buffer
  unfolding prepare store commit
  receive n source s = elim (layer.read n s) [
    | returned bytes s' ↦ elim (store (prepare n source) bytes source) [
      | done b ↦ returned (commit (length bytes) b) s'
      | Error.fault e ↦ undefined e
    ]
    | threw ec s' ↦ threw ec s'
    | undefined e ↦ undefined e
  ]

-- The tests of a response's header, in their order. `none` lets it pass.
unfoldable pub check_header : MbapHeader → ℕ → ℕ → ℕ → Option ModbusExceptionCode
check_header h expected_transaction_id expected_protocol expected_slave =
    if not (h.transaction_id == expected_transaction_id)
    then some transaction_id_invalid
    else if not (h.protocol == expected_protocol)
    then some illegal_protocol
    else if not (h.unit_id == expected_slave)
    then some slave_id_invalid
    else if ltb 255 (h.length + 6) || leb h.length 1
    then some invalid_response
    else none

-- The checked reads of a header.
unfoldable pub read_header : Read Buffer MbapHeader
unfolding read_u16
read_header = do read_transaction_id; read_protocol; read_length; read_unit_id

module _ {N : Type 0} (layer : Layer N) {T : Type 0} (c : Readable T) where
  -- The part behind the header's tests: the body is received and read as the expected response.
  unfoldable pub read_response_body :
      ℕ → T → Buffer → Stream N → N → Call (Stream N) (ErrorCode × T)
  unfolding receive Response.read make_error_code
  read_response_body length out source st s = elim (receive layer (length - 1) source s) [
    | returned b s' ↦ elim (Response.read reader c out b) [
      | ok out' b' ↦
          returned (make_error_code success, out')
            (record st { message_buffer = b'.message_buffer; next_layer = s' })
      | error ec out' b' ↦
          returned (ec, out') (record st { message_buffer = b'.message_buffer; next_layer = s' })
      | fault e ↦ undefined e
    ]
    | threw ec s' ↦ threw ec (record st { message_buffer = source.message_buffer; next_layer = s' })
    | undefined e ↦ undefined e
  ]

  -- The error code that is returned, and the object that was read into.
  unfoldable pub read_response : ℕ → ℕ → T → Stream N → Call (Stream N) (ErrorCode × T)
  unfolding receive read_header check_header make_error_code
  read_response expected_transaction_id expected_slave out st =
      if expected_slave == 0
      then returned (make_error_code success, out) st
      else elim (receive layer header_size (buffer st.message_buffer) st.next_layer) [
        | returned b s ↦ elim (read_header mbap_header b) [
          | ok h b' ↦ elim (check_header h expected_transaction_id st.protocol expected_slave) [
            | none ↦ read_response_body h.length out b' st s
            | some code ↦
                returned (make_error_code code, out)
                  (record st { message_buffer = b'.message_buffer; next_layer = s })
          ]
          | error ec _ b' ↦
              returned (ec, out) (record st { message_buffer = b'.message_buffer; next_layer = s })
          | fault e ↦ undefined e
        ]
        | threw ec s ↦ threw ec (record st { next_layer = s })
        | undefined e ↦ undefined e
      ]
