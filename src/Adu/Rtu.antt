-- ===== src/Adu/Rtu.antt =====
-- include/mothbus/adu/rtu.h: frames on a serial line, which end where the line stays silent.
pub mod Send
pub mod Receive
pub mod Checksum
pub mod Answer
pub mod Verdict
pub mod Damage
use mothbus.Base.{
  ℕ, zero, suc, ◌+◌, ◌/◌, ◌||◌, not, true, false, ◌==◌, ltb, if◌then◌else◌, List, length, take,
  bit_and, to_u16,
}
use mothbus.Error.{
  ErrorCode, Outcome, done, Fault, uninitialised, out_of_fuel, make_error_code, no_error,
  slave_id_invalid, invalid_response,
}
use mothbus.Error
use mothbus.Pdu.Codec.{Readable, Writable}
use mothbus.Pdu.Reader.{Reading, ok, error, fault}
use mothbus.Pdu.Response
use mothbus.Pdu.Writer.{Write, write_u8, ◌>>◌ as ◌>>>◌}
use mothbus.Adu.Buffer.{Buffer, buffer, get, reader, sink, data_bytes, prepare, store, commit}
use mothbus.Adu.Crc.{crc16}
use mothbus.Adu.Layer.{Call, returned, threw, undefined, ◌>>=◌}
use mothbus.Adu.Timed.{TimedLayer, received, broken, expired}

-- `stream`: the message buffer of 320 bytes, the line, the counter and the two timeouts.
pub record Stream (N : Type 0) : Type 0 where
  pub message_buffer : List ℕ
  pub next_layer : N
  pub transaction_id : ℕ
  pub timeout_inter_character : ℕ
  pub timeout_response : ℕ

-- What `write_request` does to its buffer: slave and PDU, then their checksum with its low byte first, and
-- the commit of the whole.
unfoldable pub frame : {T : Type 0} → Writable T → ℕ → T → List ℕ → Outcome Buffer
unfolding crc16
frame {T} w slave request message =
    Error.◌>>=◌ ((write_u8 sink slave >>> w.write Buffer sink request) (buffer message)) (λ b.
      let crc = crc16 (take b.output_start b.message_buffer) in
      Error.◌>>=◌
        ((write_u8 sink (bit_and crc 0xff) >>> write_u8 sink (bit_and (crc / 256) 0xff)) b)
        (λ b'. done (commit b'.output_start b')))

module _ {N : Type 0} (line : TimedLayer N) where
  -- The error code of the write is dropped.
  unfoldable pub write_request : {T : Type 0} → Writable T → ℕ → T → Stream N → Call (Stream N) ℕ
  unfolding frame data_bytes
  write_request w slave request st = elim (frame w slave request st.message_buffer) [
    | done b ↦ elim (data_bytes b) [
      | done bytes ↦ elim (line.write bytes st.next_layer) [
        | returned _ n ↦ returned st.transaction_id (record st {
          message_buffer = b.message_buffer;
          next_layer = n;
          transaction_id = to_u16 (st.transaction_id + 1);
        })
        | threw _ n ↦ returned st.transaction_id (record st {
          message_buffer = b.message_buffer;
          next_layer = n;
          transaction_id = to_u16 (st.transaction_id + 1);
        })
        | undefined e ↦ undefined e
      ]
      | Error.fault e ↦ undefined e
    ]
    | Error.fault e ↦ undefined e
  ]

  -- The bytes read, and the buffer with them in it. A read that completes first cancels the timer; else
  -- the line is cancelled when the time is up, and nothing counts as read.
  unfoldable pub read_byte_with_timeout : ℕ → Buffer → N → Call N (ℕ × Buffer)
  unfolding prepare store
  read_byte_with_timeout timeout source s = elim (line.wait 1 timeout s) [
    | received bytes s' ↦ elim (store (prepare 1 source) bytes source) [
      | done b ↦
          if ltb 0 (length bytes)
          then returned (length bytes, b) s'
          else returned (0, b) (line.cancel s')
      | Error.fault e ↦ undefined e
    ]
    | broken _ s' ↦ returned (0, source) (line.cancel s')
    | expired s' ↦ returned (0, source) (line.cancel s')
  ]

  -- `while (true)`: bytes are taken until none comes in time.
  unfoldable pub receive_rest : ℕ → ℕ → Buffer → N → Call N Buffer
  unfolding read_byte_with_timeout commit
  receive_rest zero timeout source s = undefined out_of_fuel
  receive_rest (suc fuel) timeout source s = elim (read_byte_with_timeout timeout source s) [
    | returned (read_size, b) s' ↦ elim (read_size == 0) [
      | true ↦ returned b s'
      | false ↦ receive_rest fuel timeout (commit read_size b) s'
    ]
    | threw ec s' ↦ threw ec s'
    | undefined e ↦ undefined e
  ]

-- The comparison of the checksum behind the response. The error codes of the two reads are dropped, and
-- `rcvCrcL` and `rcvCrcH` are not set before them; the second is only looked at where the first is right.
unfoldable pub check_crc : Buffer → Outcome (ErrorCode × Buffer)
unfolding crc16 get make_error_code
check_crc source =
    let crc = crc16 (take source.input_start source.message_buffer) in
    elim (get 0 source) [
      | ok low b ↦ elim (get 0 b) [
        | ok high b' ↦
            if not (low == bit_and crc 0xff) || not (high == bit_and (crc / 256) 0xff)
            then done (make_error_code invalid_response, b')
            else done (no_error, b')
        | error _ _ b' ↦
            if not (low == bit_and crc 0xff)
            then done (make_error_code invalid_response, b')
            else Error.fault uninitialised
        | fault e ↦ Error.fault e
      ]
      | error _ _ b ↦ Error.fault uninitialised
      | fault e ↦ Error.fault e
    ]

module _ {N : Type 0} (line : TimedLayer N) {T : Type 0} (c : Readable T) where
  abbrev leave : Buffer → Stream N → N → Stream N
  leave b st s = record st { message_buffer = b.message_buffer; next_layer = s }

  unfoldable pub finish : Stream N → N → T → Buffer → Call (Stream N) (ErrorCode × T)
  unfolding check_crc
  finish st s out b = elim (check_crc b) [
    | done (ec, b') ↦ returned (ec, out) (leave b' st s)
    | Error.fault e ↦ undefined e
  ]

  -- The part behind the loop: the response is read, its error code dropped, and the checksum compared.
  unfoldable pub read_frame : T → Buffer → Stream N → N → Call (Stream N) (ErrorCode × T)
  unfolding Response.read finish
  read_frame out source st s = elim (Response.read reader c out source) [
    | ok out' b ↦ finish st s out' b
    | error _ out' b ↦ finish st s out' b
    | fault e ↦ undefined e
  ]

  -- The rounds of the loop are bounded by the places of the message buffer: a byte for which there is none
  -- ends the run.
  unfoldable pub receive_response : ℕ → T → Stream N → Call (Stream N) (ErrorCode × T)
  receive_response expected_slave out st =
      if expected_slave == 0
      then returned (no_error, out) st
      else elim (read_byte_with_timeout line st.timeout_response (buffer st.message_buffer)
          st.next_layer) [
            | returned (read_size, b) s ↦
                if read_size == 0
                then returned (line.timed_out, out) (leave b st s)
                else elim (get 0 (commit read_size b)) [
                  | ok received_slave b' ↦
                      if not (received_slave == expected_slave)
                      then returned (make_error_code slave_id_invalid, out) (leave b' st s)
                      else elim (receive_rest line (suc (length st.message_buffer))
                          st.timeout_inter_character b' s) [
                            | returned b'' s' ↦ read_frame out b'' st s'
                            | threw ec s' ↦ threw ec (leave b' st s')
                            | undefined e ↦ undefined e
                          ]
                  | error _ _ _ ↦ undefined uninitialised
                  | fault e ↦ undefined e
                ]
            | threw ec s ↦ threw ec (record st { next_layer = s })
            | undefined e ↦ undefined e
          ]

  -- The transaction id is not looked at.
  unfoldable pub read_response : ℕ → ℕ → T → Stream N → Call (Stream N) (ErrorCode × T)
  unfolding receive_response
  read_response transaction_id expected_slave out st = receive_response expected_slave out st
