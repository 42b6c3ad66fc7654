-- ===== src/Adu/Rtu/Answer.antt =====
-- What a serial stream makes of the bytes that answer a request.
use mothbus.Base.{
  ℕ, suc, ◌≤◌, ◌≡◌, ◌≢◌, refl, ap, ap₂, ◌∙◌, List, [], ◌∷◌, ◌++◌, append_assoc, length,
  length-append, length-drop, take-length_append, take, drop, ==_of_ne, ==_of_eq, if◌then◌else◌,
  arith,
}
use mothbus.Error.{
  ErrorCode, make_error_code, no_error, invalid_response, slave_id_invalid, uninitialised,
  out_of_bounds,
}
use mathlib.Core.Path.{subst}
use mothbus.Pdu.Codec.{Readable}
use mothbus.Pdu.Reader.{ok}
use mothbus.Pdu.Reader.Laws.{skips, skips-Holds}
use mothbus.Adu.Buffer.{Buffer, buffer, get, commit}
use mothbus.Adu.Buffer.Fill.{after}
use mothbus.Adu.Buffer.Queue.{Holds, skip, skips-eq, get-cons, reader_laws}
use mothbus.Adu.Layer.{Call, returned, undefined}
use mothbus.Adu.Rtu.{
  Stream, finish, leave, read_frame, receive_response, read_response, read_byte_with_timeout,
}
use mothbus.Adu.Rtu.Checksum.{WrongCrc, check_crc-right, check_crc-wrong, check_crc-short}
use mothbus.Adu.Rtu.Receive.{
  Delivers, read_byte-silent, read_byte-gives, receive_rest-takes, receive_rest-overflows,
}
use mothbus.Adu.Rtu.Send.{checksum}
use mothbus.Adu.Timed.{TimedLayer, received}

module _ {N : Type 0} (line : TimedLayer N) {T : Type 0} (c : Readable T) (out : T) (st : Stream N)
    (small : length st.message_buffer ≤ 320) (slave : ℕ) (asked : slave ≢ 0) where
  -- Nothing comes in time: that is reported.
  pub read_response-timed_out :
      (transaction_id : ℕ) (n : N)
      → Delivers line st.timeout_response st.next_layer [] n
      → read_response line c transaction_id slave out st
        ≡ returned (line.timed_out, out) (record st { next_layer = n })
  unfolding read_response receive_response
  read_response-timed_out transaction_id n nothing = rw (
    ==_of_ne slave 0 asked,
    if◌then◌else◌,
    read_byte-silent line st.timeout_response (buffer st.message_buffer) nothing,
    receive_response,
  )

  module _ (from : ℕ) (n : N)
      (came : line.wait 1 st.timeout_response st.next_layer ≡ received (from ∷ []) n)
      (room : 1 ≤ length st.message_buffer) where
    abbrev stored : Buffer
    stored = record (buffer st.message_buffer) { message_buffer = from ∷ drop 1 st.message_buffer }

    abbrev first : Buffer
    first = after (from ∷ []) (drop 1 st.message_buffer) 1 1

    first_read :
        read_byte_with_timeout line st.timeout_response (buffer st.message_buffer) st.next_layer
        ≡ returned (1, stored) n
    first_read = read_byte-gives line st.timeout_response from [] st.message_buffer 0 came room

    slave_read : get 0 (commit 1 stored) ≡ ok from first
    unfolding commit
    slave_read =
        get-cons 0 (after (from ∷ []) (drop 1 st.message_buffer) 0 1) from [] (omega arith, refl)

    -- With a message buffer of 1 to 320 bytes and a slave other than 0: when the first byte that comes
    -- in is another one, read_response returns slave_id_invalid, with the object to read into unchanged
    -- and nothing else taken from the line.
    pub read_response-other_slave :
        (transaction_id : ℕ)
        → from ≢ slave
        → read_response line c transaction_id slave out st
          ≡ returned
              (make_error_code slave_id_invalid, out)
              (record st { message_buffer = from ∷ drop 1 st.message_buffer; next_layer = n })
    unfolding read_response receive_response
    read_response-other_slave transaction_id other = rw (
      ==_of_ne slave 0 asked,
      if◌then◌else◌,
      first_read,
      receive_response,
      slave_read,
      receive_response,
      ==_of_ne from slave other,
    )

    module _ (expected : from ≡ slave) (bs : List ℕ) (n' : N)
        (delivered : Delivers line st.timeout_inter_character n bs n') where
      -- With a message buffer of 1 to 320 bytes and a slave other than 0: when the slave comes in and
      -- behind it, before a silence or a failed read, at least as many bytes as the message buffer has,
      -- read_response stores a byte behind the end of the buffer.
      pub read_response-overflows :
          (transaction_id : ℕ)
          → length st.message_buffer ≤ length bs
          → read_response line c transaction_id slave out st ≡ undefined out_of_bounds
      unfolding read_response receive_response
      read_response-overflows transaction_id over = rw (
        ==_of_ne slave 0 asked,
        if◌then◌else◌,
        first_read,
        receive_response,
        slave_read,
        receive_response,
        ==_of_eq from slave expected,
        receive_rest-overflows line st.timeout_inter_character 1 (suc (length st.message_buffer))
            (from ∷ []) (drop 1 st.message_buffer) delivered
            (omega (arith, length-drop 1 st.message_buffer))
            (omega (arith, length-drop 1 st.message_buffer))
            (omega (arith, length-drop 1 st.message_buffer)),
      )

      module _ (fits : suc (length bs) ≤ length st.message_buffer) where
        abbrev pub behind : List ℕ
        behind = drop (length bs) (drop 1 st.message_buffer)

        -- The message buffer with the whole frame.
        abbrev pub whole : Buffer
        whole = after (from ∷ bs) behind 1 (suc (length bs))

        pub framed :
            (transaction_id : ℕ)
            → read_response line c transaction_id slave out st ≡ read_frame line c out whole st n'
        unfolding read_response receive_response
        framed transaction_id = rw (
          ==_of_ne slave 0 asked,
          if◌then◌else◌,
          first_read,
          receive_response,
          slave_read,
          receive_response,
          ==_of_eq from slave expected,
          receive_rest-takes line st.timeout_inter_character 1 (suc (length st.message_buffer))
              (from ∷ []) (drop 1 st.message_buffer) delivered (omega arith)
              (omega (arith, length-drop 1 st.message_buffer))
              (omega (arith, length-drop 1 st.message_buffer)),
        )

        pub whole-Holds : Holds whole bs
        whole-Holds = (
          omega (arith, length-append bs behind),
          ap (λ (k : ℕ). take k (bs ++ behind)) {y = length bs} (omega arith)
              ∙ take-length_append bs behind,
        )

        -- The stream behind the frame.
        abbrev pub kept : Stream N
        kept = record st { message_buffer = from ∷ (bs ++ behind); next_layer = n' }

        module _ (front rest : List ℕ) (split : bs ≡ front ++ rest) where
          -- The buffer when the response has been read off the frame.
          abbrev pub behind_front : Buffer
          behind_front = skips reader_laws (length front) whole

          behind_front-Holds : Holds behind_front rest
          behind_front-Holds =
              skips-Holds reader_laws front rest whole
                (subst (λ (l : List ℕ). Holds whole l) split whole-Holds)

          read_so_far : take behind_front.input_start behind_front.message_buffer ≡ from ∷ front
          read_so_far =
              ap (λ (b : Buffer). take b.input_start b.message_buffer)
                (skips-eq (length front) whole)
              ∙ ap₂ (λ (k : ℕ) (l : List ℕ). take k (from ∷ l)) {y = suc (length front)}
                  (omega arith)
                  (ap (λ (l : List ℕ). l ++ behind) split ∙ append_assoc front rest behind)
              ∙ take-length_append (from ∷ front) (rest ++ behind)

          same_bytes : behind_front.message_buffer ≡ from ∷ (bs ++ behind)
          same_bytes = ap (λ (b : Buffer). b.message_buffer) (skips-eq (length front) whole)

          left :
              (ec : ErrorCode) (t : T)
              → ◌≡◌ {A = Call (Stream N) (ErrorCode × T)}
                  (returned (ec, t) (leave line c (skip (skip behind_front)) st n'))
                  (returned (ec, t) kept)
          left ec t =
              ap
                (λ (l : List ℕ).
                  returned (ec, t) (record st { message_buffer = l; next_layer = n' }))
                same_bytes

          pub finish-right :
              (t : T)
              → rest ≡ checksum (from ∷ front)
              → finish line c st n' t behind_front ≡ returned (no_error, t) kept
          unfolding finish
          finish-right t e =
              rw
                (
                  check_crc-right behind_front (from ∷ front) read_so_far
                      (subst (λ (l : List ℕ). Holds behind_front l) e behind_front-Holds),
                  finish,
                )
                (left no_error t)

          pub finish-wrong :
              (t : T) (low high : ℕ)
              → rest ≡ low ∷ high ∷ []
              → WrongCrc (from ∷ front) low high
              → finish line c st n' t behind_front
                ≡ returned (make_error_code invalid_response, t) kept
          unfolding finish
          finish-wrong t low high e bad =
              rw
                (
                  check_crc-wrong behind_front (from ∷ front) read_so_far low high
                      (subst (λ (l : List ℕ). Holds behind_front l) e behind_front-Holds) bad,
                  finish,
                )
                (left (make_error_code invalid_response) t)

          pub finish-short :
              (t : T) → rest ≡ [] → finish line c st n' t behind_front ≡ undefined uninitialised
          unfolding finish
          finish-short t e = rw (
            check_crc-short behind_front
                (subst (λ (l : List ℕ). Holds behind_front l) e behind_front-Holds),
            finish,
          )
