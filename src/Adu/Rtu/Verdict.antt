-- ===== src/Adu/Rtu/Verdict.antt =====
-- What a client gets for a frame that the line delivered whole: the response in it, the refusal of a wrong
-- checksum, and what becomes of an exception and of a frame that is too short.
use mothbus.Base.{
  ℕ, suc, ◌≤◌, ◌<◌, ◌≡◌, ◌≢◌, refl, ◌∙◌, List, [], ◌∷◌, ◌++◌, length, drop, IsByte, arith,
}
use mothbus.Error.{make_error_code, no_error, invalid_response, uninitialised}
use mathlib.Core.Path.{subst}
use mothbus.Pdu.Codec.{Readable}
use mothbus.Pdu.FunctionCode.{to_byte}
use mothbus.Pdu.Reader.{ok}
use mothbus.Pdu.Reader.Laws.{Takes, skips}
use mothbus.Pdu.Response
use mothbus.Pdu.Response.Laws.{read-expected, read-exception}
use mothbus.Adu.Buffer.{Buffer, reader}
use mothbus.Adu.Buffer.Queue.{Holds, skip-Holds, reader_laws}
use mothbus.Adu.Layer.{returned, undefined}
use mothbus.Adu.Rtu.{Stream, finish, read_frame, read_response}
use mothbus.Adu.Rtu.Answer.{whole, whole-Holds, framed, finish-right, finish-wrong, finish-short}
use mothbus.Adu.Rtu.Checksum.{WrongCrc}
use mothbus.Adu.Rtu.Receive.{Delivers}
use mothbus.Adu.Rtu.Send.{checksum}
use mothbus.Adu.Timed.{TimedLayer, received}

-- The stream when a frame of this slave has been read.
abbrev pub read_stream : {N : Type 0} → Stream N → ℕ → List ℕ → N → Stream N
read_stream st slave bs n' = record st {
  message_buffer = slave ∷ (bs ++ drop (length bs) (drop 1 st.message_buffer));
  next_layer = n';
}

module _ {N : Type 0} (line : TimedLayer N) {T : Type 0} (c : Readable T) (out : T) (st : Stream N)
    (small : length st.message_buffer ≤ 320) (slave : ℕ) (asked : slave ≢ 0) (n : N)
    (came : line.wait 1 st.timeout_response st.next_layer ≡ received (slave ∷ []) n) (bs : List ℕ)
    (n' : N) (delivered : Delivers line st.timeout_inter_character n bs n')
    (fits : suc (length bs) ≤ length st.message_buffer) where
  room : 1 ≤ length st.message_buffer
  room = omega arith

  -- The buffer with the whole frame, of which the slave has been read.
  abbrev frame_buffer : Buffer
  frame_buffer = whole line c out st small slave asked slave n came room refl bs n' delivered fits

  held : Holds frame_buffer bs
  held = whole-Holds line c out st small slave asked slave n came room refl bs n' delivered fits

  -- What has been read off the frame is read as the response, with its error code dropped.
  reads_as_ok :
      (transaction_id : ℕ) (t : T) (front : List ℕ)
      → Response.read reader c out frame_buffer
        ≡ ok t (skips reader_laws (length front) frame_buffer)
      → read_response line c transaction_id slave out st
        ≡ finish line c st n' t (skips reader_laws (length front) frame_buffer)
  unfolding read_frame
  reads_as_ok transaction_id t front e =
      framed line c out st small slave asked slave n came room refl bs n' delivered fits
        transaction_id
      ∙ rw (e, read_frame)

  module _ (transaction_id : ℕ) (t : T) (xs rest : List ℕ)
      (split : bs ≡ (to_byte c.fc ∷ xs) ++ rest) (small_code : to_byte c.fc < 128)
      (takes : (r : Buffer)
        → Holds r (xs ++ rest)
        → Takes reader_laws (c.read Buffer reader) out r xs rest t) where
    finished :
        read_response line c transaction_id slave out st
        ≡ finish line c st n' t (skips reader_laws (suc (length xs)) frame_buffer)
    finished =
        let held' = subst (λ (l : List ℕ). Holds frame_buffer l) split held in
        reads_as_ok transaction_id t (to_byte c.fc ∷ xs)
          (read-expected reader_laws c out t xs rest frame_buffer small_code held'
            (takes _ (skip-Holds frame_buffer (to_byte c.fc) (xs ++ rest) held'))).result

    -- With a message buffer of at most 320 bytes and a slave other than 0: when the slave and then a
    -- frame that fits the buffer come in, followed by silence or a failed read, and the frame is the
    -- expected function code, below 128, bytes that the class reads, and the checksum of all before it,
    -- read_response returns no error and the value read.
    pub read_response-checked :
        rest ≡ checksum (slave ∷ to_byte c.fc ∷ xs)
        → read_response line c transaction_id slave out st
          ≡ returned (no_error, t) (read_stream st slave bs n')
    read_response-checked e =
        finished
        ∙ finish-right line c out st small slave asked slave n came room refl bs n' delivered fits
            (to_byte c.fc ∷ xs) rest split t e

    -- With two other bytes in place of the checksum the frame is refused, though what was read of it stays
    -- in the object.
    pub read_response-WrongCrc :
        (low high : ℕ)
        → rest ≡ low ∷ high ∷ []
        → WrongCrc (slave ∷ to_byte c.fc ∷ xs) low high
        → read_response line c transaction_id slave out st
          ≡ returned (make_error_code invalid_response, t) (read_stream st slave bs n')
    read_response-WrongCrc low high e bad =
        finished
        ∙ finish-wrong line c out st small slave asked slave n came room refl bs n' delivered fits
            (to_byte c.fc ∷ xs) rest split t low high e bad

    -- With a message buffer of at most 320 bytes and a slave other than 0: when the slave and then a
    -- frame that fits the buffer come in, followed by silence or a failed read, and the frame is the
    -- expected function code, below 128, and bytes that the class reads, with no checksum behind them,
    -- read_response compares a variable that was never set.
    pub read_response-short :
        rest ≡ [] → read_response line c transaction_id slave out st ≡ undefined uninitialised
    read_response-short e =
        finished
        ∙ finish-short line c out st small slave asked slave n came room refl bs n' delivered fits
            (to_byte c.fc ∷ xs) rest split t e

  -- With a message buffer of at most 320 bytes and a slave other than 0: when the slave and then a
  -- frame that fits the buffer come in, followed by silence or a failed read, and the frame is an
  -- exception response with a code other than 0 and the right checksum, read_response returns no error,
  -- with the object to read into unchanged.
  pub read_response-exception_lost :
      (transaction_id f e : ℕ)
      → IsByte f
      → 128 ≤ f
      → e ≢ 0
      → bs ≡ (f ∷ e ∷ []) ++ checksum (slave ∷ f ∷ e ∷ [])
      → read_response line c transaction_id slave out st
        ≡ returned (no_error, out) (read_stream st slave bs n')
  unfolding read_frame
  read_response-exception_lost transaction_id f e w top ne split =
      framed line c out st small slave asked slave n came room refl bs n' delivered fits
        transaction_id
      ∙ (rw (
        read-exception reader_laws c out f e frame_buffer (checksum (slave ∷ f ∷ e ∷ [])) w top ne
            (subst (λ (l : List ℕ). Holds frame_buffer l) split held),
        read_frame,
      ))
      ∙ finish-right line c out st small slave asked slave n came room refl bs n' delivered fits
          (f ∷ e ∷ []) (checksum (slave ∷ f ∷ e ∷ [])) split out refl
