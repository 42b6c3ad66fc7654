-- ===== src/Adu/Stream/Rtu.antt =====
-- `rtu::stream` as a stream of the client.
use mothbus.Base.{
  ℕ, ◌+◌, ◌≤◌, ◌<◌, ◌≡◌, ◌≢◌, ◌⊎◌, refl, sym, ap, ◌∙◌, List, [], ◌∷◌, ◌++◌, IsByte, length,
  length-append, length-drop, drop, to_u16, arith,
}
use mothbus.Error.{ErrorCode, no_error}
use mothbus.Pdu.Codec.{Readable, Writable}
use mothbus.Pdu.FunctionCode.{to_byte}
use mothbus.Pdu.Writer.Laws.{Writes}
use mothbus.Adu.Buffer.{Buffer, sink}
use mothbus.Adu.Layer.{returned, threw}
use mothbus.Adu.Rtu.{Stream, write_request, read_response}
use mothbus.Adu.Rtu.Receive.{Delivers}
use mothbus.Adu.Rtu.Send.{adu, checksum, write_request-checksummed, length-adu}
use mothbus.Adu.Rtu.Verdict.{read_stream, read_response-checked, read_response-exception_lost}
use mothbus.Adu.Stream.{StreamOps, StreamLaws, Exceptions, Accepts, TakesFrom}
use mothbus.Adu.Timed.{TimedLayer, received}

module _ {N : Type 0} (line : TimedLayer N) where
  abbrev pub ops : StreamOps (Stream N)
  ops = record {
    write_request = λ T w. write_request line w;
    read_response = λ T c. read_response line c;
  }

  -- The stream when the request has been written.
  abbrev pub waiting : ℕ → List ℕ → Stream N → N → Stream N
  waiting slave request st n = record st {
    message_buffer = adu slave request ++ drop (length request + 3) st.message_buffer;
    next_layer = n;
    transaction_id = to_u16 (st.transaction_id + 1);
  }

  -- What comes behind the first byte of the answer.
  abbrev pub rest_of_frame : ℕ → List ℕ → List ℕ
  rest_of_frame slave response = response ++ checksum (slave ∷ response)

  -- The line takes the request's frame, and then delivers a frame with the slave, a PDU and their checksum.
  pub record Exchange (slave : ℕ) (request response : List ℕ) (st st' : Stream N) : Type 0 where
    pub asked : slave ≢ 0
    pub small : length st.message_buffer ≤ 320
    pub request_fits : length request + 3 ≤ length st.message_buffer
    pub response_fits : length response + 3 ≤ length st.message_buffer
    pub sent : N
    pub sends :
        (line.write (adu slave request) st.next_layer ≡ returned tt sent)
        ⊎ ((ec : ErrorCode) × (line.write (adu slave request) st.next_layer ≡ threw ec sent))
    pub begun : N
    pub begins : line.wait 1 st.timeout_response sent ≡ received (slave ∷ []) begun
    pub ended : N
    pub delivers :
        Delivers line st.timeout_inter_character begun (rest_of_frame slave response) ended
    pub left :
        st' ≡ read_stream (waiting slave request st sent) slave (rest_of_frame slave response) ended

  module _ {T : Type 0} (w : Writable T) (t : T) (slave : ℕ) (request response : List ℕ)
      (st st' : Stream N) (x : Exchange slave request response st st')
      (writes : Writes sink (w.write Buffer sink t) request) where
    length-waiting :
        length (adu slave request ++ drop (length request + 3) st.message_buffer)
        ≡ length st.message_buffer
    length-waiting = omega (
      arith,
      length-append (adu slave request) (drop (length request + 3) st.message_buffer),
      length-adu slave request,
      length-drop (length request + 3) st.message_buffer,
      x.request_fits,
    )

    pub reads :
        (U : Type 0) (c : Readable U) (out u : U) (xs : List ℕ)
        → response ≡ to_byte c.fc ∷ xs
        → to_byte c.fc < 128
        → TakesFrom c out xs u
        → Accepts
            (read_response line c st.transaction_id slave out)
            (waiting slave request st x.sent)
            u
            st'
    reads U c out u xs e small_code takes = record {
      ec = no_error;
      succeeded = refl;
      result =
          read_response-checked line c out (waiting slave request st x.sent)
            (omega (arith, length-waiting, x.small)) slave x.asked x.begun x.begins
            (rest_of_frame slave response) x.ended x.delivers
            (omega (
              arith,
              length-waiting,
              x.response_fits,
              length-append response (checksum (slave ∷ response)),
            ))
            st.transaction_id u xs (checksum (slave ∷ response))
            (ap (λ (l : List ℕ). l ++ checksum (slave ∷ response)) e) small_code
            (λ r held. takes r (checksum (slave ∷ response)) held)
            (ap (λ (l : List ℕ). checksum (slave ∷ l)) e)
          ∙ ap (returned (no_error, u)) (sym x.left);
    }

  module _ {T : Type 0} (w : Writable T) (t : T) (slave f e : ℕ) (request : List ℕ)
      (st st' : Stream N) (x : Exchange slave request (f ∷ e ∷ []) st st')
      (writes : Writes sink (w.write Buffer sink t) request) where
    loses :
        IsByte f
        → 128 ≤ f
        → e ≢ 0
        → (U : Type 0) (c : Readable U) (out : U)
        → read_response line c st.transaction_id slave out (waiting slave request st x.sent)
          ≡ returned (no_error, out) st'
    loses b top ne U c out =
        let size = length-waiting w t slave request (f ∷ e ∷ []) st st' x writes in
        read_response-exception_lost line c out (waiting slave request st x.sent)
          (omega (arith, size, x.small)) slave x.asked x.begun x.begins
          (rest_of_frame slave (f ∷ e ∷ [])) x.ended x.delivers
          (omega (
            arith,
            size,
            x.response_fits,
            length-append (f ∷ e ∷ []) (checksum (slave ∷ f ∷ e ∷ [])),
          ))
          st.transaction_id f e b top ne refl
        ∙ ap (returned (no_error, out)) (sym x.left)

  abbrev pub laws : StreamLaws ops
  laws = record {
    Exchange = Exchange;
    exchange = λ T w t slave request response s s' x writes. record {
      transaction_id = s.transaction_id;
      sent = waiting slave request s x.sent;
      wrote =
          write_request-checksummed line w t request s writes x.request_fits x.small slave x.sent
            x.sends;
      reads = reads w t slave request response s s' x writes;
    };
  }

  pub exceptions : Exceptions laws (λ e. no_error)
  exceptions = record {
    exception = λ T w t slave f e request s s' x writes b top ne. record {
      transaction_id = s.transaction_id;
      sent = waiting slave request s x.sent;
      wrote =
          write_request-checksummed line w t request s writes x.request_fits x.small slave x.sent
            x.sends;
      unread = loses w t slave f e request s s' x writes b top ne;
    };
  }
