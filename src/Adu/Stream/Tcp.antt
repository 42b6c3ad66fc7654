-- ===== src/Adu/Stream/Tcp.antt =====
-- `tcp::stream` as a stream of the client.
use mothbus.Base.{
  ℕ, suc, ◌+◌, ◌≤◌, ◌<◌, none, ◌≡◌, ◌≢◌, refl, sym, ap, ◌∙◌, List, [], ◌∷◌, ◌++◌, IsU16, IsByte,
  length, length-append, length-drop, drop, to_u16, arith,
}
use mothbus.Error.{make_error_code, success, modbus_category}
use mothbus.Pdu.Codec.{Readable, Writable}
use mothbus.Pdu.FunctionCode.{to_byte}
use mothbus.Pdu.Writer.Laws.{Writes}
use mothbus.Adu.Buffer.{Buffer, sink}
use mothbus.Adu.Layer.{Layer, returned}
use mothbus.Adu.Stream.{StreamOps, StreamLaws, Exceptions, Accepts, TakesFrom}
use mothbus.Adu.Tcp.{MbapHeader, Stream, write_request, read_response, check_header, header_size}
use mothbus.Adu.Tcp.Answer.{read_response-accepts, read_response-exception}
use mothbus.Adu.Tcp.Refusal.{check_header-none}
use mothbus.Adu.Tcp.Frame.{adu}
use mothbus.Adu.Tcp.Receive.{mbap}
use mothbus.Adu.Tcp.Send.{write_request-sends}

module _ {N : Type 0} (layer : Layer N) where
  abbrev pub ops : StreamOps (Stream N)
  ops = record {
    write_request = λ T w. write_request layer w;
    read_response = λ T c. read_response layer c;
  }

  -- The header of the answer to the stream's next request.
  abbrev pub answer_header : ℕ → List ℕ → Stream N → MbapHeader
  answer_header slave response st = record {
    transaction_id = st.transaction_id;
    protocol = st.protocol;
    length = suc (length response);
    unit_id = slave;
  }

  -- The message buffer behind the request.
  abbrev pub asking : ℕ → List ℕ → Stream N → List ℕ
  asking slave request st =
      adu st.transaction_id st.protocol slave request ++ drop (length request + 7) st.message_buffer

  -- The layer takes the request's frame, and then gives a header and a PDU.
  pub record Exchange (slave : ℕ) (request response : List ℕ) (st st' : Stream N) : Type 0 where
    pub asked : slave ≢ 0
    pub roomy : 256 ≤ length st.message_buffer
    pub small : length st.message_buffer ≤ 320
    pub request_fits : length request + 7 ≤ length st.message_buffer
    pub response_fits : (1 ≤ length response) × (length response ≤ 248)
    pub counters : IsU16 st.transaction_id × IsU16 st.protocol
    pub sent : N
    pub sends :
        layer.write (adu st.transaction_id st.protocol slave request) st.next_layer
        ≡ returned tt sent
    pub headed : N
    pub heads :
        layer.read header_size sent ≡ returned (mbap (answer_header slave response st)) headed
    pub ended : N
    pub ends : layer.read (length response) headed ≡ returned response ended
    pub left : st' ≡ record st {
      message_buffer =
          mbap (answer_header slave response st)
          ++ (response ++ drop (length response) (drop 7 (asking slave request st)));
      next_layer = ended;
      transaction_id = to_u16 (st.transaction_id + 1);
    }

  module _ {T : Type 0} (w : Writable T) (t : T) (slave : ℕ) (request response : List ℕ)
      (st st' : Stream N) (x : Exchange slave request response st st')
      (writes : Writes sink (w.write Buffer sink t) request) where
    -- The stream when the request has been written.
    abbrev pub waiting : Stream N
    waiting = record st {
      message_buffer = asking slave request st;
      next_layer = x.sent;
      transaction_id = to_u16 (st.transaction_id + 1);
    }

    length-asking : length (asking slave request st) ≡ length st.message_buffer
    length-asking = omega (
      arith,
      length-append (adu st.transaction_id st.protocol slave request)
          (drop (length request + 7) st.message_buffer),
      length-drop (length request + 7) st.message_buffer,
      x.request_fits,
    )

    passed :
        check_header (answer_header slave response st) st.transaction_id st.protocol slave ≡ none
    passed =
        (check_header-none (answer_header slave response st) st.transaction_id st.protocol slave).1
          (refl, refl, refl, omega (arith, x.response_fits), omega (arith, x.response_fits))

    pub reads :
        (U : Type 0) (c : Readable U) (out u : U) (xs : List ℕ)
        → response ≡ to_byte c.fc ∷ xs
        → to_byte c.fc < 128
        → TakesFrom c out xs u
        → Accepts (read_response layer c st.transaction_id slave out) waiting u st'
    unfolding make_error_code
    reads U c out u xs e small_code takes = record {
      ec = make_error_code success;
      succeeded = refl;
      result =
          read_response-accepts layer c out waiting (omega (arith, length-asking, x.small))
            (omega (arith, length-asking, x.roomy)) (answer_header slave response st)
            (x.counters.0, x.counters.1, omega (arith, x.response_fits)) st.transaction_id slave
            x.asked x.headed x.heads passed response x.ended
            (ap (λ (k : ℕ). layer.read k x.headed) (omega arith) ∙ x.ends) (omega arith) xs u
            small_code e (λ r held. takes r [] held)
          ∙ ap (returned (make_error_code success, u)) (sym x.left);
    }

  module _ {T : Type 0} (w : Writable T) (t : T) (slave f e : ℕ) (request : List ℕ)
      (st st' : Stream N) (x : Exchange slave request (f ∷ e ∷ []) st st')
      (writes : Writes sink (w.write Buffer sink t) request) where
    refuses :
        IsByte f
        → 128 ≤ f
        → e ≢ 0
        → (U : Type 0) (c : Readable U) (out : U)
        → read_response layer c st.transaction_id slave out
            (waiting w t slave request (f ∷ e ∷ []) st st' x writes)
          ≡ returned (record { value = e; category = modbus_category }, out) st'
    refuses b top ne U c out =
        let sent = waiting w t slave request (f ∷ e ∷ []) st st' x writes in
        let size = length-asking w t slave request (f ∷ e ∷ []) st st' x writes in
        read_response-exception layer c out sent (omega (arith, size, x.small))
          (omega (arith, size, x.roomy)) (answer_header slave (f ∷ e ∷ []) st)
          (x.counters.0, x.counters.1, omega arith) st.transaction_id slave x.asked x.headed x.heads
          (passed w t slave request (f ∷ e ∷ []) st st' x writes) (f ∷ e ∷ []) x.ended x.ends refl f
          e b top ne refl
        ∙ ap (returned (record { value = e; category = modbus_category }, out)) (sym x.left)

  abbrev pub laws : StreamLaws ops
  laws = record {
    Exchange = Exchange;
    exchange = λ T w t slave request response s s' x writes. record {
      transaction_id = s.transaction_id;
      sent = waiting w t slave request response s s' x writes;
      wrote =
          write_request-sends layer w t request s writes x.request_fits x.small slave x.sent
            x.sends;
      reads = reads w t slave request response s s' x writes;
    };
  }

  pub exceptions : Exceptions laws (λ e. record { value = e; category = modbus_category })
  exceptions = record {
    exception = λ T w t slave f e request s s' x writes b top ne. record {
      transaction_id = s.transaction_id;
      sent = waiting w t slave request (f ∷ e ∷ []) s s' x writes;
      wrote =
          write_request-sends layer w t request s writes x.request_fits x.small slave x.sent
            x.sends;
      unread = refuses w t slave f e request s s' x writes b top ne;
    };
  }
