-- ===== src/Adu/Master/Reads.antt =====
-- What the client's reading functions return when the slave answers.
use mothbus.Base.{
  ℕ, zero, suc, ◌≤◌, ◌<◌, ◌≡◌, refl, ap, List, [], ◌∷◌, ◌++◌, append-nil, All, IsU16, length, drop,
  words, ==_of_ne, ==_of_eq, arith,
}
use mothbus.Error.{done, no_error, make_error_code, invalid_response}
use mothbus.Pdu.Codec.{Readable, Writable}
use mothbus.Pdu.FunctionCode.{FunctionCode, to_byte}
use mothbus.Pdu.SpanResponse
use mothbus.Pdu.SpanResponse.{SpanPduResp, over, array}
use mothbus.Pdu.SpanResponse.Laws.{filled, read-Takes}
use mothbus.Pdu.Writer.Laws.{Writes}
use mothbus.Adu.Buffer.{Buffer, sink}
use mothbus.Adu.Buffer.Queue.{reader_laws}
use mothbus.Adu.Layer.{returned, ◌>>=◌}
use mothbus.Adu.Stream.{StreamOps, StreamLaws, Accepts, TakesFrom}
use mothbus.Adu.Master.{make_uint16, fill_words, transact, read_span, status_of_count}

-- What the five classes with a span have in common.
abbrev pub span_readable : (fc : FunctionCode) → Readable (SpanPduResp fc)
span_readable fc = record { fc = fc; read = λ R rd. SpanResponse.read rd }

drop_all : (l : List ℕ) (n : ℕ) → length l ≤ n → drop n l ≡ []
drop_all [] zero h = refl
drop_all [] (suc n) h = refl
drop_all (x ∷ l) zero h = absurd (omega arith)
drop_all (x ∷ l) (suc n) h = drop_all l n (omega arith)

-- The words of a buffer are put together again.
pub fill_words-words :
    (out ws : List ℕ) → length ws ≡ length out → All IsU16 ws → fill_words out (words ws) ≡ done ws
unfolding fill_words make_uint16
fill_words-words [] [] e w = refl
fill_words-words [] (x ∷ ws) e w = absurd (omega arith)
fill_words-words (o ∷ out) [] e w = absurd (omega arith)
fill_words-words (o ∷ out) (x ∷ ws) e w =
    rw (fill_words-words out ws (omega arith) w.1)
      (ap (λ (v : ℕ). done (v ∷ ws)) (omega (arith, w.0)))

module _ {S : Type 0} {ops : StreamOps S} (laws : StreamLaws ops) where
  -- A request that is answered by what the class takes.
  pub transact-Accepts :
      {T U : Type 0} (w : Writable T) (c : Readable U) (slave : ℕ) (t : T) (resp u : U)
      (request xs : List ℕ) (s s' : S)
      → laws.Exchange slave request (to_byte c.fc ∷ xs) s s'
      → Writes sink (w.write Buffer sink t) request
      → to_byte c.fc < 128
      → TakesFrom c resp xs u
      → Accepts (transact ops w c slave t (done resp)) s u s'
  unfolding transact
  transact-Accepts {T} {U} w c slave t resp u request xs s s' x writes small takes =
      let answered = laws.exchange T w t slave request (to_byte c.fc ∷ xs) s s' x writes in
      let accepted = answered.reads U c resp u xs refl small takes in
      record {
        ec = accepted.ec;
        succeeded = accepted.succeeded;
        result = rw (answered.wrote, transact, ◌>>=◌) accepted.result;
      }

  module _ {T : Type 0} (fc : FunctionCode) (w : Writable T) (slave : ℕ) (t : T)
      (out vs request : List ℕ) (s s' : S) (small : to_byte fc < 128)
      (writes : Writes sink (w.write Buffer sink t) request)
      (x : laws.Exchange slave request (to_byte fc ∷ length vs ∷ vs) s s') where
    accepted :
        length vs ≤ length out
        → Accepts
            (transact ops w (span_readable fc) slave t (done (over out)))
            s
            (filled (over out) vs)
            s'
    accepted room =
        transact-Accepts w (span_readable fc) slave t (over out) (filled (over out) vs) request
          (length vs ∷ vs) s s' x writes small
          (λ r rest held. read-Takes reader_laws (over out) vs r rest room held)

    -- As many bytes as the array has elements fill it.
    pub read_span-fills :
        length vs ≡ length out
        → read_span ops w (span_readable fc) slave t (over out) out s ≡ returned (no_error, vs) s'
    unfolding read_span status_of_count
    read_span-fills e =
        let a = accepted (omega arith) in
        rw (
          a.result,
          read_span,
          ◌>>=◌,
          a.succeeded,
          ==_of_eq (length vs) (length out) e,
          drop_all out (length vs) (omega arith),
          append-nil vs,
        )

    -- Fewer bytes are put into the front of the array, and refused.
    pub read_span-too_few :
        length vs < length out
        → read_span ops w (span_readable fc) slave t (over out) out s
          ≡ returned (make_error_code invalid_response, vs ++ drop (length vs) out) s'
    unfolding read_span status_of_count
    read_span-too_few h =
        let a = accepted (omega arith) in
        rw (
          a.result,
          read_span,
          ◌>>=◌,
          a.succeeded,
          ==_of_ne (length vs) (length out) (omega arith),
          append-nil (drop (length vs) out),
        )
