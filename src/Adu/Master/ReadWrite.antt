-- ===== src/Adu/Master/ReadWrite.antt =====
-- The client's function read_write_multiple_registers, from its arrays to the bytes and back.
use mothbus.Base.{
  ℕ, zero, suc, ◌+◌, ◌*◌, ◌≤◌, ◌<◌, ◌≡◌, refl, sym, ap, ◌∙◌, List, [], ◌∷◌, ◌++◌, append-nil, All,
  IsU16, length, length-replicate, replicate, drop, word, words, to_u8, to_u16, arith,
}
use mothbus.Error.{done}
use mathlib.Core.Path.{subst}
use mothbus.Pdu.FunctionCode
use mothbus.Pdu.FunctionCode.{to_byte}
use mothbus.Pdu.SpanResponse.{over}
use mothbus.Pdu.SpanResponse.Laws.{filled, read-Takes}
use mothbus.Pdu.ReqReadingWritingMultipleRegisters
use mothbus.Adu.Buffer.{Buffer, sink}
use mothbus.Adu.Buffer.Queue.{reader_laws}
use mothbus.Adu.Layer.{returned}
use mothbus.Adu.Layer
use mothbus.Adu.Stream.{StreamOps, StreamLaws, Accepts}
use mothbus.Adu.Master.{make_uint16, fill_words, transact, read_write_multiple_registers}
use mothbus.Adu.Master.Reads.{span_readable, transact-Accepts}
use mothbus.Adu.Master.ReadFunctions.{length-words}
use mothbus.Adu.Master.Writes.{copy-resize}

drop-replicate : (k m : ℕ) → drop k (replicate {A = ℕ} (k + m) 0) ≡ replicate m 0
drop-replicate zero m = ap (λ (i : ℕ). replicate i 0) (omega arith)
drop-replicate (suc k) m =
    ap (λ (i : ℕ). drop (suc k) (replicate {A = ℕ} i 0)) {y = suc (k + m)} (omega arith)
    ∙ drop-replicate k m

-- Words that are fewer than the elements of the array, in a buffer of zeros.
fill_words-fewer :
    (out ws : List ℕ) (m : ℕ)
    → length out ≡ length ws + m
    → All IsU16 ws
    → fill_words out (words ws ++ replicate (m * 2) 0) ≡ done (ws ++ replicate m 0)
unfolding fill_words make_uint16
fill_words-fewer [] [] zero e w = refl
fill_words-fewer [] [] (suc m) e w = absurd (omega arith)
fill_words-fewer [] (x ∷ ws) m e w = absurd (omega arith)
fill_words-fewer (o ∷ out) [] zero e w = absurd (omega arith)
fill_words-fewer (o ∷ out) [] (suc m) e w =
    subst (λ (k : ℕ). fill_words (o ∷ out) (replicate k 0) ≡ done (replicate (suc m) 0))
      {x = suc (suc (m * 2))} (omega arith) (rw (fill_words-fewer out [] m (omega arith) tt) refl)
fill_words-fewer (o ∷ out) (x ∷ ws) m e w =
    rw (fill_words-fewer out ws m (omega arith) w.1)
      (ap (λ (v : ℕ). done (v ∷ (ws ++ replicate m 0))) (omega (arith, w.0)))

-- The buffer of the response, when the words have been put into its front.
buffer-words :
    (ws : List ℕ) (m n : ℕ)
    → n ≡ length ws + m
    → words ws ++ (drop (length (words ws)) (replicate (n * 2) 0) ++ [])
      ≡ words ws ++ replicate (m * 2) 0
buffer-words ws m n e =
    ap (λ l. words ws ++ l)
      (append-nil (drop (length (words ws)) (replicate (n * 2) 0))
        ∙ ap (λ (k : ℕ). drop (length (words ws)) (replicate k 0)) {y = length (words ws) + m * 2}
            (omega (arith, length-words ws))
        ∙ drop-replicate (length (words ws)) (m * 2))

module _ {S : Type 0} {ops : StreamOps S} (laws : StreamLaws ops)
    (slave read_address write_address : ℕ) (fits : IsU16 read_address × IsU16 write_address)
    (read_values write_values : List ℕ) (few : length read_values < 65536)
    (short : length write_values ≤ 127) (wide : All IsU16 write_values) (s s' : S) where
  -- The request's bytes.
  abbrev pub request : List ℕ
  request =
      0x17
      ∷ (word read_address
          ++ (word (length read_values)
              ++ (word write_address
                  ++ (word (length write_values)
                      ++ ((length write_values * 2) ∷ words write_values)))))

  abbrev req : ReqReadingWritingMultipleRegisters.ReadWriteMultipleRegistersPduReq
  req = record {
    read_starting_address = read_address;
    read_quantity_of_registers = length read_values;
    write_starting_address = write_address;
    write_quantity_of_registers = length write_values;
    write_byte_count = length write_values * 2;
    values = write_values;
  }

  module _ (ws : List ℕ) (m : ℕ) (n : length read_values ≡ length ws + m) (w : All IsU16 ws) where
    -- The exchange of the PDUs.
    exchanged :
        laws.Exchange slave request (0x17 ∷ (length ws * 2) ∷ words ws) s s'
        → Accepts
            (transact ops ReqReadingWritingMultipleRegisters.writable
              (span_readable FunctionCode.read_write_multiple_registers)
              slave
              req
              (done (over (replicate (length read_values * 2) 0))))
            s
            (filled (over (replicate (length read_values * 2) 0)) (words ws))
            s'
    unfolding to_byte
    exchanged x =
        transact-Accepts laws ReqReadingWritingMultipleRegisters.writable
          (span_readable FunctionCode.read_write_multiple_registers) slave req
          (over (replicate (length read_values * 2) 0))
          (filled (over (replicate (length read_values * 2) 0)) (words ws)) request
          (length (words ws) ∷ words ws) s s'
          (subst (λ (k : ℕ). laws.Exchange slave request (0x17 ∷ k ∷ words ws) s s')
            (sym (length-words ws)) x)
          (ReqReadingWritingMultipleRegisters.write-WritesFormat.writes Buffer sink req
            (fits.0, few, fits.1, omega arith, omega arith, omega arith, wide))
          (omega arith)
          (λ r rest held.
            read-Takes reader_laws (over (replicate (length read_values * 2) 0)) (words ws) r rest
              (omega (arith, length-words ws, length-replicate {A = ℕ} (length read_values * 2) 0))
              held)

    taken :
        Accepts
          (transact ops ReqReadingWritingMultipleRegisters.writable
            (span_readable FunctionCode.read_write_multiple_registers)
            slave
            req
            (done (over (replicate (length read_values * 2) 0))))
          s
          (filled (over (replicate (length read_values * 2) 0)) (words ws))
          s'
        → Accepts
            (read_write_multiple_registers ops slave read_address read_values write_address
              write_values)
            s
            (ws ++ replicate m 0)
            s'
    unfolding read_write_multiple_registers
    taken a =
        let e : to_u16 (length write_values) ≡ length write_values = omega arith in
        let e' : to_u8 (length write_values * 2) ≡ length write_values * 2 = omega arith in
        let e'' : to_u16 (length read_values) ≡ length read_values = omega arith in
        record {
          ec = a.ec;
          succeeded = a.succeeded;
          result = rw (
            e,
            copy-resize write_values,
            e,
            e',
            e'',
            a.result,
            Layer.◌>>=◌,
            a.succeeded,
            buffer-words ws m (length read_values) n,
            fill_words-fewer read_values ws m n w,
          );
        }

    -- Over any stream that keeps the laws: with at most 127 registers to write and fewer than 65536 to
    -- read, when the slave answers with at most as many words as were asked for,
    -- read_write_multiple_registers returns an error code that tests false, and the array holds the
    -- words and behind them zeros.
    pub read_write_multiple_registers-reads :
        laws.Exchange slave request (0x17 ∷ (length ws * 2) ∷ words ws) s s'
        → Accepts
            (read_write_multiple_registers ops slave read_address read_values write_address
              write_values)
            s
            (ws ++ replicate m 0)
            s'
    read_write_multiple_registers-reads x = taken (exchanged x)
