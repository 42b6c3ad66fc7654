-- ===== src/Adu/Master/Exceptions.antt =====
-- What the client's functions make of an exception response.
use mothbus.Base.{
  ℕ, zero, suc, ◌*◌, ◌/◌, ◌≤◌, ◌<◌, ◌≡◌, ◌≢◌, sym, true, false, List, [], ◌∷◌, ◌++◌, append-nil,
  All, IsByte, IsU16, length, length-replicate, replicate, word, words, words-zeros, to_u8, to_u16,
  ==_of_eq, leb_of_le, arith,
}
use mothbus.Error.{ErrorCode, done, failed, no_error}
use mothbus.Pdu.Codec.{Readable, Writable}
use mothbus.Pdu.FunctionCode.{FunctionCode, to_byte}
use mothbus.Pdu.SpanResponse.{over}
use mothbus.Pdu.ReqReadingRegister
use mothbus.Pdu.ReqReadingRegister.{ReadHoldingPduReq}
use mothbus.Pdu.ReqWritingMultipleRegisters
use mothbus.Pdu.RespWritingMultipleRegisters
use mothbus.Adu.Buffer.{Buffer, sink}
use mothbus.Adu.Layer.{returned}
use mothbus.Adu.Layer
use mothbus.Adu.Stream.{StreamOps, StreamLaws, Exceptions, Unread}
use mothbus.Adu.Master.{
  transact, read_span, status, status_of_count, write_and_confirm, read_registers, take_words,
  read_register_words, write_multiple_registers,
}
use mothbus.Adu.Master.Reads.{span_readable, fill_words-words}
use mothbus.Adu.Master.ReadFunctions.{asking}
use mothbus.Adu.Master.Writes.{copy-resize}

zeros-IsU16 : (n : ℕ) → All IsU16 (replicate n 0)
zeros-IsU16 zero = tt
zeros-IsU16 (suc n) = (omega arith, zeros-IsU16 n)

module _ {S : Type 0} (ops : StreamOps S) (slave : ℕ) (ec : ErrorCode) {T : Type 0} (w : Writable T)
    (t : T) (s s' : S) (answer : Unread ops slave ec (ops.write_request T w slave t s) s') where
  transact-unread :
      {U : Type 0} (c : Readable U) (resp : U)
      → transact ops w c slave t (done resp) s ≡ returned (ec, resp) s'
  unfolding transact
  transact-unread {U} c resp = rw (answer.wrote, transact, Layer.◌>>=◌) (answer.unread U c resp)

  pub read_span-unread :
      (fc : FunctionCode) (out : List ℕ)
      → failed ec ≡ true
      → read_span ops w (span_readable fc) slave t (over out) out s ≡ returned (ec, out) s'
  unfolding read_span status_of_count
  read_span-unread fc out bad =
      rw
        (transact-unread (span_readable fc) (over out), read_span, Layer.◌>>=◌, bad, append-nil out)

  -- Without an error the count that the constructor set is the size of the array.
  pub read_span-lost :
      (fc : FunctionCode) (out : List ℕ)
      → failed ec ≡ false
      → length out < 256
      → read_span ops w (span_readable fc) slave t (over out) out s ≡ returned (no_error, out) s'
  unfolding read_span status_of_count
  read_span-lost fc out good small = rw (
    transact-unread (span_readable fc) (over out),
    read_span,
    Layer.◌>>=◌,
    good,
    ==_of_eq (to_u8 (length out)) (length out) (omega arith),
    append-nil out,
  )

  write_and_confirm-unread :
      {U : Type 0} (c : Readable U) (resp : U)
      → write_and_confirm ops w c slave t (done resp) s ≡ returned (status ec) s'
  unfolding write_and_confirm
  write_and_confirm-unread c resp = rw (transact-unread c resp, write_and_confirm, Layer.◌>>=◌)

-- The request of read_registers into an array of words.
abbrev pub words_request : ℕ → List ℕ → ReadHoldingPduReq
words_request address out = record {
  starting_address = address;
  quantity_of_registers = length out;
}

module _ {S : Type 0} (ops : StreamOps S) (slave : ℕ) (ec : ErrorCode) (address : ℕ) (out : List ℕ)
    (small : length out < 65536) (s s' : S)
    (answer : Unread ops slave ec
      (ops.write_request ReadHoldingPduReq ReqReadingRegister.writable slave
        (words_request address out)
        s)
      s') where
  abbrev buffer : List ℕ
  buffer = replicate (length out * 2) 0

  quantity : to_u16 (length buffer / 2) ≡ length out
  quantity = omega (arith, length-replicate {A = ℕ} (length out * 2) 0)

  pub read_register_words-unread :
      failed ec ≡ true → read_register_words ops slave address out s ≡ returned (ec, out) s'
  unfolding read_register_words take_words read_registers
  read_register_words-unread bad = rw (
    quantity,
    read_span-unread ops slave ec ReqReadingRegister.writable (words_request address out) s s'
        answer FunctionCode.read_holding_registers buffer bad,
    Layer.◌>>=◌,
    bad,
  )

  pub read_register_words-unseen :
      failed ec ≡ false
      → length out ≤ 127
      → read_register_words ops slave address out s
        ≡ returned (no_error, replicate (length out) 0) s'
  unfolding read_register_words take_words read_registers
  read_register_words-unseen good few = rw (
    quantity,
    read_span-lost ops slave ec ReqReadingRegister.writable (words_request address out) s s' answer
        FunctionCode.read_holding_registers buffer good
        (omega (arith, length-replicate {A = ℕ} (length out * 2) 0)),
    Layer.◌>>=◌,
    sym (words-zeros (length out)),
    fill_words-words out (replicate (length out) 0) (length-replicate (length out) 0)
        (zeros-IsU16 (length out)),
  )

module _ {S : Type 0} {ops : StreamOps S} {laws : StreamLaws ops} {report : ℕ → ErrorCode}
    (exceptions : Exceptions laws report) (slave f e : ℕ) (byte : IsByte f) (top : 128 ≤ f)
    (ne : e ≢ 0) (address : ℕ) (fits : IsU16 address) (out : List ℕ) (s s' : S) where
  module _ (small : length out < 65536)
      (x : laws.Exchange slave (asking 0x03 address (length out)) (f ∷ e ∷ []) s s') where
    refused :
        Unread ops slave
          (report e)
          (ops.write_request ReadHoldingPduReq ReqReadingRegister.writable slave
            (words_request address out)
            s)
          s'
    unfolding to_byte
    refused =
        exceptions.exception ReadHoldingPduReq ReqReadingRegister.writable
          (words_request address out) slave f e (asking 0x03 address (length out)) s s' x
          (ReqReadingRegister.write-WritesFormat.writes Buffer sink _ (fits, omega arith)) byte top
          ne

    -- Over any stream that reports exceptions: when the request for as many holding registers as the
    -- array has elements, fewer than 65536, is answered by an exception with a code other than 0, and
    -- what is reported tests true, read_registers returns that, and the array stays as it was.
    pub read_register_words-excepted :
        failed (report e) ≡ true
        → read_register_words ops slave address out s ≡ returned (report e, out) s'
    read_register_words-excepted bad =
        read_register_words-unread ops slave (report e) address out small s s' refused bad

    -- Over a stream that reports for an exception an error code that tests false, as the serial one
    -- does: when the request for as many holding registers as the array has elements, at most 127, is
    -- answered by an exception with a code other than 0, read_registers returns no error, and the array
    -- holds zeros.
    pub read_register_words-lost :
        failed (report e) ≡ false
        → length out ≤ 127
        → read_register_words ops slave address out s
          ≡ returned (no_error, replicate (length out) 0) s'
    read_register_words-lost good few =
        read_register_words-unseen ops slave (report e) address out small s s' refused good few

  -- Over any stream that reports exceptions: when a request to write 1 to 123 registers is answered by
  -- an exception with a code other than 0, write_multiple_registers returns what is reported, and no
  -- error where that tests false.
  pub write_multiple_registers-excepted :
      1 ≤ length out
      → length out ≤ 123
      → All IsU16 out
      → laws.Exchange slave
          (0x10 ∷ (word address ++ (word (length out) ++ ((length out * 2) ∷ words out))))
          (f ∷ e ∷ [])
          s
          s'
      → write_multiple_registers ops slave address out s ≡ returned (status (report e)) s'
  unfolding write_multiple_registers RespWritingMultipleRegisters.resp to_byte
  write_multiple_registers-excepted some limit u x =
      let counted : to_u16 (length out) ≡ length out = omega arith in
      let bytes : to_u8 (length out * 2) ≡ length out * 2 = omega arith in
      rw
        (
          counted,
          copy-resize out,
          bytes,
          leb_of_le 1 (length out) some,
          leb_of_le (length out) 123 limit,
        )
        (write_and_confirm-unread ops slave (report e) ReqWritingMultipleRegisters.writable _ s s'
          (exceptions.exception _ ReqWritingMultipleRegisters.writable _ slave f e _ s s' x
            (ReqWritingMultipleRegisters.write-WritesFormat.writes Buffer sink _
              (fits, omega arith, omega arith, omega arith, u))
            byte top ne)
          RespWritingMultipleRegisters.readable _)
