-- ===== src/Adu/Master/Writes.antt =====
-- What the client's writing functions send, and what they make of the answer.
use mothbus.Base.{
  ℕ, zero, suc, ◌+◌, ◌-◌, ◌*◌, ◌/◌, ◌≤◌, ◌<◌, ◌≡◌, refl, ap, Bool, true, false, List, [], ◌∷◌, ◌++◌,
  append-nil, All, IsU16, length, drop, word, words, to_u8, to_u16, leb_of_le, if◌then◌else◌, inl,
  inr, arith,
}
use mothbus.Error.{done, no_error}
use mothbus.Pdu.Codec.{Readable, Writable}
use mothbus.Pdu.FunctionCode.{to_byte}
use mothbus.Pdu.Reader.{resize}
use mothbus.Pdu.Reader.Laws.{length-resize}
use mothbus.Pdu.ReqWritingSingleCoil
use mothbus.Pdu.ReqWritingMultipleCoils
use mothbus.Pdu.ReqWritingMultipleRegisters
use mothbus.Pdu.RespWritingSingleCoil
use mothbus.Pdu.RespWritingMultipleCoils
use mothbus.Pdu.RespWritingMultipleRegisters
use mothbus.Pdu.Response.Single.{single_coil-Takes, IsCoil}
use mothbus.Pdu.Writer.Laws.{Writes}
use mothbus.Adu.Buffer.{Buffer, reader, sink}
use mothbus.Adu.Buffer.Queue.{reader_laws}
use mothbus.Adu.Layer.{Call, returned, undefined}
use mothbus.Adu.Layer
use mothbus.Adu.Stream.{StreamOps, StreamLaws, TakesFrom}
use mothbus.Adu.Master.{
  copy, pack_bytes, write_and_confirm, write_single_coil, write_multiple_coils,
  write_multiple_registers,
}
use mothbus.Adu.Master.Pack.{length-pack_bytes, pack_bytes-IsByte}
use mothbus.Adu.Master.Reads.{transact-Accepts}

drop_enough : (n : ℕ) (l : List ℕ) → length l ≤ n → drop n l ≡ []
drop_enough zero [] h = refl
drop_enough (suc n) [] h = refl
drop_enough zero (x ∷ l) h = absurd (omega arith)
drop_enough (suc n) (x ∷ l) h = drop_enough n l (omega arith)

-- A vector that was resized to the number of the values is overwritten whole.
pub copy-resize : (values : List ℕ) → copy values (resize (length values) 0 []) ≡ done values
unfolding copy
copy-resize values =
    rw
      (
        leb_of_le (length values) (length (resize (length values) 0 []))
            (omega (arith, length-resize (length values) 0 [])),
        drop_enough (length values) (resize (length values) 0 [])
            (omega (arith, length-resize (length values) 0 [])),
      )
      (ap done (append-nil values))

module _ {S : Type 0} {ops : StreamOps S} (laws : StreamLaws ops) (slave : ℕ) where
  -- A write whose answer the class takes returns no error.
  confirmed :
      {T U : Type 0} (w : Writable T) (c : Readable U) (t : T) (resp u : U) (request xs : List ℕ)
      (s s' : S)
      → laws.Exchange slave request (to_byte c.fc ∷ xs) s s'
      → Writes sink (w.write Buffer sink t) request
      → to_byte c.fc < 128
      → TakesFrom c resp xs u
      → write_and_confirm ops w c slave t (done resp) s ≡ returned no_error s'
  unfolding write_and_confirm
  confirmed w c t resp u request xs s s' x writes small takes =
      let a = transact-Accepts laws w c slave t resp u request xs s s' x writes small takes in
      rw (a.result, write_and_confirm, Layer.◌>>=◌, a.succeeded)

  module _ (address : ℕ) (fits : IsU16 address) (s s' : S) where
    -- Over any stream that keeps the laws: a coil goes out as the address and the word 0xFF00 or
    -- 0x0000; when the slave answers with any address and either word, write_single_coil returns no
    -- error.
    pub write_single_coil-sends :
        (value : Bool) (a v : ℕ)
        → laws.Exchange slave
            (0x05 ∷ (word address ++ word (if value then 0xff00 else 0x0000)))
            (0x05 ∷ (word a ++ word v))
            s
            s'
        → IsU16 a
        → IsCoil v
        → write_single_coil ops slave address value s ≡ returned no_error s'
    unfolding write_single_coil to_byte
    write_single_coil-sends true a v x wa coil =
        confirmed ReqWritingSingleCoil.writable RespWritingSingleCoil.readable
          (record { address = address; value = 0xff00 })
          (record { address = address; value = 0xff00 }) (record { address = a; value = v })
          (0x05 ∷ (word address ++ word 0xff00)) (word a ++ word v) s s' x
          (ReqWritingSingleCoil.write-WritesFormat.writes Buffer sink
            (record { address = address; value = 0xff00 }) ((fits, omega arith), inr refl))
          (omega arith)
          (λ r rest held.
            single_coil-Takes reader_laws _ (record { address = a; value = v }) r rest
              (wa, ground arith) coil held)
    write_single_coil-sends false a v x wa coil =
        confirmed ReqWritingSingleCoil.writable RespWritingSingleCoil.readable
          (record { address = address; value = 0x0000 })
          (record { address = address; value = 0x0000 }) (record { address = a; value = v })
          (0x05 ∷ (word address ++ word 0x0000)) (word a ++ word v) s s' x
          (ReqWritingSingleCoil.write-WritesFormat.writes Buffer sink
            (record { address = address; value = 0x0000 }) ((fits, omega arith), inl refl))
          (omega arith)
          (λ r rest held.
            single_coil-Takes reader_laws _ (record { address = a; value = v }) r rest
              (wa, ground arith) coil held)

    module _ (values : List ℕ) (a q : ℕ) (wa : IsU16 a) (wq : IsU16 q)
        (some : 1 ≤ length values) where
      -- Over any stream that keeps the laws: 1 to 1968 coils go out as the address, their number, the
      -- number of bytes and the packed bytes; when the slave answers with any address and any number,
      -- write_multiple_coils returns no error.
      pub write_multiple_coils-sends :
          length values ≤ 1968
          → laws.Exchange slave
              (0x0f
                ∷ (word address
                    ++ (word (length values)
                        ++ (((length values - 1) / 8 + 1)
                            ∷ pack_bytes ((length values - 1) / 8 + 1) 0 values))))
              (0x0f ∷ (word a ++ word q))
              s
              s'
          → write_multiple_coils ops slave address values s ≡ returned no_error s'
      unfolding write_multiple_coils RespWritingMultipleCoils.resp to_byte
      write_multiple_coils-sends limit x =
          let n = (length values - 1) / 8 + 1 in
          let e : to_u16 (length values) ≡ length values = omega arith in
          let e' : to_u8 n ≡ n = omega arith in
          rw
            (
              leb_of_le 1 (length values) some,
              leb_of_le (length values) 1968 limit,
              e,
              e',
              leb_of_le 1 (length values) some,
              leb_of_le (length values) 1968 limit,
            )
            (confirmed ReqWritingMultipleCoils.writable RespWritingMultipleCoils.readable _ _
              (record { starting_address = a; quantity_of_coils = q }) _ (word a ++ word q) s s' x
              (ReqWritingMultipleCoils.write-WritesFormat.writes Buffer sink _ (
                fits,
                omega arith,
                omega arith,
                length-pack_bytes n 0 values,
                pack_bytes-IsByte n 0 values,
              ))
              (omega arith)
              (λ r rest held.
                (RespWritingMultipleCoils.read-ReadsFormat _).takes Buffer reader reader_laws
                  (record { starting_address = a; quantity_of_coils = q }) r rest (wa, wq) held))

      -- Over any stream that keeps the laws: 1 to 123 registers go out as the address, their number,
      -- twice that number and the words; when the slave answers with any address and any number,
      -- write_multiple_registers returns no error.
      pub write_multiple_registers-sends :
          length values ≤ 123
          → All IsU16 values
          → laws.Exchange slave
              (0x10
                ∷ (word address ++ (word (length values) ++ ((length values * 2) ∷ words values))))
              (0x10 ∷ (word a ++ word q))
              s
              s'
          → write_multiple_registers ops slave address values s ≡ returned no_error s'
      unfolding write_multiple_registers RespWritingMultipleRegisters.resp to_byte
      write_multiple_registers-sends limit w x =
          let e : to_u16 (length values) ≡ length values = omega arith in
          let e' : to_u8 (length values * 2) ≡ length values * 2 = omega arith in
          rw
            (
              e,
              copy-resize values,
              e',
              leb_of_le 1 (length values) some,
              leb_of_le (length values) 123 limit,
            )
            (confirmed ReqWritingMultipleRegisters.writable RespWritingMultipleRegisters.readable _
              _ (record { starting_address = a; quantity_of_registers = q }) _ (word a ++ word q) s
              s' x
              (ReqWritingMultipleRegisters.write-WritesFormat.writes Buffer sink _
                (fits, omega arith, omega arith, omega arith, w))
              (omega arith)
              (λ r rest held.
                (RespWritingMultipleRegisters.read-ReadsFormat _).takes Buffer reader reader_laws
                  (record { starting_address = a; quantity_of_registers = q }) r rest (wa, wq)
                  held))
