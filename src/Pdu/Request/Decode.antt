-- ===== src/Pdu/Request/Decode.antt =====
-- The reading of a request from any reader: it gives back what was written, and on any other input it
-- reports an unknown function code or an input that ends too early.
use mothbus.Base.{ℕ, ◌≡◌, refl, ◌∙◌, List, ◌∷◌, ◌++◌}
use mothbus.Pdu.Codec.{Readable, Format, ReadsFormat}
use mothbus.Pdu.FunctionCode.{FunctionCode, unnamed, to_byte, from_byte, read_function_code}
use mothbus.Pdu.Reader.{Reader, Read, ok}
use mothbus.Pdu.Reader.Laws.{ReaderLaws, Takes}
use mothbus.Pdu.Request.{
  Request, PduReq, request, alternative, alternatives, read_pdu_variant, read,
}
use mothbus.Pdu.Request.Wire.{encode, IsValid}
use mothbus.Pdu.ReqReadingCoils
use mothbus.Pdu.ReqReadingDiscreteInputs
use mothbus.Pdu.ReqReadingRegister
use mothbus.Pdu.ReqReadingInputRegister
use mothbus.Pdu.ReqWritingSingleCoil
use mothbus.Pdu.ReqWritingSingleRegister
use mothbus.Pdu.ReqWritingMultipleCoils
use mothbus.Pdu.ReqWritingMultipleRegisters
use mothbus.Pdu.ReqReadingWritingMultipleRegisters
use mothbus.Pdu.Request.{
  read_coils, read_discrete_inputs, read_holding, read_input, write_single_coil,
  write_single_register, write_multiple_coils, write_multiple_registers,
  read_write_multiple_registers,
}

module _ {R : Type 0} {rd : Reader R} (laws : ReaderLaws rd) where
  -- Behind a class's function code stands the class.
  hit :
      {T : Type 0} (c : Readable T) (f : Format T) (real : T) (inject : T → Request)
      → ReadsFormat f c real
      → (resp : PduReq) (v : T) (r : R) (rest : List ℕ) → f.IsValid v
      → laws.Holds r (f.encode v ++ rest)
      → Takes laws
          (alternative rd c real inject).read_into
          resp
          r
          (f.encode v)
          rest
          (request (inject v))
  hit c f real inject reads resp v r rest valid held =
      let took = reads.takes R rd laws v r rest valid held in
      record { held = took.held; result = rw took.result }

  pub read_code :
      (b : ℕ) (v : FunctionCode) (r : R) (bs : List ℕ)
      → laws.Holds r (b ∷ bs)
      → read_function_code rd v r ≡ ok (from_byte b) (laws.skip r)
  unfolding read_function_code
  read_code b v r bs held = rw (laws.read_u8-cons 0 r b bs held, read_function_code)

  behind :
      (b : ℕ) (m : Read R PduReq) (resp q : PduReq) (r : R) (xs rest : List ℕ)
      → ((r' : R) → read_pdu_variant (alternatives rd) (from_byte b) resp r' ≡ m resp r')
      → laws.Holds r (b ∷ xs ++ rest)
      → Takes laws m resp (laws.skip r) xs rest q
      → Takes laws (read rd) resp r (b ∷ xs) rest q
  unfolding read
  behind b m resp q r xs rest chosen held took = record {
    held = took.held;
    result =
        rw (read_code b (unnamed 0) r (xs ++ rest) held, read) (chosen (laws.skip r) ∙ took.result);
  }

  -- A valid request is read back from its bytes, whatever follows them and whatever the variant held:
  -- exactly those bytes are taken.
  pub read-encode :
      (q : Request) (resp : PduReq) (r : R) (rest : List ℕ)
      → IsValid q
      → laws.Holds r (encode q ++ rest)
      → Takes laws (read rd) resp r (encode q) rest (request q)
  unfolding read_pdu_variant to_byte from_byte
  read-encode (read_coils v) resp r rest valid held =
      behind _ (alternative rd ReqReadingCoils.readable ReqReadingCoils.empty read_coils).read_into
        resp _ r _ rest (λ r'. refl) held
        (hit ReqReadingCoils.readable ReqReadingCoils.format ReqReadingCoils.empty read_coils
          (ReqReadingCoils.read-ReadsFormat ReqReadingCoils.empty) resp v _ rest valid
          (laws.skip-Holds r _ _ held))
  read-encode (read_discrete_inputs v) resp r rest valid held =
      behind _
        (alternative rd ReqReadingDiscreteInputs.readable ReqReadingDiscreteInputs.empty
          read_discrete_inputs).read_into
        resp _ r _ rest (λ r'. refl) held
        (hit ReqReadingDiscreteInputs.readable ReqReadingDiscreteInputs.format
          ReqReadingDiscreteInputs.empty read_discrete_inputs
          (ReqReadingDiscreteInputs.read-ReadsFormat ReqReadingDiscreteInputs.empty) resp v _ rest
          valid (laws.skip-Holds r _ _ held))
  read-encode (read_holding v) resp r rest valid held =
      behind _
        (alternative rd ReqReadingRegister.readable ReqReadingRegister.empty read_holding).read_into
        resp _ r _ rest (λ r'. refl) held
        (hit ReqReadingRegister.readable ReqReadingRegister.format ReqReadingRegister.empty
          read_holding (ReqReadingRegister.read-ReadsFormat ReqReadingRegister.empty) resp v _ rest
          valid (laws.skip-Holds r _ _ held))
  read-encode (read_input v) resp r rest valid held =
      behind _
        (alternative rd ReqReadingInputRegister.readable ReqReadingInputRegister.empty
          read_input).read_into
        resp _ r _ rest (λ r'. refl) held
        (hit ReqReadingInputRegister.readable ReqReadingInputRegister.format
          ReqReadingInputRegister.empty read_input
          (ReqReadingInputRegister.read-ReadsFormat ReqReadingInputRegister.empty) resp v _ rest
          valid (laws.skip-Holds r _ _ held))
  read-encode (write_single_coil v) resp r rest valid held =
      behind _
        (alternative rd ReqWritingSingleCoil.readable ReqWritingSingleCoil.empty
          write_single_coil).read_into
        resp _ r _ rest (λ r'. refl) held
        (hit ReqWritingSingleCoil.readable ReqWritingSingleCoil.format ReqWritingSingleCoil.empty
          write_single_coil (ReqWritingSingleCoil.read-ReadsFormat ReqWritingSingleCoil.empty) resp
          v _ rest valid (laws.skip-Holds r _ _ held))
  read-encode (write_single_register v) resp r rest valid held =
      behind _
        (alternative rd ReqWritingSingleRegister.readable ReqWritingSingleRegister.empty
          write_single_register).read_into
        resp _ r _ rest (λ r'. refl) held
        (hit ReqWritingSingleRegister.readable ReqWritingSingleRegister.format
          ReqWritingSingleRegister.empty write_single_register
          (ReqWritingSingleRegister.read-ReadsFormat ReqWritingSingleRegister.empty) resp v _ rest
          valid (laws.skip-Holds r _ _ held))
  read-encode (write_multiple_coils v) resp r rest valid held =
      behind _
        (alternative rd ReqWritingMultipleCoils.readable ReqWritingMultipleCoils.empty
          write_multiple_coils).read_into
        resp _ r _ rest (λ r'. refl) held
        (hit ReqWritingMultipleCoils.readable ReqWritingMultipleCoils.format
          ReqWritingMultipleCoils.empty write_multiple_coils
          (ReqWritingMultipleCoils.read-ReadsFormat ReqWritingMultipleCoils.empty) resp v _ rest
          valid (laws.skip-Holds r _ _ held))
  read-encode (write_multiple_registers v) resp r rest valid held =
      behind _
        (alternative rd ReqWritingMultipleRegisters.readable ReqWritingMultipleRegisters.empty
          write_multiple_registers).read_into
        resp _ r _ rest (λ r'. refl) held
        (hit ReqWritingMultipleRegisters.readable ReqWritingMultipleRegisters.format
          ReqWritingMultipleRegisters.empty write_multiple_registers
          (ReqWritingMultipleRegisters.read-ReadsFormat ReqWritingMultipleRegisters.empty) resp v _
          rest valid (laws.skip-Holds r _ _ held))
  read-encode (read_write_multiple_registers v) resp r rest valid held =
      behind _
        (alternative rd ReqReadingWritingMultipleRegisters.readable
          ReqReadingWritingMultipleRegisters.empty read_write_multiple_registers).read_into
        resp _ r _ rest (λ r'. refl) held
        (hit ReqReadingWritingMultipleRegisters.readable ReqReadingWritingMultipleRegisters.format
          ReqReadingWritingMultipleRegisters.empty read_write_multiple_registers
          (ReqReadingWritingMultipleRegisters.read-ReadsFormat
            ReqReadingWritingMultipleRegisters.empty)
          resp v _ rest valid (laws.skip-Holds r _ _ held))
