-- ===== src/Pdu/Request/Unknown.antt =====
-- What the reading of a request makes of a function code that no class has.
use mothbus.Base.{ℕ, ◌≡◌, ◌≢◌, refl, ==_of_ne, List, [], ◌∷◌, All, if◌then◌else◌}
use mothbus.Error.{make_error_code, illegal_function}
use mothbus.Pdu.FunctionCode.{
  FunctionCode, unnamed, to_byte, from_byte, to_byte-from_byte, same, read_function_code,
}
use mothbus.Pdu.Reader.{Reader, error}
use mothbus.Pdu.Reader.Laws.{ReaderLaws}
use mothbus.Pdu.Request.{
  Request, PduReq, not_implemented, Alternative, alternatives, read_pdu_variant, read, read_coils,
  read_discrete_inputs, read_holding, read_input, write_single_coil, write_single_register,
  write_multiple_coils, write_multiple_registers, read_write_multiple_registers,
}
use mothbus.Pdu.Request.Wire.{code}
use mothbus.Pdu.Request.Decode.{read_code}
use mothbus.Pdu.ReqReadingCoils
use mothbus.Pdu.ReqReadingDiscreteInputs
use mothbus.Pdu.ReqReadingRegister
use mothbus.Pdu.ReqReadingInputRegister
use mothbus.Pdu.ReqWritingSingleCoil
use mothbus.Pdu.ReqWritingSingleRegister
use mothbus.Pdu.ReqWritingMultipleCoils
use mothbus.Pdu.ReqWritingMultipleRegisters
use mothbus.Pdu.ReqReadingWritingMultipleRegisters

variant-refuses :
    {R : Type 0} (alts : List (Alternative R)) (fc : FunctionCode) (resp : PduReq) (r : R)
    → All (λ a. to_byte a.fc ≢ to_byte fc) alts
    → read_pdu_variant alts fc resp r
      ≡ error (make_error_code illegal_function) (not_implemented 0) r
unfolding read_pdu_variant same
variant-refuses [] fc resp r others = refl
variant-refuses (a ∷ alts) fc resp r (other, others) =
    rw (==_of_ne (to_byte a.fc) (to_byte fc) other, if◌then◌else◌)
      (variant-refuses alts fc resp r others)

module _ {R : Type 0} {rd : Reader R} (laws : ReaderLaws rd) (b : ℕ)
    (none : (q : Request) → to_byte (code q) ≢ b) where
  none_has : All (λ a. to_byte a.fc ≢ b) (alternatives rd)
  none_has = (
    none (read_coils ReqReadingCoils.empty),
    (
      none (read_discrete_inputs ReqReadingDiscreteInputs.empty),
      (
        none (read_holding ReqReadingRegister.empty),
        (
          none (read_input ReqReadingInputRegister.empty),
          (
            none (write_single_coil ReqWritingSingleCoil.empty),
            (
              none (write_single_register ReqWritingSingleRegister.empty),
              (
                none (write_multiple_coils ReqWritingMultipleCoils.empty),
                (
                  none (write_multiple_registers ReqWritingMultipleRegisters.empty),
                  (
                    none (read_write_multiple_registers ReqReadingWritingMultipleRegisters.empty),
                    tt,
                  ),
                ),
              ),
            ),
          ),
        ),
      ),
    ),
  )

  pub read-refuses :
      (resp : PduReq) (r : R) (rest : List ℕ)
      → laws.Holds r (b ∷ rest)
      → read rd resp r ≡ error (make_error_code illegal_function) (not_implemented 0) (laws.skip r)
  unfolding read read_function_code
  read-refuses resp r rest held =
      rw (read_code laws b (unnamed 0) r rest held, read)
        (variant-refuses (alternatives rd) (from_byte b) resp (laws.skip r)
          (rw (to_byte-from_byte b) none_has))
