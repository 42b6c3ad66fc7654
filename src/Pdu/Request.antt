-- ===== src/Pdu/Request.antt =====
-- include/mothbus/pdu.h, the requests: the variant of the request classes, and the reading of one by
-- its function code.
pub mod Wire
pub mod Decode
pub mod Total
pub mod Unknown
use mothbus.Base.{ℕ, List, [], ◌∷◌, if◌then◌else◌}
use mothbus.Error.{make_error_code, illegal_function}
use mothbus.Pdu.Codec.{Readable}
use mothbus.Pdu.FunctionCode.{FunctionCode, unnamed, same, read_function_code}
use mothbus.Pdu.Reader.{Reader, Reading, Read, ok, error, fault, return_code}
use mothbus.Pdu.Writer.{Sink, Write}
use mothbus.Pdu.ReqReadingCoils
use mothbus.Pdu.ReqReadingCoils.{ReadCoilsPduReq}
use mothbus.Pdu.ReqReadingDiscreteInputs
use mothbus.Pdu.ReqReadingDiscreteInputs.{ReadDiscreteInputsPduReq}
use mothbus.Pdu.ReqReadingRegister
use mothbus.Pdu.ReqReadingRegister.{ReadHoldingPduReq}
use mothbus.Pdu.ReqReadingInputRegister
use mothbus.Pdu.ReqReadingInputRegister.{ReadInputPduReq}
use mothbus.Pdu.ReqWritingSingleCoil
use mothbus.Pdu.ReqWritingSingleCoil.{WriteSingleCoilPduReq}
use mothbus.Pdu.ReqWritingSingleRegister
use mothbus.Pdu.ReqWritingSingleRegister.{WriteSingleRegisterPduReq}
use mothbus.Pdu.ReqWritingMultipleCoils
use mothbus.Pdu.ReqWritingMultipleCoils.{WriteMultipleCoilsPduReq}
use mothbus.Pdu.ReqWritingMultipleRegisters
use mothbus.Pdu.ReqWritingMultipleRegisters.{WriteMultipleRegistersPduReq}
use mothbus.Pdu.ReqReadingWritingMultipleRegisters
use mothbus.Pdu.ReqReadingWritingMultipleRegisters.{ReadWriteMultipleRegistersPduReq}

-- The classes of the variant that stand for a function code.
pub data Request : Type 0 where
  read_coils : ReadCoilsPduReq → Request
  read_discrete_inputs : ReadDiscreteInputsPduReq → Request
  read_holding : ReadHoldingPduReq → Request
  read_input : ReadInputPduReq → Request
  write_single_coil : WriteSingleCoilPduReq → Request
  write_single_register : WriteSingleRegisterPduReq → Request
  write_multiple_coils : WriteMultipleCoilsPduReq → Request
  write_multiple_registers : WriteMultipleRegistersPduReq → Request
  read_write_multiple_registers : ReadWriteMultipleRegistersPduReq → Request

-- `pdu_req`; `not_implemented` has a function code of its own, which is 0 unless it is set.
pub data PduReq : Type 0 where
  request : Request → PduReq
  not_implemented : ℕ → PduReq

-- One type of the variant's list: its function code, and the reading of it into the variant.
pub record Alternative (R : Type 0) : Type 0 where
  pub fc : FunctionCode
  pub read_into : Read R PduReq

module _ {R : Type 0} (rd : Reader R) where
  -- `Head real{}; MOTH_CHECKED_RETURN(read(reader, real)); resp = real; return{};`
  abbrev pub alternative : {T : Type 0} → Readable T → T → (T → Request) → Alternative R
  alternative c real inject = record {
    fc = c.fc;
    read_into = λ resp r. elim (c.read R rd real r) [
      | ok v r' ↦ ok (request (inject v)) r'
      | error ec _ r' ↦ error ec resp r'
      | fault e ↦ fault e
    ];
  }

  -- The list of types, in the order of the variant's declaration.
  abbrev pub alternatives : List (Alternative R)
  alternatives =
      alternative ReqReadingCoils.readable ReqReadingCoils.empty read_coils
      ∷ alternative ReqReadingDiscreteInputs.readable ReqReadingDiscreteInputs.empty
          read_discrete_inputs
      ∷ alternative ReqReadingRegister.readable ReqReadingRegister.empty read_holding
      ∷ alternative ReqReadingInputRegister.readable ReqReadingInputRegister.empty read_input
      ∷ alternative ReqWritingSingleCoil.readable ReqWritingSingleCoil.empty write_single_coil
      ∷ alternative ReqWritingSingleRegister.readable ReqWritingSingleRegister.empty
          write_single_register
      ∷ alternative ReqWritingMultipleCoils.readable ReqWritingMultipleCoils.empty
          write_multiple_coils
      ∷ alternative ReqWritingMultipleRegisters.readable ReqWritingMultipleRegisters.empty
          write_multiple_registers
      ∷ alternative ReqReadingWritingMultipleRegisters.readable
          ReqReadingWritingMultipleRegisters.empty read_write_multiple_registers
      ∷ []

-- The templates `read_pdu_variant` go down the list; the last type is `not_implemented`.
unfoldable pub read_pdu_variant : {R : Type 0} → List (Alternative R) → FunctionCode → Read R PduReq
unfolding same make_error_code
read_pdu_variant [] function_code resp r =
    return_code (make_error_code illegal_function) (not_implemented 0) r
read_pdu_variant (head ∷ tail) function_code resp r =
    if same head.fc function_code
    then head.read_into resp r
    else read_pdu_variant tail function_code resp r

-- `read(reader, pdu_req&)`
unfoldable pub read : {R : Type 0} → Reader R → Read R PduReq
unfolding read_function_code read_pdu_variant
read rd req r = elim (read_function_code rd (unnamed 0) r) [
  | ok function_code r' ↦ read_pdu_variant (alternatives rd) function_code req r'
  | error ec _ r' ↦ error ec req r'
  | fault e ↦ fault e
]

-- The overloads of `write(writer, const T&)` for the classes.
unfoldable pub write : {S : Type 0} → Sink S → Request → Write S
write sink (read_coils v) = ReqReadingCoils.write sink v
write sink (read_discrete_inputs v) = ReqReadingDiscreteInputs.write sink v
write sink (read_holding v) = ReqReadingRegister.write sink v
write sink (read_input v) = ReqReadingInputRegister.write sink v
write sink (write_single_coil v) = ReqWritingSingleCoil.write sink v
write sink (write_single_register v) = ReqWritingSingleRegister.write sink v
write sink (write_multiple_coils v) = ReqWritingMultipleCoils.write sink v
write sink (write_multiple_registers v) = ReqWritingMultipleRegisters.write sink v
write sink (read_write_multiple_registers v) = ReqReadingWritingMultipleRegisters.write sink v
