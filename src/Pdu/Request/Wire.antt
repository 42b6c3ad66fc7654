-- ===== src/Pdu/Request/Wire.antt =====
-- The format of the requests: the function code, then the bytes of the class.
use mothbus.Base.{ℕ, ◌≡◌, ◌⊎◌, List, ◌∷◌}
use mothbus.Pdu.FunctionCode.{FunctionCode, to_byte}
use mothbus.Pdu.Writer.{Sink}
use mothbus.Pdu.Writer.Laws.{Writes}
use mothbus.Pdu.ReqReadingCoils
use mothbus.Pdu.ReqReadingDiscreteInputs
use mothbus.Pdu.ReqReadingRegister
use mothbus.Pdu.ReqReadingInputRegister
use mothbus.Pdu.ReqWritingSingleCoil
use mothbus.Pdu.ReqWritingSingleRegister
use mothbus.Pdu.ReqWritingMultipleCoils
use mothbus.Pdu.ReqWritingMultipleRegisters
use mothbus.Pdu.ReqReadingWritingMultipleRegisters
use mothbus.Pdu.Request.{
  Request, write, read_coils, read_discrete_inputs, read_holding, read_input, write_single_coil,
  write_single_register, write_multiple_coils, write_multiple_registers,
  read_write_multiple_registers,
}

abbrev pub code : Request → FunctionCode
code (read_coils v) = ReqReadingCoils.format.fc
code (read_discrete_inputs v) = ReqReadingDiscreteInputs.format.fc
code (read_holding v) = ReqReadingRegister.format.fc
code (read_input v) = ReqReadingInputRegister.format.fc
code (write_single_coil v) = ReqWritingSingleCoil.format.fc
code (write_single_register v) = ReqWritingSingleRegister.format.fc
code (write_multiple_coils v) = ReqWritingMultipleCoils.format.fc
code (write_multiple_registers v) = ReqWritingMultipleRegisters.format.fc
code (read_write_multiple_registers v) = ReqReadingWritingMultipleRegisters.format.fc

abbrev pub body : Request → List ℕ
body (read_coils v) = ReqReadingCoils.format.encode v
body (read_discrete_inputs v) = ReqReadingDiscreteInputs.format.encode v
body (read_holding v) = ReqReadingRegister.format.encode v
body (read_input v) = ReqReadingInputRegister.format.encode v
body (write_single_coil v) = ReqWritingSingleCoil.format.encode v
body (write_single_register v) = ReqWritingSingleRegister.format.encode v
body (write_multiple_coils v) = ReqWritingMultipleCoils.format.encode v
body (write_multiple_registers v) = ReqWritingMultipleRegisters.format.encode v
body (read_write_multiple_registers v) = ReqReadingWritingMultipleRegisters.format.encode v

abbrev pub encode : Request → List ℕ
encode q = to_byte (code q) ∷ body q

-- The fields fit their types, and a vector has as many elements as its byte count stands for.
abbrev pub IsValid : Request → Type 0
IsValid (read_coils v) = ReqReadingCoils.format.IsValid v
IsValid (read_discrete_inputs v) = ReqReadingDiscreteInputs.format.IsValid v
IsValid (read_holding v) = ReqReadingRegister.format.IsValid v
IsValid (read_input v) = ReqReadingInputRegister.format.IsValid v
IsValid (write_single_coil v) = ReqWritingSingleCoil.format.IsValid v
IsValid (write_single_register v) = ReqWritingSingleRegister.format.IsValid v
IsValid (write_multiple_coils v) = ReqWritingMultipleCoils.format.IsValid v
IsValid (write_multiple_registers v) = ReqWritingMultipleRegisters.format.IsValid v
IsValid (read_write_multiple_registers v) = ReqReadingWritingMultipleRegisters.format.IsValid v

-- What the assertion of `write` for a single coil asks for.
abbrev pub IsWritable : Request → Type 0
IsWritable (write_single_coil v) = (v.value ≡ 0x0000) ⊎ (v.value ≡ 0xff00)
IsWritable _ = Unit

-- Into any sink `write` puts the bytes of the request's format, in order, and nothing else.
pub write-encode :
    {S : Type 0} (sink : Sink S) (q : Request)
    → IsValid q
    → IsWritable q
    → Writes sink (write sink q) (encode q)
unfolding write
write-encode {S} sink (read_coils v) h k = ReqReadingCoils.write-WritesFormat.writes S sink v h
write-encode {S} sink (read_discrete_inputs v) h k =
    ReqReadingDiscreteInputs.write-WritesFormat.writes S sink v h
write-encode {S} sink (read_holding v) h k = ReqReadingRegister.write-WritesFormat.writes S sink v h
write-encode {S} sink (read_input v) h k =
    ReqReadingInputRegister.write-WritesFormat.writes S sink v h
write-encode {S} sink (write_single_coil v) h k =
    ReqWritingSingleCoil.write-WritesFormat.writes S sink v (h, k)
write-encode {S} sink (write_single_register v) h k =
    ReqWritingSingleRegister.write-WritesFormat.writes S sink v h
write-encode {S} sink (write_multiple_coils v) h k =
    ReqWritingMultipleCoils.write-WritesFormat.writes S sink v h
write-encode {S} sink (write_multiple_registers v) h k =
    ReqWritingMultipleRegisters.write-WritesFormat.writes S sink v h
write-encode {S} sink (read_write_multiple_registers v) h k =
    ReqReadingWritingMultipleRegisters.write-WritesFormat.writes S sink v h
