-- ===== src/Pdu/FunctionCode.antt =====
-- include/mothbus/pdu.h: function codes, and how they are read and written.
use mothbus.Base.{ℕ, ◌≡◌, Bool, ◌==◌, if◌then◌else◌, arith}
use mothbus.Pdu.Reader.{Reader, Read, ok, error, fault}
use mothbus.Pdu.Writer.{Sink, Write, write_u8}

-- `enum class function_code : uint8_t`. Every byte is a value of it: `unnamed b` is a byte with no
-- enumerator.
pub data FunctionCode : Type 0 where
  read_coils read_discrete_inputs read_holding_registers read_input_registers : FunctionCode
  write_single_coil write_single_register write_multiple_coils : FunctionCode
  write_multiple_registers read_write_multiple_registers : FunctionCode
  unnamed : ℕ → FunctionCode

-- `static_cast<uint8_t>(fc)`
unfoldable pub to_byte : FunctionCode → ℕ
to_byte read_coils = 0x01
to_byte read_discrete_inputs = 0x02
to_byte read_holding_registers = 0x03
to_byte read_input_registers = 0x04
to_byte write_single_coil = 0x05
to_byte write_single_register = 0x06
to_byte write_multiple_coils = 0x0f
to_byte write_multiple_registers = 0x10
to_byte read_write_multiple_registers = 0x17
to_byte (unnamed b) = b

-- `static_cast<function_code>(b)`
unfoldable pub from_byte : ℕ → FunctionCode
from_byte b =
    if b == 0x01
    then read_coils
    else if b == 0x02
    then read_discrete_inputs
    else if b == 0x03
    then read_holding_registers
    else if b == 0x04
    then read_input_registers
    else if b == 0x05
    then write_single_coil
    else if b == 0x06
    then write_single_register
    else if b == 0x0f
    then write_multiple_coils
    else if b == 0x10
    then write_multiple_registers
    else if b == 0x17
    then read_write_multiple_registers
    else unnamed b

pub to_byte-from_byte : (b : ℕ) → to_byte (from_byte b) ≡ b
unfolding to_byte from_byte
to_byte-from_byte b = ground arith

-- Comparing two codes compares their bytes.
unfoldable pub same : FunctionCode → FunctionCode → Bool
unfolding to_byte
same a b = to_byte a == to_byte b

module _ {R : Type 0} (rd : Reader R) where
  unfoldable pub read_function_code : Read R FunctionCode
  unfolding from_byte
  read_function_code v r = elim (rd.read_u8 0 r) [
    | ok h r' ↦ ok (from_byte h) r'
    | error ec _ r' ↦ error ec v r'
    | fault e ↦ fault e
  ]

module _ {S : Type 0} (sink : Sink S) where
  unfoldable pub write_function_code : FunctionCode → Write S
  unfolding to_byte
  write_function_code fc = write_u8 sink (to_byte fc)
