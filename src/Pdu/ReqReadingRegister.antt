-- ===== src/Pdu/ReqReadingRegister.antt =====
-- include/mothbus/pdu/req_reading_register.h: the request of read holding registers (0x03).
use mothbus.Base.{ℕ, refl}
use mothbus.Pdu.Codec.{
  Readable, Writable, Format, ReadsFormat, WritesFormat, two_words, two_words-takes,
  two_words-exact,
}
use mothbus.Pdu.FunctionCode
use mothbus.Pdu.FunctionCode.{write_function_code}
use mothbus.Pdu.Reader.{Reader, Read, field, read_u16, ◌>>◌}
use mothbus.Pdu.Writer.{Sink, Write, write_u16, ◌>>◌ as ◌>>>◌}
use mothbus.Pdu.Writer.Laws.{byte-Writes, word-Writes, write_u16-Writes}

pub record ReadHoldingPduReq : Type 0 where
  pub starting_address : ℕ
  pub quantity_of_registers : ℕ

abbrev pub empty : ReadHoldingPduReq
empty = record { starting_address = 0; quantity_of_registers = 0 }

abbrev pub put_starting_address : ℕ → ReadHoldingPduReq → ReadHoldingPduReq
put_starting_address x t = record t { starting_address = x }

abbrev pub put_quantity_of_registers : ℕ → ReadHoldingPduReq → ReadHoldingPduReq
put_quantity_of_registers x t = record t { quantity_of_registers = x }

unfoldable pub read : {R : Type 0} → Reader R → Read R ReadHoldingPduReq
read rd = do
  field (λ t. t.starting_address) put_starting_address (read_u16 rd)
  field (λ t. t.quantity_of_registers) put_quantity_of_registers (read_u16 rd)

unfoldable pub write : {S : Type 0} → Sink S → ReadHoldingPduReq → Write S
write sink v =
    write_function_code sink FunctionCode.read_holding_registers
    >>> write_u16 sink v.starting_address
    >>> write_u16 sink v.quantity_of_registers

abbrev pub readable : Readable ReadHoldingPduReq
readable = record { fc = FunctionCode.read_holding_registers; read = λ R rd. read rd }

abbrev pub writable : Writable ReadHoldingPduReq
writable = record { write = λ S sink. write sink }

-- Behind the function code stand the two words, in the order of the fields.
abbrev pub format : Format ReadHoldingPduReq
format =
    two_words (λ t. t.starting_address) (λ t. t.quantity_of_registers) put_starting_address
      put_quantity_of_registers FunctionCode.read_holding_registers

-- From any object, `read` takes the format.
pub read-ReadsFormat : (t : ReadHoldingPduReq) → ReadsFormat format readable t
unfolding read
read-ReadsFormat t = record {
  same_code = refl;
  takes = λ R rd laws v r rest valid held.
      two_words-takes (λ t. t.starting_address) (λ t. t.quantity_of_registers) put_starting_address
        put_quantity_of_registers t v refl R rd laws r rest valid held;
  exact = λ R rd laws.
      two_words-exact (λ t. t.starting_address) (λ t. t.quantity_of_registers) put_starting_address
        put_quantity_of_registers t (λ x y. (refl, refl)) R rd laws;
}

pub write-WritesFormat : WritesFormat format writable
unfolding write write_function_code
write-WritesFormat = record {
  writes = λ S sink v valid.
      byte-Writes sink _ _ _
        (word-Writes sink v.starting_address _ _ (write_u16-Writes sink v.quantity_of_registers));
}
