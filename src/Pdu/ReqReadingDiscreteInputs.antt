-- ===== src/Pdu/ReqReadingDiscreteInputs.antt =====
-- include/mothbus/pdu/req_reading_discrete_inputs.h: the request of read discrete inputs (0x02).
use mothbus.Base.{ℕ, refl}
use mothbus.Pdu.Codec.{
  Readable, Writable, Format, ReadsFormat, WritesFormat, two_words, two_words-takes,
  two_words-exact,
}
use mothbus.Pdu.FunctionCode
use mothbus.Pdu.FunctionCode.{write_function_code}
use mothbus.Pdu.Reader.{Reader, Read, field, read_u16, ◌>>◌}
use mothbus.Pdu.Writer.{Sink, Write, write_u16, ◌>>◌ as ◌>>>◌}
use mothbus.Pdu.Writer.Laws.{byte-Writes, word-Writes, write_u16-Writes}

pub record ReadDiscreteInputsPduReq : Type 0 where
  pub starting_address : ℕ
  pub quantity_of_discrete_inputs : ℕ

abbrev pub empty : ReadDiscreteInputsPduReq
empty = record { starting_address = 0; quantity_of_discrete_inputs = 0 }

abbrev pub put_starting_address : ℕ → ReadDiscreteInputsPduReq → ReadDiscreteInputsPduReq
put_starting_address x t = record t { starting_address = x }

abbrev pub put_quantity_of_discrete_inputs : ℕ → ReadDiscreteInputsPduReq → ReadDiscreteInputsPduReq
put_quantity_of_discrete_inputs x t = record t { quantity_of_discrete_inputs = x }

unfoldable pub read : {R : Type 0} → Reader R → Read R ReadDiscreteInputsPduReq
read rd = do
  field (λ t. t.starting_address) put_starting_address (read_u16 rd)
  field (λ t. t.quantity_of_discrete_inputs) put_quantity_of_discrete_inputs (read_u16 rd)

unfoldable pub write : {S : Type 0} → Sink S → ReadDiscreteInputsPduReq → Write S
write sink v =
    write_function_code sink FunctionCode.read_discrete_inputs
    >>> write_u16 sink v.starting_address
    >>> write_u16 sink v.quantity_of_discrete_inputs

abbrev pub readable : Readable ReadDiscreteInputsPduReq
readable = record { fc = FunctionCode.read_discrete_inputs; read = λ R rd. read rd }

abbrev pub writable : Writable ReadDiscreteInputsPduReq
writable = record { write = λ S sink. write sink }

-- Behind the function code stand the two words, in the order of the fields.
abbrev pub format : Format ReadDiscreteInputsPduReq
format =
    two_words (λ t. t.starting_address) (λ t. t.quantity_of_discrete_inputs) put_starting_address
      put_quantity_of_discrete_inputs FunctionCode.read_discrete_inputs

-- From any object, `read` takes the format.
pub read-ReadsFormat : (t : ReadDiscreteInputsPduReq) → ReadsFormat format readable t
unfolding read
read-ReadsFormat t = record {
  same_code = refl;
  takes = λ R rd laws v r rest valid held.
      two_words-takes (λ t. t.starting_address) (λ t. t.quantity_of_discrete_inputs)
        put_starting_address put_quantity_of_discrete_inputs t v refl R rd laws r rest valid held;
  exact = λ R rd laws.
      two_words-exact (λ t. t.starting_address) (λ t. t.quantity_of_discrete_inputs)
        put_starting_address put_quantity_of_discrete_inputs t (λ x y. (refl, refl)) R rd laws;
}

pub write-WritesFormat : WritesFormat format writable
unfolding write write_function_code
write-WritesFormat = record {
  writes = λ S sink v valid. byte-Writes sink _ _ _ (
      word-Writes sink v.starting_address _ _
        (write_u16-Writes sink v.quantity_of_discrete_inputs));
}
