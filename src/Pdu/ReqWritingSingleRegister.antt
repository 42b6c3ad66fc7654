-- ===== src/Pdu/ReqWritingSingleRegister.antt =====
-- include/mothbus/pdu/req_writing_single_register.h: the request of write single register (0x06).
use mothbus.Base.{ℕ, refl}
use mothbus.Pdu.Codec.{
  Readable, Writable, Format, ReadsFormat, WritesFormat, two_words, two_words-takes,
  two_words-exact,
}
use mothbus.Pdu.FunctionCode
use mothbus.Pdu.FunctionCode.{write_function_code}
use mothbus.Pdu.Reader.{Reader, Read, field, read_u16, ◌>>◌}
use mothbus.Pdu.Writer.{Sink, Write, write_u16, ◌>>◌ as ◌>>>◌}
use mothbus.Pdu.Writer.Laws.{byte-Writes, word-Writes, write_u16-Writes}

pub record WriteSingleRegisterPduReq : Type 0 where
  pub address : ℕ
  pub value : ℕ

abbrev pub empty : WriteSingleRegisterPduReq
empty = record { address = 0; value = 0 }

abbrev pub put_address : ℕ → WriteSingleRegisterPduReq → WriteSingleRegisterPduReq
put_address x t = record t { address = x }

abbrev pub put_value : ℕ → WriteSingleRegisterPduReq → WriteSingleRegisterPduReq
put_value x t = record t { value = x }

unfoldable pub read : {R : Type 0} → Reader R → Read R WriteSingleRegisterPduReq
read rd = do
  field (λ t. t.address) put_address (read_u16 rd)
  field (λ t. t.value) put_value (read_u16 rd)

unfoldable pub write : {S : Type 0} → Sink S → WriteSingleRegisterPduReq → Write S
write sink v =
    write_function_code sink FunctionCode.write_single_register
    >>> write_u16 sink v.address
    >>> write_u16 sink v.value

abbrev pub readable : Readable WriteSingleRegisterPduReq
readable = record { fc = FunctionCode.write_single_register; read = λ R rd. read rd }

abbrev pub writable : Writable WriteSingleRegisterPduReq
writable = record { write = λ S sink. write sink }

-- Behind the function code stand the two words, in the order of the fields.
abbrev pub format : Format WriteSingleRegisterPduReq
format =
    two_words (λ t. t.address) (λ t. t.value) put_address put_value
      FunctionCode.write_single_register

-- From any object, `read` takes the format.
pub read-ReadsFormat : (t : WriteSingleRegisterPduReq) → ReadsFormat format readable t
unfolding read
read-ReadsFormat t = record {
  same_code = refl;
  takes = λ R rd laws v r rest valid held.
      two_words-takes (λ t. t.address) (λ t. t.value) put_address put_value t v refl R rd laws r
        rest valid held;
  exact = λ R rd laws.
      two_words-exact (λ t. t.address) (λ t. t.value) put_address put_value t (λ x y. (refl, refl))
        R rd laws;
}

pub write-WritesFormat : WritesFormat format writable
unfolding write write_function_code
write-WritesFormat = record {
  writes = λ S sink v valid.
      byte-Writes sink _ _ _ (word-Writes sink v.address _ _ (write_u16-Writes sink v.value));
}
