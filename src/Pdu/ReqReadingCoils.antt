-- ===== src/Pdu/ReqReadingCoils.antt =====
-- include/mothbus/pdu/req_reading_coils.h: the request of read coils (0x01).
use mothbus.Base.{ℕ, refl}
use mothbus.Pdu.Codec.{
  Readable, Writable, Format, ReadsFormat, WritesFormat, two_words, two_words-takes,
  two_words-exact,
}
use mothbus.Pdu.FunctionCode
use mothbus.Pdu.FunctionCode.{write_function_code}
use mothbus.Pdu.Reader.{Reader, Read, field, read_u16, ◌>>◌}
use mothbus.Pdu.Writer.{Sink, Write, write_u16, ◌>>◌ as ◌>>>◌}
use mothbus.Pdu.Writer.Laws.{byte-Writes, word-Writes, write_u16-Writes}

pub record ReadCoilsPduReq : Type 0 where
  pub starting_address : ℕ
  pub quantity_of_coils : ℕ

abbrev pub empty : ReadCoilsPduReq
empty = record { starting_address = 0; quantity_of_coils = 0 }

abbrev pub put_starting_address : ℕ → ReadCoilsPduReq → ReadCoilsPduReq
put_starting_address x t = record t { starting_address = x }

abbrev pub put_quantity_of_coils : ℕ → ReadCoilsPduReq → ReadCoilsPduReq
put_quantity_of_coils x t = record t { quantity_of_coils = x }

unfoldable pub read : {R : Type 0} → Reader R → Read R ReadCoilsPduReq
read rd = do
  field (λ t. t.starting_address) put_starting_address (read_u16 rd)
  field (λ t. t.quantity_of_coils) put_quantity_of_coils (read_u16 rd)

unfoldable pub write : {S : Type 0} → Sink S → ReadCoilsPduReq → Write S
write sink v =
    write_function_code sink FunctionCode.read_coils
    >>> write_u16 sink v.starting_address
    >>> write_u16 sink v.quantity_of_coils

abbrev pub readable : Readable ReadCoilsPduReq
readable = record { fc = FunctionCode.read_coils; read = λ R rd. read rd }

abbrev pub writable : Writable ReadCoilsPduReq
writable = record { write = λ S sink. write sink }

-- Behind the function code stand the two words, in the order of the fields.
abbrev pub format : Format ReadCoilsPduReq
format =
    two_words (λ t. t.starting_address) (λ t. t.quantity_of_coils) put_starting_address
      put_quantity_of_coils FunctionCode.read_coils

-- From any object, `read` takes the format.
pub read-ReadsFormat : (t : ReadCoilsPduReq) → ReadsFormat format readable t
unfolding read
read-ReadsFormat t = record {
  same_code = refl;
  takes = λ R rd laws v r rest valid held.
      two_words-takes (λ t. t.starting_address) (λ t. t.quantity_of_coils) put_starting_address
        put_quantity_of_coils t v refl R rd laws r rest valid held;
  exact = λ R rd laws.
      two_words-exact (λ t. t.starting_address) (λ t. t.quantity_of_coils) put_starting_address
        put_quantity_of_coils t (λ x y. (refl, refl)) R rd laws;
}

pub write-WritesFormat : WritesFormat format writable
unfolding write write_function_code
write-WritesFormat = record {
  writes = λ S sink v valid.
      byte-Writes sink _ _ _
        (word-Writes sink v.starting_address _ _ (write_u16-Writes sink v.quantity_of_coils));
}
