-- ===== src/Pdu/ReqWritingSingleCoil.antt =====
-- include/mothbus/pdu/req_writing_single_coil.h: the request of write single coil (0x05).
use mothbus.Base.{true, arith, if◌then◌else◌, ℕ, ◌==◌, ◌≡◌, refl, ◌⊎◌, ◌||◌}
use mothbus.Error.{assert, ◌>>=◌}
use mothbus.Pdu.Codec.{
  Readable, Writable, Format, ReadsFormat, WritesFormat, two_words, two_words-takes,
  two_words-exact,
}
use mothbus.Pdu.FunctionCode
use mothbus.Pdu.FunctionCode.{write_function_code}
use mothbus.Pdu.Reader.{Reader, Read, field, read_u16, ◌>>◌}
use mothbus.Pdu.Writer.{Sink, Write, write_u16, ◌>>◌ as ◌>>>◌}
use mothbus.Pdu.Writer.Laws.{byte-Writes, word-Writes, write_u16-Writes}

pub record WriteSingleCoilPduReq : Type 0 where
  pub address : ℕ
  pub value : ℕ

abbrev pub empty : WriteSingleCoilPduReq
empty = record { address = 0; value = 0 }

abbrev pub put_address : ℕ → WriteSingleCoilPduReq → WriteSingleCoilPduReq
put_address x t = record t { address = x }

abbrev pub put_value : ℕ → WriteSingleCoilPduReq → WriteSingleCoilPduReq
put_value x t = record t { value = x }

unfoldable pub read : {R : Type 0} → Reader R → Read R WriteSingleCoilPduReq
read rd = do
  field (λ t. t.address) put_address (read_u16 rd)
  field (λ t. t.value) put_value (read_u16 rd)

unfoldable pub write : {S : Type 0} → Sink S → WriteSingleCoilPduReq → Write S
write sink v s = do
  _ ← assert (v.value == 0x0000 || v.value == 0xff00)
  (write_function_code sink FunctionCode.write_single_coil
        >>> write_u16 sink v.address
        >>> write_u16 sink v.value)
      s

abbrev pub readable : Readable WriteSingleCoilPduReq
readable = record { fc = FunctionCode.write_single_coil; read = λ R rd. read rd }

abbrev pub writable : Writable WriteSingleCoilPduReq
writable = record { write = λ S sink. write sink }

-- Behind the function code stand the two words, in the order of the fields.
abbrev pub format : Format WriteSingleCoilPduReq
format =
    two_words (λ t. t.address) (λ t. t.value) put_address put_value FunctionCode.write_single_coil

-- What `write` lets through: the two values that the protocol has for a coil.
abbrev pub coil_format : Format WriteSingleCoilPduReq
coil_format = record format {
  IsValid = λ v. format.IsValid v × ((v.value ≡ 0x0000) ⊎ (v.value ≡ 0xff00));
}

-- From any object, `read` takes the format.
pub read-ReadsFormat : (t : WriteSingleCoilPduReq) → ReadsFormat format readable t
unfolding read
read-ReadsFormat t = record {
  same_code = refl;
  takes = λ R rd laws v r rest valid held.
      two_words-takes (λ t. t.address) (λ t. t.value) put_address put_value t v refl R rd laws r
        rest valid held;
  exact = λ R rd laws.
      two_words-exact (λ t. t.address) (λ t. t.value) put_address put_value t (λ x y. (refl, refl))
        R rd laws;
}

coil_test : (x : ℕ) → (x ≡ 0x0000) ⊎ (x ≡ 0xff00) → (x == 0x0000 || x == 0xff00) ≡ true
coil_test x h = ground arith

pub write-WritesFormat : WritesFormat coil_format writable
unfolding write write_function_code
write-WritesFormat = record {
  writes = λ S sink v valid s.
      rw (coil_test v.value valid.1, assert, if◌then◌else◌)
        (byte-Writes sink _ _ _ (word-Writes sink v.address _ _ (write_u16-Writes sink v.value)) s);
}
