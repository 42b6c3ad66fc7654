-- ===== src/Pdu/RespWritingSingleRegister.antt =====
-- include/mothbus/pdu/resp_writing_single_register.h: the response of write single register (0x06).
use mothbus.Base.{ℕ, ◌==◌, ◌||◌, if◌then◌else◌}
use mothbus.Error.{Outcome, done, make_error_code, illegal_data_value}
use mothbus.Pdu.Codec.{Readable, Writable, Format, WritesFormat, two_words}
use mothbus.Pdu.FunctionCode
use mothbus.Pdu.FunctionCode.{write_function_code}
use mothbus.Pdu.Reader.{Reader, Read, ok, field, return_code, read_u16, ◌>>◌}
use mothbus.Pdu.Writer.{Sink, Write, write_u16, ◌>>◌ as ◌>>>◌}
use mothbus.Pdu.Writer.Laws.{byte-Writes, word-Writes, write_u16-Writes}

pub record WriteSingleRegisterPduResp : Type 0 where
  pub address : ℕ
  pub value : ℕ

abbrev pub put_address : ℕ → WriteSingleRegisterPduResp → WriteSingleRegisterPduResp
put_address x t = record t { address = x }

abbrev pub put_value : ℕ → WriteSingleRegisterPduResp → WriteSingleRegisterPduResp
put_value x t = record t { value = x }

-- The constructor.
unfoldable pub resp : ℕ → ℕ → Outcome WriteSingleRegisterPduResp
resp address value = done (record { address = address; value = value })

-- The test of the value at the end of `read`.
unfoldable pub check_value : {R : Type 0} → Read R WriteSingleRegisterPduResp
unfolding make_error_code
check_value resp r =
    if resp.value == 0x0000 || resp.value == 0xff00
    then ok resp r
    else return_code (make_error_code illegal_data_value) resp r

unfoldable pub read : {R : Type 0} → Reader R → Read R WriteSingleRegisterPduResp
read rd = do
  field (λ t. t.address) put_address (read_u16 rd)
  field (λ t. t.value) put_value (read_u16 rd)
  check_value

unfoldable pub write : {S : Type 0} → Sink S → WriteSingleRegisterPduResp → Write S
write sink v =
    write_function_code sink FunctionCode.write_single_register
    >>> write_u16 sink v.address
    >>> write_u16 sink v.value

abbrev pub readable : Readable WriteSingleRegisterPduResp
readable = record { fc = FunctionCode.write_single_register; read = λ R rd. read rd }

abbrev pub writable : Writable WriteSingleRegisterPduResp
writable = record { write = λ S sink. write sink }

-- Behind the function code stand the two words, in the order of the fields.
abbrev pub format : Format WriteSingleRegisterPduResp
format =
    two_words (λ t. t.address) (λ t. t.value) put_address put_value
      FunctionCode.write_single_register

pub write-WritesFormat : WritesFormat format writable
unfolding write write_function_code
write-WritesFormat = record {
  writes = λ S sink v valid.
      byte-Writes sink _ _ _ (word-Writes sink v.address _ _ (write_u16-Writes sink v.value));
}
