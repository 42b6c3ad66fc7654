-- ===== src/Pdu/RespReadingWritingMultipleRegisters.antt =====
-- include/mothbus/pdu/resp_reading_writing_multiple_registers.h: the response of read/write multiple registers (0x17).
use mothbus.Base.{ℕ, List}
use mothbus.Pdu.Codec.{Readable, Writable}
use mothbus.Pdu.FunctionCode
use mothbus.Pdu.SpanResponse
use mothbus.Pdu.SpanResponse.{SpanPduResp, over}

abbrev pub ReadWriteMultipleRegistersPduResp : Type 0
ReadWriteMultipleRegistersPduResp = SpanPduResp FunctionCode.read_write_multiple_registers

-- The constructor.
abbrev pub resp : List ℕ → ReadWriteMultipleRegistersPduResp
resp v = over v

abbrev pub readable : Readable ReadWriteMultipleRegistersPduResp
readable = record {
  fc = FunctionCode.read_write_multiple_registers;
  read = λ R rd. SpanResponse.read rd;
}

abbrev pub writable : Writable ReadWriteMultipleRegistersPduResp
writable = record {
  write = λ S sink. SpanResponse.write sink FunctionCode.read_write_multiple_registers;
}
