-- ===== src/Pdu/RespReadingInputRegister.antt =====
-- include/mothbus/pdu/resp_reading_input_register.h: the response of read input registers (0x04).
use mothbus.Base.{ℕ, List}
use mothbus.Pdu.Codec.{Readable, Writable}
use mothbus.Pdu.FunctionCode
use mothbus.Pdu.SpanResponse
use mothbus.Pdu.SpanResponse.{SpanPduResp, over}

abbrev pub ReadInputPduResp : Type 0
ReadInputPduResp = SpanPduResp FunctionCode.read_input_registers

-- The constructor.
abbrev pub resp : List ℕ → ReadInputPduResp
resp v = over v

abbrev pub readable : Readable ReadInputPduResp
readable = record { fc = FunctionCode.read_input_registers; read = λ R rd. SpanResponse.read rd }

abbrev pub writable : Writable ReadInputPduResp
writable = record { write = λ S sink. SpanResponse.write sink FunctionCode.read_input_registers }
