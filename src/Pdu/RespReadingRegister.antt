-- ===== src/Pdu/RespReadingRegister.antt =====
-- include/mothbus/pdu/resp_reading_register.h: the response of read holding registers (0x03).
use mothbus.Base.{ℕ, List}
use mothbus.Pdu.Codec.{Readable, Writable}
use mothbus.Pdu.FunctionCode
use mothbus.Pdu.SpanResponse
use mothbus.Pdu.SpanResponse.{SpanPduResp, over}

abbrev pub ReadHoldingPduResp : Type 0
ReadHoldingPduResp = SpanPduResp FunctionCode.read_holding_registers

-- The constructor.
abbrev pub resp : List ℕ → ReadHoldingPduResp
resp v = over v

abbrev pub readable : Readable ReadHoldingPduResp
readable = record { fc = FunctionCode.read_holding_registers; read = λ R rd. SpanResponse.read rd }

abbrev pub writable : Writable ReadHoldingPduResp
writable = record { write = λ S sink. SpanResponse.write sink FunctionCode.read_holding_registers }
