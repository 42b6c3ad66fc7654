-- ===== src/Pdu/RespReadingCoils.antt =====
-- include/mothbus/pdu/resp_reading_coils.h: the response of read coils (0x01).
use mothbus.Base.{ℕ, List}
use mothbus.Pdu.Codec.{Readable, Writable}
use mothbus.Pdu.FunctionCode
use mothbus.Pdu.SpanResponse
use mothbus.Pdu.SpanResponse.{SpanPduResp, over}

abbrev pub ReadCoilsPduResp : Type 0
ReadCoilsPduResp = SpanPduResp FunctionCode.read_coils

-- The constructor.
abbrev pub resp : List ℕ → ReadCoilsPduResp
resp v = over v

abbrev pub readable : Readable ReadCoilsPduResp
readable = record { fc = FunctionCode.read_coils; read = λ R rd. SpanResponse.read rd }

abbrev pub writable : Writable ReadCoilsPduResp
writable = record { write = λ S sink. SpanResponse.write sink FunctionCode.read_coils }
