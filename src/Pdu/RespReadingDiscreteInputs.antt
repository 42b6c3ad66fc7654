-- ===== src/Pdu/RespReadingDiscreteInputs.antt =====
-- include/mothbus/pdu/resp_reading_discrete_inputs.h: the response of read discrete inputs (0x02).
use mothbus.Base.{ℕ, List}
use mothbus.Pdu.Codec.{Readable, Writable}
use mothbus.Pdu.FunctionCode
use mothbus.Pdu.SpanResponse
use mothbus.Pdu.SpanResponse.{SpanPduResp, over}

abbrev pub ReadDiscreteInputsPduResp : Type 0
ReadDiscreteInputsPduResp = SpanPduResp FunctionCode.read_discrete_inputs

-- The constructor.
abbrev pub resp : List ℕ → ReadDiscreteInputsPduResp
resp v = over v

abbrev pub readable : Readable ReadDiscreteInputsPduResp
readable = record { fc = FunctionCode.read_discrete_inputs; read = λ R rd. SpanResponse.read rd }

abbrev pub writable : Writable ReadDiscreteInputsPduResp
writable = record { write = λ S sink. SpanResponse.write sink FunctionCode.read_discrete_inputs }
