-- ===== src/Pdu.antt =====
-- include/mothbus/pdu.h and the headers below include/mothbus/pdu/.
pub mod FunctionCode
pub mod Reader
pub mod Writer
pub mod Codec
pub mod Counted
pub mod ReqReadingCoils
pub mod ReqReadingDiscreteInputs
pub mod ReqReadingRegister
pub mod ReqReadingInputRegister
pub mod ReqWritingSingleCoil
pub mod ReqWritingSingleRegister
pub mod ReqWritingMultipleCoils
pub mod ReqWritingMultipleRegisters
pub mod ReqReadingWritingMultipleRegisters
pub mod Request
pub mod SpanResponse
pub mod RespReadingCoils
pub mod RespReadingDiscreteInputs
pub mod RespReadingRegister
pub mod RespReadingInputRegister
pub mod RespReadingWritingMultipleRegisters
pub mod RespWritingSingleCoil
pub mod RespWritingSingleRegister
pub mod RespWritingMultipleCoils
pub mod RespWritingMultipleRegisters
pub mod Response
