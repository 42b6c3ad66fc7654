-- ===== src/Lib.antt =====
-- mothbus: a Modbus library of C++ headers under include/mothbus/, from where the paths below start unless
-- they begin with examples/. A client (adu/master.h) or a server exchanges protocol data units (PDU) with
-- its peer through a stream, which frames them for TCP (adu/tcp.h) or for a serial line (adu/rtu.h,
-- adu/crc.h) and hands the bytes to a layer below.
--
-- error.h: Error.antt has modbus_exception_code, the error category, error_code and make_error_code. It
-- also has Outcome, the end of code that has no error code to return: done, or a Fault, which is an index
-- outside a span, an assert that fails, a variable that is read before it is set, or an exception that the
-- library lets through. Its last constructor, out_of_fuel, stands for no behaviour of the source.
--
-- pdu/reader.h: Pdu/Reader.antt. A byte source is a record of one operation, read_u8, and a read is a
-- function of the object to read into and the source, with the three ends ok, error and fault; each of the
-- first two keeps what was changed before it. MOTH_CHECKED_RETURN is the operator >>. Reader/Laws.antt says
-- what a byte source owes its readers, and Reader/Exact.antt describes reads on any input.
--
-- pdu/writer.h: Pdu/Writer.antt, over a sink that is a record of the operation put. Writer/Laws.antt
-- describes a write by the bytes that it puts.
--
-- pdu.h: function_code is in Pdu/FunctionCode.antt, pdu_req and its reading in Pdu/Request.antt, the exception
-- response and pdu_resp in Pdu/Response.antt. What these templates use of a class is the record Readable or
-- Writable of Pdu/Codec.antt; a Format is an independent description of the bytes of a class.
--
-- pdu/req_*.h: Pdu/Req*.antt, one file per class. pdu/resp_reading_*.h have one text, Pdu/SpanResponse.antt,
-- and one file per class with its function code; pdu/resp_writing_*.h are Pdu/RespWriting*.antt.
--
-- adu/buffer.h: Adu/Buffer.antt, a span with its three indices; its get and put make it a source and a sink.
--
-- adu/tcp.h: Adu/Tcp.antt has mbap_header, parse_header, parse_body, and the synchronous operations of stream
-- as functions of the stream's state. The layer below is a parameter, Adu/Layer.antt: a read of n bytes
-- returns n bytes or throws, a write returns or throws. Tcp/Server.antt has async_read_request and
-- request_read_op as a state machine: a state is what the operation waits for, and a step is the completion of
-- the read that is pending, with the bytes or the error that it brings.
--
-- adu/crc.h: Adu/Crc.antt has the two tables and CRC16. Crc/Linear.antt has the same checksum bit by bit.
--
-- adu/rtu.h: Adu/Rtu.antt has the operations of stream as functions of its state. The serial line and its
-- timer are a parameter, Adu/Timed.antt: of a read and a timer that are both pending, one completes first.
-- The data type Delivers of Rtu/Receive.antt says which bytes come in until the line is silent.
--
-- adu/master.h: Adu/Master.antt has the functions of master_base. The template parameter Stream is the record
-- StreamOps of Adu/Stream.antt, whose laws, StreamLaws, say what a stream does with a request that is
-- answered, and Exceptions what it returns for an exception; Stream/Tcp.antt and Stream/Rtu.antt fill all
-- three from the two streams. Master/Damaged.antt is about a client whose answer was damaged on a serial line.
-- A function returns the caller's array as it is afterwards.
--
-- mothbus.h: Util.antt has memcpy_msb, for either byte order of the machine.
--
-- examples/tcpserver_coroutine_with_data.cpp and examples/tcpserver_coroutine.cpp: the two have the loop of
-- handle_message in common, which is Examples/Loop.antt, with the handler as a parameter.
-- Examples/RegisterServer.antt has the handler of the server with registers, which are an argument, and
-- Examples/ZeroServer.antt that of the other, with what it prints. The reply of RegisterServer/Reply.antt is an
-- independent description of what the former answers. RegisterServer/Updates.antt has the update of all
-- registers that main posts, and Session/Updates.antt a client's queries with updates between them.
--
-- examples/tcpserver.cpp: Examples/TcpServer.antt has the handler, a connection as a state machine over that of
-- Adu/Tcp/Server.antt, and the server. A step of TcpServer/Reachable.antt is one callback of the event loop: the
-- acceptor's, or that of a connection's pending read; any order of them is a run.
--
-- examples/tcpclient.cpp: Examples/TcpClient.antt has what main asks for, and the text that it prints for bytes.
--
-- Examples/Session.antt puts the client and the server with registers at the two ends of a connection: the
-- layer below the client's stream is a state with the server's stream in it. A write of the client, which is
-- one frame, makes the server take one turn; below the server is the layer of Adu/Layer/Wire.antt, on which
-- bytes come in the order in which they were sent. The lookup of Session/Lookup.antt is the abstract
-- view of the two: a query of the client goes to the server's registers. Ready is what both ends keep.
--
-- Integers are natural numbers. A uint8_t and a uint16_t are reduced modulo 2 ^ 8 and 2 ^ 16 where the source
-- converts to them, size_t modulo 2 ^ 64. Words on the wire have the more significant byte first. The loops
-- are over lists but for two: receive_rest of Adu/Rtu.antt, which receives until the line is silent, has as
-- fuel one round more than the message buffer has places. A round that stores a byte takes a place, and a
-- byte for which there is none ends the run, so that many rounds are enough. handle_message has the number of
-- its turns as fuel: where the requests end, one turn more than there are requests is enough.
--
-- The source has names in adu/tcp.h that are not declared (message_length and h in parse_header, and two
-- unbalanced parentheses), and the samples slave and moethbus: they are read as the names that are meant,
-- length, header, unitID and mothbus.
--
-- A variable that was never set is followed to its use, which ends the run with the fault uninitialised: the
-- checksum bytes of adu/rtu.h, and the array of examples/tcpclient.cpp, whose elements hold 256 until a byte is
-- read into them.
--
-- Not modelled: boost::asio below the streams, which the sample programs' main and listener hand sockets to,
-- and boost's parsing of the sample client's command line. What the sample programs print beside their work:
-- the lines that examples/tcpserver.cpp prints for a request, the error code that all three servers print to
-- std::cerr before they leave a connection, and the lines in which the sample client repeats its options. What
-- the handler of examples/tcpserver_coroutine.cpp prints is modelled. The thread that posts the updates of
-- examples/tcpserver_coroutine_with_data.cpp and its pauses of a second; an update runs between two answers,
-- since the handler of a request is not suspended between its test of the registers and its copy of them. A
-- server that uses its stream for something else while the read of a request is pending is outside the state
-- machine. test/ has the repository's tests.
pub mod Base
pub mod Error
pub mod Pdu
pub mod Adu
pub mod Util
pub mod Examples
pub mod Tests
