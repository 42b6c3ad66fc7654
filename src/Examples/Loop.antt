-- ===== src/Examples/Loop.antt =====
-- The loop that examples/tcpserver_coroutine_with_data.cpp and examples/tcpserver_coroutine.cpp have in
-- common, with the handler of requests as a parameter. The error code of a request that cannot be read is printed
-- to std::cerr there, which is left out.
pub mod Turn
pub mod Reply
use mothbus.Base.{zero, suc, ℕ, ◌-◌, Bool, true, false, ◌&&◌, not, leb, if◌then◌else◌, List, length}
use mothbus.Error.{ModbusExceptionCode, request_too_big, done, out_of_fuel}
use mothbus.Error
use mothbus.Pdu.FunctionCode.{FunctionCode, from_byte}
use mothbus.Pdu.Reader.{ok, error, fault}
use mothbus.Pdu.Request.{PduReq, request, not_implemented, read_coils}
use mothbus.Pdu.Request.Wire.{code}
use mothbus.Pdu.ReqReadingCoils
use mothbus.Pdu.Response
use mothbus.Adu.Buffer.{Buffer, buffer, prepare, store}
use mothbus.Adu.Layer.{Call, Layer, returned, threw, undefined}
use mothbus.Adu.Tcp.{Stream, header_size, write_response, parse_header, parse_body}

-- `req.fc`
abbrev pub request_code : PduReq → FunctionCode
request_code (request q) = code q
request_code (not_implemented fc) = from_byte fc

-- What the variant `request` holds at first.
abbrev pub fresh : PduReq
fresh = request (read_coils ReqReadingCoils.empty)

-- The end of a turn behind which there is another one.
abbrev pub go_on : {S : Type 0} → Call S (Unit {0}) → Call S Bool
go_on c = elim c [
  | returned _ s ↦ returned true s
  | threw ec s ↦ threw ec s
  | undefined e ↦ undefined e
]

module _ {N : Type 0} (layer : Layer N) where
  unfoldable pub write_exception_response :
      FunctionCode → ModbusExceptionCode → ℕ → ℕ → Stream N → Call (Stream N) (Unit {0})
  unfolding write_response
  write_exception_response fc ec transaction_id unit_id =
      write_response layer Response.writable transaction_id unit_id
        (record { fc = fc; exception_code = ec })

  -- `co_await async_read(socket, source.prepare(n), use_awaitable)`
  unfoldable pub await_read : ℕ → Buffer → N → Call N (ℕ × Buffer)
  unfolding prepare store
  await_read n source s = elim (layer.read n s) [
    | returned bytes s' ↦ elim (store (prepare n source) bytes source) [
      | done b ↦ returned (length bytes, b) s'
      | Error.fault e ↦ undefined e
    ]
    | threw ec s' ↦ threw ec s'
    | undefined e ↦ undefined e
  ]

  -- One turn of the loop of `handle_message`, and whether there is another one. `handler` is what
  -- `std::visit` does with the request. The condition of the guard is as it stands: the negation covers
  -- only its first half.
  unfoldable pub turn :
      (PduReq → ℕ → ℕ → Stream N → Call (Stream N) (Unit {0}))
      → List ℕ
      → Stream N
      → Call (Stream N) Bool
  unfolding await_read parse_header parse_body write_exception_response
  turn handler message st = elim (await_read header_size (buffer message) st.next_layer) [
    | returned (read_size, source) s ↦ elim (parse_header source read_size) [
      | done (h, source') ↦
          if not (leb 2 h.length) && leb h.length 254
          then go_on (
              write_exception_response (from_byte 0) request_too_big h.transaction_id h.unit_id
                (record st { next_layer = s }))
          else elim (await_read (h.length - 1) source' s) [
            | returned (read_size', source'') s' ↦ elim (parse_body source'' read_size' fresh) [
              | ok req' _ ↦
                  go_on (handler req' h.transaction_id h.unit_id (record st { next_layer = s' }))
              | error _ _ _ ↦ returned false (record st { next_layer = s' })
              | fault e ↦ undefined e
            ]
            | threw ec s' ↦ threw ec (record st { next_layer = s' })
            | undefined e ↦ undefined e
          ]
      | Error.fault e ↦ undefined e
    ]
    | threw ec s ↦ threw ec (record st { next_layer = s })
    | undefined e ↦ undefined e
  ]

  -- `for (;;)`, with a bound on the number of turns.
  unfoldable pub turns :
      (PduReq → ℕ → ℕ → Stream N → Call (Stream N) (Unit {0}))
      → List ℕ
      → ℕ
      → Stream N
      → Call (Stream N) (Unit {0})
  unfolding turn
  turns handler message zero st = undefined out_of_fuel
  turns handler message (suc n) st = elim (turn handler message st) [
    | returned true st' ↦ turns handler message n st'
    | returned false st' ↦ returned tt st'
    | threw ec st' ↦ threw ec st'
    | undefined e ↦ undefined e
  ]
