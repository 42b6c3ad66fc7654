-- ===== src/Adu/Tcp/Server.antt =====
-- include/mothbus/adu/tcp.h: `async_read_request` and `request_read_op`, the reading of a request by a server.
-- The operation goes on when the one read that is pending completes. Until the callback is called, nothing
-- else uses the message buffer.
pub mod Header
pub mod Safe
pub mod Verdict
pub mod Reply
use mothbus.Base.{
  ℕ, zero, suc, ◌-◌, ◌≡◌, ◌≤◌, ◌<◌, not, if◌then◌else◌, true, List, IsByte, All, length,
}
use mothbus.Error.{
  ErrorCode, Outcome, done, fault, no_error, failed, make_error_code, request_too_big, ◌>>=◌,
}
use mothbus.Pdu.Reader
use mothbus.Pdu.Request.{PduReq}
use mothbus.Adu.Buffer.{Buffer, Region, buffer, prepare, store}
use mothbus.Adu.Tcp.{MbapHeader, header_size, is_valid_length, parse_header, parse_body}

-- `request_read_op`, with the request that it refers to.
pub record RequestReadOp : Type 0 where
  pub source : Buffer
  pub request : PduReq
  pub transaction_id : ℕ
  pub protocol : ℕ
  pub length : ℕ
  pub slave : ℕ

-- The arguments of a call of the callback.
pub record Callback : Type 0 where
  pub transaction_id : ℕ
  pub slave : ℕ
  pub ec : ErrorCode

-- What the operation waits for: the header, the body, or nothing more, since the callback was called.
pub data State : Type 0 where
  reading_header : RequestReadOp → State
  reading_body : RequestReadOp → State
  called_back : Callback → RequestReadOp → State

-- How a pending read ends: its region is full, or an error came after some bytes.
pub data Completion : Type 0 where
  filled : List ℕ → Completion
  broken : ErrorCode → List ℕ → Completion

-- The size of the region that the pending read is to fill.
abbrev pub wanted : State → ℕ
wanted (reading_header op) = header_size
wanted (reading_body op) = op.length - 1
wanted (called_back call op) = 0

-- `op.callback(0, 0, ec)`
abbrev pub gives_up : ErrorCode → RequestReadOp → State
gives_up ec op = called_back (record { transaction_id = 0; slave = 0; ec = ec }) op

-- `async_read_request`
abbrev pub async_read_request : List ℕ → PduReq → State
async_read_request message req = reading_header (record {
  source = buffer message;
  request = req;
  transaction_id = 0;
  protocol = 0;
  length = 0;
  slave = 0;
})

-- `request_read_op::parse_header`
unfoldable pub on_header : ℕ → RequestReadOp → Outcome State
unfolding parse_header is_valid_length make_error_code
on_header size op = do
  (header, source) ← parse_header op.source size
  if not (is_valid_length header)
      then done (gives_up (make_error_code request_too_big) (record op { source = source }))
      else done (
          reading_body (record op {
            source = source;
            transaction_id = header.transaction_id;
            protocol = header.protocol;
            length = header.length;
            slave = header.unit_id;
          }))

-- `request_read_op::parse_body`
unfoldable pub on_body : ℕ → RequestReadOp → Outcome State
unfolding parse_body
on_body size op = elim (parse_body op.source size op.request) [
  | Reader.ok req source ↦ done (
      called_back (record { transaction_id = op.transaction_id; slave = op.slave; ec = no_error })
        (record op { source = source; request = req }))
  | Reader.error ec req source ↦ done (
      called_back (record { transaction_id = op.transaction_id; slave = op.slave; ec = ec })
        (record op { source = source; request = req }))
  | Reader.fault e ↦ fault e
]

-- The bytes of a read are stored in its region.
unfoldable pub store_read : ℕ → List ℕ → RequestReadOp → Outcome RequestReadOp
unfolding prepare store
store_read n bytes op = do
  source ← store (prepare n op.source) bytes op.source
  done (record op { source = source })

-- The handlers of the two reads.
unfoldable pub complete : Completion → State → Outcome State
unfolding store_read on_header on_body
complete (filled bytes) (reading_header op) = do
  op' ← store_read header_size bytes op
  on_header (length bytes) op'
complete (broken ec bytes) (reading_header op) = do
  op' ← store_read header_size bytes op
  done (gives_up ec op')
complete (filled bytes) (reading_body op) = do
  op' ← store_read (op.length - 1) bytes op
  on_body (length bytes) op'
complete (broken ec bytes) (reading_body op) = do
  op' ← store_read (op.length - 1) bytes op
  done (gives_up ec op')
complete c (called_back call op) = done (called_back call op)

-- What boost::asio promises: a region is filled with bytes, or an error that tests true comes after at most
-- as many.
abbrev pub Admissible : Completion → ℕ → Type 0
Admissible (filled bytes) n = (length bytes ≡ n) × All IsByte bytes
Admissible (broken ec bytes) n = (length bytes ≤ n) × All IsByte bytes × (failed ec ≡ true)

-- One completion of a pending read: none is pending once the callback was called.
pub data Step : State → State → Type 0 where
  header_step :
      {op : RequestReadOp} {s' : State} (c : Completion)
      → Admissible c header_size
      → complete c (reading_header op) ≡ done s'
      → Step (reading_header op) s'
  body_step :
      {op : RequestReadOp} {s' : State} (c : Completion)
      → Admissible c (op.length - 1)
      → complete c (reading_body op) ≡ done s'
      → Step (reading_body op) s'

-- `Steps s n s'`: after `n` completions.
pub data Steps (s : State) : ℕ → State → Type 0 where
  none_yet : Steps s zero s
  one_more : {n : ℕ} {s' s'' : State} → Steps s n s' → Step s' s'' → Steps s (suc n) s''
