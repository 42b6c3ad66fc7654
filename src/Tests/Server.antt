-- ===== src/Tests/Server.antt =====
-- Runs of the server's half of include/mothbus/adu/tcp.h on concrete inputs.
use mothbus.Base.{
  ℕ, ◌+◌, ◌≤◌, ◌≡◌, refl, true, false, List, length, length-replicate, replicate, arith,
}
use mothbus.Error.{ErrorCode, done, make_error_code, request_too_big}
use mothbus.Pdu.Request.{not_implemented}
use mothbus.Adu.Tcp.{MbapHeader, is_valid_length}
use mothbus.Adu.Buffer.Fill.{after}
use mothbus.Adu.Tcp.Receive.{mbap}
use mothbus.Adu.Tcp.Server.{
  RequestReadOp, State, reading_body, called_back, Completion, filled, gives_up, async_read_request,
  complete, Admissible, Steps, none_yet, one_more, header_step,
}
use mothbus.Adu.Tcp.Server.Reply.{
  op_with, op_after, async_read_request-reads, async_read_request-too_big, header-filled,
}
use mothbus.Adu.Tcp.Server.Verdict.{Verdict}
use mothbus.Adu.Tcp.Server.Safe.{async_read_request-ends}
use mothbus.Tests.{ten_coils_bytes}

abbrev message : List ℕ
message = replicate 320 0

roomy : 260 ≤ length message
roomy = omega (arith, length-replicate {A = ℕ} 320 0)

abbrev nine_bytes : MbapHeader
nine_bytes = record { transaction_id = 5; protocol = 0; length = 9; unit_id = 1 }

valid : is_valid_length nine_bytes ≡ true
unfolding is_valid_length
valid = refl

abbrev start : State
start = async_read_request message (not_implemented 0)

async_read_request-reads_example :
    (ec : ErrorCode) × (op : RequestReadOp) × (complete (filled (mbap nine_bytes)) start
      ≡ done (reading_body (op_after message (not_implemented 0) nine_bytes)))
    × (complete
          (filled ten_coils_bytes)
          (reading_body (op_after message (not_implemented 0) nine_bytes))
        ≡ done (called_back (record { transaction_id = 5; slave = 1; ec = ec }) op))
    × Verdict ten_coils_bytes ec op.request
async_read_request-reads_example =
    async_read_request-reads message (not_implemented 0) roomy nine_bytes
      (omega arith, omega arith, omega arith) valid ten_coils_bytes refl
      (
        omega arith,
        (
          omega arith,
          (
            omega arith,
            (omega arith, (omega arith, (omega arith, (omega arith, (omega arith, tt))))),
          ),
        ),
      )

abbrev no_body : MbapHeader
no_body = record { transaction_id = 5; protocol = 0; length = 1; unit_id = 1 }

no_body_refused : is_valid_length no_body ≡ false
unfolding is_valid_length
no_body_refused = refl

async_read_request-too_big_test :
    complete (filled (mbap no_body)) start
    ≡ done (
        gives_up
          (make_error_code request_too_big)
          (op_with message (not_implemented 0) (after (mbap no_body) (replicate 313 0) 7 7)))
async_read_request-too_big_test =
    async_read_request-too_big message (not_implemented 0) roomy no_body
      (omega arith, omega arith, omega arith) no_body_refused

header_came : Steps start 1 (reading_body (op_after message (not_implemented 0) nine_bytes))
header_came = one_more none_yet (
    header_step (filled (mbap nine_bytes))
      (
        refl,
        (
          omega arith,
          (
            omega arith,
            (omega arith, (omega arith, (omega arith, (omega arith, (omega arith, tt))))),
          ),
        ),
      )
      (header-filled message (not_implemented 0) roomy nine_bytes
        (omega arith, omega arith, omega arith) valid))

async_read_request-ends_example :
    (1 + 1 ≤ 2)
    × ((c : Completion)
        → Admissible c 8
        → (s' : State) × (complete c
              (reading_body (op_after message (not_implemented 0) nine_bytes))
            ≡ done s'))
async_read_request-ends_example =
    async_read_request-ends message (not_implemented 0) roomy 1
      (reading_body (op_after message (not_implemented 0) nine_bytes)) header_came
