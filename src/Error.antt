-- ===== src/Error.antt =====
-- include/mothbus/error.h: the exception codes, the error category's messages, error codes; and what
-- can stop a run for good.
use Prim.Native.String.{String}
use mothbus.Base.{ℕ, ◌≡◌, Bool, not, ◌==◌, if◌then◌else◌, arith}

-- `enum class modbus_exception_code`, whose underlying type is `int`. A `static_cast` makes any number
-- a value of it: `unnamed n` is a value with no enumerator.
pub data ModbusExceptionCode : Type 0 where
  success illegal_function illegal_data_address illegal_data_value : ModbusExceptionCode
  slave_device_failure acknowledge slave_device_busy negative_acknowledge : ModbusExceptionCode
  memory_parity_error gateway_path_unavailable : ModbusExceptionCode
  gateway_target_device_failed_to_respond invalid_response : ModbusExceptionCode
  too_many_bytes_received transaction_id_invalid illegal_protocol : ModbusExceptionCode
  slave_id_invalid request_too_big : ModbusExceptionCode
  unnamed : ℕ → ModbusExceptionCode

-- `static_cast<int>(c)`
unfoldable pub to_int : ModbusExceptionCode → ℕ
to_int success = 0
to_int illegal_function = 0x01
to_int illegal_data_address = 0x02
to_int illegal_data_value = 0x03
to_int slave_device_failure = 0x04
to_int acknowledge = 0x05
to_int slave_device_busy = 0x06
to_int negative_acknowledge = 0x07
to_int memory_parity_error = 0x08
to_int gateway_path_unavailable = 0x0a
to_int gateway_target_device_failed_to_respond = 0x0b
to_int invalid_response = 0x0c
to_int too_many_bytes_received = 0x0d
to_int transaction_id_invalid = 0x0e
to_int illegal_protocol = 0x0f
to_int slave_id_invalid = 0x10
to_int request_too_big = 0x11
to_int (unnamed n) = n

-- `static_cast<modbus_exception_code>(n)`
unfoldable pub from_int : ℕ → ModbusExceptionCode
from_int n =
    if n == 0
    then success
    else if n == 0x01
    then illegal_function
    else if n == 0x02
    then illegal_data_address
    else if n == 0x03
    then illegal_data_value
    else if n == 0x04
    then slave_device_failure
    else if n == 0x05
    then acknowledge
    else if n == 0x06
    then slave_device_busy
    else if n == 0x07
    then negative_acknowledge
    else if n == 0x08
    then memory_parity_error
    else if n == 0x0a
    then gateway_path_unavailable
    else if n == 0x0b
    then gateway_target_device_failed_to_respond
    else if n == 0x0c
    then invalid_response
    else if n == 0x0d
    then too_many_bytes_received
    else if n == 0x0e
    then transaction_id_invalid
    else if n == 0x0f
    then illegal_protocol
    else if n == 0x10
    then slave_id_invalid
    else if n == 0x11
    then request_too_big
    else unnamed n

pub to_int-from_int : (n : ℕ) → to_int (from_int n) ≡ n
unfolding to_int from_int
to_int-from_int n = ground arith

-- The categories that the library's error codes come from: its own, and those of the platform.
pub data ErrorCategory : Type 0 where
  modbus_category generic_category system_category : ErrorCategory

-- `error_code`: a number and its category.
pub record ErrorCode : Type 0 where
  pub value : ℕ
  pub category : ErrorCategory

-- `!!ec`
abbrev pub failed : ErrorCode → Bool
failed ec = not (ec.value == 0)

-- `error_code{}`
abbrev pub no_error : ErrorCode
no_error = record { value = 0; category = system_category }

unfoldable pub make_error_code : ModbusExceptionCode → ErrorCode
unfolding to_int
make_error_code c = record { value = to_int c; category = modbus_category }

-- `ModbusErrorCategory::message`
unfoldable pub message : ℕ → String
unfolding from_int
message ev = elim (from_int ev) [
  | success ↦ "no error"
  | illegal_function ↦
      "The function code received in the request is not an authorized action for the slave."
  | illegal_data_address ↦
      "The data address received by the slave is not an authorized address for the slave."
  | illegal_data_value ↦
      "The value in the request data field is not an authorized value for the slave."
  | slave_device_failure ↦
      "The slave fails to perform a requested action because of an unrecoverable error."
  | acknowledge ↦ "The slave accepts the request but needs a long time to process it."
  | slave_device_busy ↦ "The slave is busy processing another command."
  | negative_acknowledge ↦ "The slave cannot perform the programming request sent by the master."
  | memory_parity_error ↦
      "The slave detects a parity error in the memory when attempting to read extended memory."
  | gateway_path_unavailable ↦ "The gateway is overloaded or not correctly configured."
  | gateway_target_device_failed_to_respond ↦ "The slave is not present on the network."
  | _ ↦ "(unrecognized error)"
]

-- What ends a run with no error code: an index outside a span and the use of a variable that was never
-- set (both undefined in C++), an `assert` that fails, and an exception that the library lets through.
-- `out_of_fuel` is no end of the code's: the bound on the rounds of a loop was too small.
pub data Fault : Type 0 where
  out_of_bounds uninitialised assertion_failed out_of_fuel : Fault
  thrown : ErrorCode → Fault

pub data Outcome {ℓ} (A : Type ℓ) : Type ℓ where
  done : A → Outcome A
  fault : Fault → Outcome A

infixl 5 ◌>>=◌
abbrev pub ◌>>=◌ {ℓ κ} : {A : Type ℓ} {B : Type κ} → Outcome A → (A → Outcome B) → Outcome B
done a >>= f = f a
fault e >>= f = fault e

-- `assert(b)`
abbrev pub assert : Bool → Outcome (Unit {0})
assert b = if b then done tt else fault assertion_failed
