-- ===== src/Adu/Timed.antt =====
-- A serial line with a timer: what include/mothbus/adu/rtu.h uses of boost::asio. What the line does is a
-- parameter; its documented behaviour is `TimedLaws`.
use mothbus.Base.{ℕ, ◌≡◌, List, IsByte, All, length}
use mothbus.Error.{ErrorCode}
use mothbus.Adu.Layer.{Call}

-- Which of two pending operations completes first: the read, with an error code that tests false and the
-- bytes that were read, or with one that tests true; or the timer.
pub data Completion (N : Type 0) : Type 0 where
  received : List ℕ → N → Completion N
  broken : ErrorCode → N → Completion N
  expired : N → Completion N

-- `wait n timeout`: `async_read` into a region of `n` bytes against a timer of `timeout` microseconds.
-- `cancel` ends what is pending on the line. `timed_out` is `make_error_code(errc::timed_out)`.
pub record TimedLayer (N : Type 0) : Type 0 where
  pub wait : ℕ → ℕ → N → Completion N
  pub cancel : N → N
  pub write : List ℕ → N → Call N (Unit {0})
  pub timed_out : ErrorCode

-- A read completes with no error when its region is full.
pub record TimedLaws {N : Type 0} (line : TimedLayer N) : Type 0 where
  pub wait_full :
      (n timeout : ℕ) (s s' : N) (bytes : List ℕ)
      → line.wait n timeout s ≡ received bytes s'
      → (length bytes ≡ n) × All IsByte bytes
