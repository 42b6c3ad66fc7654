-- ===== src/Adu/Rtu/Checksum.antt =====
-- The comparison of a frame's checksum, on the three inputs that end a frame.
use mothbus.Base.{
  ℕ, ◌/◌, ◌≡◌, ◌≢◌, ◌⊎◌, List, [], ◌∷◌, take, bit_and, ==-self, ◌==◌, ◌||◌, not, true, arith,
}
use mothbus.Error.{done, fault, make_error_code, no_error, invalid_response, uninitialised}
use mothbus.Adu.Buffer.{Buffer}
use mothbus.Adu.Buffer.Queue.{Holds, skip, skip-Holds, get-cons, get-nil}
use mothbus.Adu.Crc.{crc16}
use mothbus.Adu.Rtu.{check_crc}
use mothbus.Adu.Rtu.Send.{checksum}

-- The two bytes behind a message are not its checksum.
abbrev pub WrongCrc : List ℕ → ℕ → ℕ → Type 0
WrongCrc msg low high = (low ≢ bit_and (crc16 msg) 0xff) ⊎ (high ≢ bit_and (crc16 msg / 256) 0xff)

module _ (b : Buffer) (msg : List ℕ) (read : take b.input_start b.message_buffer ≡ msg) where
  pub check_crc-right : Holds b (checksum msg) → check_crc b ≡ done (no_error, skip (skip b))
  unfolding check_crc
  check_crc-right held =
      let low = bit_and (crc16 msg) 0xff in
      let high = bit_and (crc16 msg / 256) 0xff in
      rw (
        get-cons 0 b low (high ∷ []) held,
        check_crc,
        get-cons 0 (skip b) high [] (skip-Holds b low (high ∷ []) held),
        check_crc,
        read,
        ==-self low,
        ==-self high,
      )

  wrong :
      (low high : ℕ)
      → WrongCrc msg low high
      → (not (low == bit_and (crc16 msg) 0xff) || not (high == bit_and (crc16 msg / 256) 0xff))
        ≡ true
  wrong low high h = ground arith

  pub check_crc-wrong :
      (low high : ℕ)
      → Holds b (low ∷ high ∷ [])
      → WrongCrc msg low high
      → check_crc b ≡ done (make_error_code invalid_response, skip (skip b))
  unfolding check_crc make_error_code
  check_crc-wrong low high held h = rw (
    get-cons 0 b low (high ∷ []) held,
    check_crc,
    get-cons 0 (skip b) high [] (skip-Holds b low (high ∷ []) held),
    check_crc,
    read,
    wrong low high h,
  )

pub check_crc-short : (b : Buffer) → Holds b [] → check_crc b ≡ fault uninitialised
unfolding check_crc
check_crc-short b held = rw (get-nil 0 b held, check_crc)
