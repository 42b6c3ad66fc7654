-- ===== src/Pdu/Response/Laws.antt =====
-- The branches of the reading of a response, and what an exception response becomes.
use mothbus.Base.{ℕ, ◌+◌, ◌≤◌, ◌<◌, ◌≡◌, ◌≢◌, List, [], ◌∷◌, ◌++◌, ◌==◌, arith}
use mothbus.Base.{
  true, false, ==_of_ne, ==_of_eq, ==-self, IsByte, if◌then◌else◌, bit_and, bit_or, to_u8,
}
use mothbus.Base.Masks.{bit_and_top_bit, bit_or_top_bit}
use mothbus.Error.{modbus_category, make_error_code, invalid_response, to_int, to_int-from_int}
use mothbus.Pdu.Codec.{Readable}
use mothbus.Pdu.FunctionCode.{to_byte, to_byte-from_byte, same}
use mothbus.Pdu.Reader.{Reader, ok, error, read_exception_code}
use mothbus.Pdu.Reader.Laws.{ReaderLaws, Takes, return_code-error}
use mothbus.Pdu.Writer.{Sink, write_exception_code}
use mothbus.Pdu.Writer.Laws.{Writes, byte-Writes, write_u8-Writes}
use mothbus.Pdu.Response.{PduExceptionResp, write_exception, read_exception, read}

-- An exception response goes out as the function code with its top bit set, and the exception code.
pub write_exception-Writes :
    {S : Type 0} (sink : Sink S) (v : PduExceptionResp)
    → to_byte v.fc < 128
    → to_int v.exception_code < 256
    → Writes sink (write_exception sink v) ((to_byte v.fc + 128) ∷ to_int v.exception_code ∷ [])
unfolding write_exception write_exception_code
write_exception-Writes sink v h k s =
    let e : to_u8 (bit_or (to_byte v.fc) 0x80) ≡ to_byte v.fc + 128 =
      omega (arith, bit_or_top_bit (to_byte v.fc) h) in
    let e' : to_u8 (to_int v.exception_code) ≡ to_int v.exception_code = omega arith in
    rw (e, e') (byte-Writes sink _ _ _ (write_u8-Writes sink (to_int v.exception_code)) s)

-- The test of the top bit.
top_bit_set : (f : ℕ) → IsByte f → 128 ≤ f → (bit_and f 0x80 == 0) ≡ false
top_bit_set f w h = ==_of_ne _ _ λ e. omega (arith, bit_and_top_bit f w)

top_bit_clear : (f : ℕ) → f < 128 → (bit_and f 0x80 == 0) ≡ true
top_bit_clear f h = ==_of_eq _ _ (omega (arith, bit_and_top_bit f (omega arith)))

module _ {R : Type 0} {rd : Reader R} (laws : ReaderLaws rd) {T : Type 0} (c : Readable T) where
  -- Behind a code with its top bit set stands an exception code. Any but 0 becomes the error, under the
  -- library's category, and the object to read into stays as it was.
  pub read-exception :
      (t : T) (f e : ℕ) (r : R) (rest : List ℕ)
      → IsByte f
      → 128 ≤ f
      → e ≢ 0
      → laws.Holds r (f ∷ e ∷ rest)
      → read rd c t r
        ≡ error (record { value = e; category = modbus_category }) t (laws.skip (laws.skip r))
  unfolding read read_exception read_exception_code make_error_code
  read-exception t f e r rest w top ne held = rw (
    laws.read_u8-cons 0 r f (e ∷ rest) held,
    read,
    top_bit_set f w top,
    if◌then◌else◌,
    laws.read_u8-cons 0 (laws.skip r) e rest (laws.skip-Holds r f (e ∷ rest) held),
    read_exception,
    read_exception_code,
    to_int-from_int e,
    return_code-error (record { value = e; category = modbus_category }) t (laws.skip (laws.skip r))
        ne,
  )

  -- An exception response with the code 0 is taken for a response without an error, though nothing has
  -- been read into the object.
  pub read-exception_zero :
      (t : T) (f : ℕ) (r : R) (rest : List ℕ)
      → IsByte f
      → 128 ≤ f
      → laws.Holds r (f ∷ 0 ∷ rest)
      → read rd c t r ≡ ok t (laws.skip (laws.skip r))
  unfolding read read_exception read_exception_code make_error_code
  read-exception_zero t f r rest w top held = rw (
    laws.read_u8-cons 0 r f (0 ∷ rest) held,
    read,
    top_bit_set f w top,
    if◌then◌else◌,
    laws.read_u8-cons 0 (laws.skip r) 0 rest (laws.skip-Holds r f (0 ∷ rest) held),
    read_exception,
    read_exception_code,
  )

  -- A response with another function code is refused.
  pub read-other_code :
      (t : T) (f : ℕ) (r : R) (rest : List ℕ)
      → f < 128
      → f ≢ to_byte c.fc
      → laws.Holds r (f ∷ rest)
      → read rd c t r ≡ error (make_error_code invalid_response) t (laws.skip r)
  unfolding read same make_error_code
  read-other_code t f r rest w ne held = rw (
    laws.read_u8-cons 0 r f rest held,
    read,
    top_bit_clear f w,
    to_byte-from_byte f,
    ==_of_ne f (to_byte c.fc) ne,
  )

  -- A response with the expected code is read by its class.
  pub read-expected :
      (t t' : T) (xs rest : List ℕ) (r : R)
      → to_byte c.fc < 128
      → laws.Holds r (to_byte c.fc ∷ xs ++ rest)
      → Takes laws (c.read R rd) t (laws.skip r) xs rest t'
      → Takes laws (read rd c) t r (to_byte c.fc ∷ xs) rest t'
  unfolding read same
  read-expected t t' xs rest r w held took = record {
    held = took.held;
    result =
        rw
          (
            laws.read_u8-cons 0 r (to_byte c.fc) (xs ++ rest) held,
            read,
            top_bit_clear (to_byte c.fc) w,
            to_byte-from_byte (to_byte c.fc),
            ==-self (to_byte c.fc),
          )
          took.result;
  }
