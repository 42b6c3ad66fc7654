-- ===== src/Pdu/Reader.antt =====
-- include/mothbus/pdu/reader.h: reading values from any source of bytes. `read(reader, v)` returns an
-- error code and writes through `v`, also where it fails halfway: a `Reading` holds both.
pub mod Laws
pub mod Exact
pub mod Dropped
use mothbus.Base.{ℕ, zero, suc, ◌*◌, Bool, true, false, List, [], ◌∷◌, bit_or, to_u16}
use mothbus.Error.{ErrorCode, failed, Fault, ModbusExceptionCode, from_int}

-- `ok v r` is an error code that tests false, `error ec v r` one that tests true; `v` is the object
-- that was read into and `r` the reader afterwards.
pub data Reading (R T : Type 0) : Type 0 where
  ok : T → R → Reading R T
  error : ErrorCode → T → R → Reading R T
  fault : Fault → Reading R T

abbrev pub Read : Type 0 → Type 0 → Type 0
Read R T = T → R → Reading R T

-- A `Reader` of the templates: what `read(reader, uint8_t&)` does for it.
pub record Reader (R : Type 0) : Type 0 where
  pub read_u8 : Read R ℕ

module _ {R T : Type 0} where
  -- `return ec`
  abbrev pub return_code : ErrorCode → Read R T
  return_code ec t r = elim (failed ec) [ true ↦ error ec t r | false ↦ ok t r ]

  -- `MOTH_CHECKED_RETURN(m); k`
  infixl 5 ◌>>◌
  abbrev pub ◌>>◌ : Read R T → Read R T → Read R T
  ◌>>◌ m k t r = elim (m t r) [
    | ok t' r' ↦ k t' r'
    | error ec t' r' ↦ error ec t' r'
    | fault e ↦ fault e
  ]

  -- `read(reader, t.f)`, for a field with its getter and setter.
  abbrev pub field : {A : Type 0} → (T → A) → (A → T → T) → Read R A → Read R T
  field get put m t r = elim (m (get t) r) [
    | ok a r' ↦ ok (put a t) r'
    | error ec a r' ↦ error ec (put a t) r'
    | fault e ↦ fault e
  ]

  -- A statement that changes the object and reads nothing.
  abbrev pub modify : (T → T) → Read R T
  modify f t r = ok (f t) r

  abbrev pub prepend : T → Reading R (List T) → Reading R (List T)
  prepend a (ok v r) = ok (a ∷ v) r
  prepend a (error ec v r) = error ec (a ∷ v) r
  prepend a (fault e) = fault e

-- The overload for one byte of any reader with a `get` that has no overload of its own, as the buffer has: what
-- `get` returns is dropped.
unfoldable pub read_get : {R : Type 0} → Reader R → Read R ℕ
read_get reader v r = elim (reader.read_u8 v r) [
  | ok v' r' ↦ ok v' r'
  | error _ v' r' ↦ ok v' r'
  | fault e ↦ fault e
]

module _ {R : Type 0} (rd : Reader R) where
  -- `v = b << 8; … v |= b;`
  unfoldable pub read_u16 : Read R ℕ
  read_u16 v r = elim (rd.read_u8 0 r) [
    | ok b r' ↦ elim (rd.read_u8 b r') [
      | ok b' r'' ↦ ok (bit_or (to_u16 (b * 256)) b') r''
      | error ec _ r'' ↦ error ec (to_u16 (b * 256)) r''
      | fault e ↦ fault e
    ]
    | error ec _ r' ↦ error ec v r'
    | fault e ↦ fault e
  ]

  -- `span<byte>`: the list holds the span's elements, which are overwritten one by one.
  unfoldable pub read_bytes : Read R (List ℕ)
  read_bytes [] r = ok [] r
  read_bytes (b ∷ v) r = elim (rd.read_u8 0 r) [
    | ok temp r' ↦ prepend temp (read_bytes v r')
    | error ec _ r' ↦ error ec (b ∷ v) r'
    | fault e ↦ fault e
  ]

  -- `span<uint16_t>`
  unfoldable pub read_words : Read R (List ℕ)
  unfolding read_u16
  read_words [] r = ok [] r
  read_words (u ∷ v) r = elim (read_u16 u r) [
    | ok u' r' ↦ prepend u' (read_words v r')
    | error ec u' r' ↦ error ec (u' ∷ v) r'
    | fault e ↦ fault e
  ]

  unfoldable pub read_exception_code : Read R ModbusExceptionCode
  unfolding from_int
  read_exception_code v r = elim (rd.read_u8 0 r) [
    | ok h r' ↦ ok (from_int h) r'
    | error ec _ r' ↦ error ec v r'
    | fault e ↦ fault e
  ]

-- `v.resize(n, x)` of a vector.
unfoldable pub resize : ℕ → ℕ → List ℕ → List ℕ
resize zero x v = []
resize (suc n) x [] = x ∷ resize n x []
resize (suc n) x (y ∷ v) = y ∷ resize n x v
