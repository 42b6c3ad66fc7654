-- ===== src/Pdu/Reader/Dropped.antt =====
-- Reads over the overload for one byte that drops what `get` returns.
use mothbus.Base.{ℕ, List, [], ◌∷◌}
use mothbus.Error.{ErrorCode, ModbusExceptionCode}
use mothbus.Pdu.Reader.{
  Reader, Reading, ok, error, fault, prepend, read_get, read_u16, read_bytes, read_words,
  read_exception_code,
}

-- The end of a read is no error.
abbrev pub IsUnreported : {R T : Type 0} → Reading R T → Type 0
IsUnreported (ok t r) = Unit
IsUnreported (error ec t r) = ⊥
IsUnreported (fault e) = Unit

prepend-IsUnreported :
    {R T : Type 0} (t : T) (x : Reading R (List T)) → IsUnreported x → IsUnreported (prepend t x)
prepend-IsUnreported t (ok v r) h = tt
prepend-IsUnreported t (error ec v r) h = h
prepend-IsUnreported t (fault e) h = tt

-- A read behind one that reports nothing.
then-IsUnreported :
    {R A B : Type 0} (x : Reading R A) (k : A → R → Reading R B)
    (f : ErrorCode → A → R → Reading R B)
    → IsUnreported x
    → ((a : A) (r : R) → IsUnreported (k a r))
    → IsUnreported (elim x [ ok a r ↦ k a r | error ec a r ↦ f ec a r | fault e ↦ fault e ])
then-IsUnreported (ok a r) k f h good = good a r
then-IsUnreported (error ec a r) k f h good = absurd h
then-IsUnreported (fault e) k f h good = tt

module _ {R : Type 0} (reader : Reader R) where
  -- The readers over this overload.
  abbrev dropping : Reader R
  dropping = record { read_u8 = read_get reader }

  read_get-IsUnreported : (v : ℕ) (r : R) → IsUnreported (read_get reader v r)
  unfolding read_get
  read_get-IsUnreported v r = go (reader.read_u8 v r)
    where
      go :
          (x : Reading R ℕ)
          → IsUnreported
              (elim x [ ok v' r' ↦ ok v' r' | error _ v' r' ↦ ok v' r' | fault e ↦ fault e ])
      go (ok v' r') = tt
      go (error ec v' r') = tt
      go (fault e) = tt

  -- Over this overload the end of the input is not reported by any of the readers.
  read_u16-IsUnreported : (v : ℕ) (r : R) → IsUnreported (read_u16 dropping v r)
  unfolding read_u16
  read_u16-IsUnreported v r =
      then-IsUnreported (read_get reader 0 r) _ _ (read_get-IsUnreported 0 r) λ b r'.
        then-IsUnreported (read_get reader b r') _ _ (read_get-IsUnreported b r') λ b' r''. tt

  read_exception_code-IsUnreported :
      (v : ModbusExceptionCode) (r : R) → IsUnreported (read_exception_code dropping v r)
  unfolding read_exception_code
  read_exception_code-IsUnreported v r =
      then-IsUnreported (read_get reader 0 r) _ _ (read_get-IsUnreported 0 r) λ b r'. tt

  read_bytes-IsUnreported : (v : List ℕ) (r : R) → IsUnreported (read_bytes dropping v r)
  unfolding read_bytes
  read_bytes-IsUnreported [] r = tt
  read_bytes-IsUnreported (b ∷ v) r =
      then-IsUnreported (read_get reader 0 r) _ _ (read_get-IsUnreported 0 r)
        λ t r'. prepend-IsUnreported t (read_bytes dropping v r') (read_bytes-IsUnreported v r')

  read_words-IsUnreported : (v : List ℕ) (r : R) → IsUnreported (read_words dropping v r)
  unfolding read_words
  read_words-IsUnreported [] r = tt
  read_words-IsUnreported (u ∷ v) r =
      then-IsUnreported (read_u16 dropping u r) _ _ (read_u16-IsUnreported u r)
        λ t r'. prepend-IsUnreported t (read_words dropping v r') (read_words-IsUnreported v r')
