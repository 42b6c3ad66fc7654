-- ===== src/Pdu/Writer/Laws.antt =====
-- What the writers of pdu/writer.h put into a sink: the bytes of the value's encoding, in order.
use mothbus.Base.{ℕ, ◌/◌, ◌%◌, ◌≡◌, refl, sym, ap, ap₂, ◌∙◌, List, [], ◌∷◌, ◌++◌, word, words}
use mothbus.Base.Masks.{bit_and_low_byte}
use mothbus.Error.{done, fault, Outcome, ◌>>=◌}
use mathlib.Core.Path.{fun_ext}
use mothbus.Pdu.Writer.{Sink, Write, ◌>>◌, write_u16, write_bytes, write_words}

bind_assoc :
    {S : Type 0} (o : Outcome S) (k l : Write S) → ((o >>= k) >>= l) ≡ (o >>= (λ s. k s >>= l))
bind_assoc (done s) k l = refl
bind_assoc (fault e) k l = refl

module _ {S : Type 0} (sink : Sink S) where
  -- The bytes of two encodings, one after the other.
  pub write_bytes-append :
      (xs ys : List ℕ) (s : S)
      → write_bytes sink (xs ++ ys) s ≡ (write_bytes sink xs s >>= write_bytes sink ys)
  unfolding write_bytes
  write_bytes-append [] ys s = refl
  write_bytes-append (x ∷ xs) ys s =
      ap (λ k. sink.put x s >>= k) (fun_ext (write_bytes-append xs ys))
      ∙ sym (bind_assoc (sink.put x s) (write_bytes sink xs) (write_bytes sink ys))

  -- `m` puts exactly the bytes `xs` into the sink, or stops where putting them stops.
  abbrev pub Writes : Write S → List ℕ → Type 0
  Writes m xs = (s : S) → m s ≡ write_bytes sink xs s

  pub >>-Writes :
      (m k : Write S) (xs ys : List ℕ) → Writes m xs → Writes k ys → Writes (m >> k) (xs ++ ys)
  >>-Writes m k xs ys a b s =
      ap₂ (λ (o : Outcome S) (f : Write S). o >>= f) (a s) (fun_ext b)
      ∙ sym (write_bytes-append xs ys s)

  pub write_u8-Writes : (v : ℕ) → Writes (sink.put v) (v ∷ [])
  unfolding write_bytes
  write_u8-Writes v s = go (sink.put v s)
    where
      go : (o : Outcome S) → o ≡ (o >>= done)
      go (done s') = refl
      go (fault e) = refl

  pub write_bytes-Writes : (vs : List ℕ) → Writes (write_bytes sink vs) vs
  write_bytes-Writes vs s = refl

  -- A word goes out with its high byte first.
  pub write_u16-Writes : (v : ℕ) → Writes (write_u16 sink v) (word v)
  unfolding write_u16
  write_u16-Writes v s =
      rw (bit_and_low_byte (v / 256), bit_and_low_byte v)
        (>>-Writes (sink.put (v / 256 % 256)) (sink.put (v % 256)) _ _ (write_u8-Writes _)
          (write_u8-Writes _) s)

  pub write_words-Writes : (vs : List ℕ) → Writes (write_words sink vs) (words vs)
  unfolding write_words write_bytes
  write_words-Writes [] s = refl
  write_words-Writes (v ∷ vs) s =
      >>-Writes (write_u16 sink v) (write_words sink vs) (word v) (words vs) (write_u16-Writes v)
        (write_words-Writes vs) s

  -- A byte, or a word, and then the rest.
  pub byte-Writes :
      (b : ℕ) (k : Write S) (xs : List ℕ) → Writes k xs → Writes (sink.put b >> k) (b ∷ xs)
  byte-Writes b k xs h = >>-Writes (sink.put b) k (b ∷ []) xs (write_u8-Writes b) h

  pub word-Writes :
      (v : ℕ) (k : Write S) (xs : List ℕ)
      → Writes k xs
      → Writes (write_u16 sink v >> k) (word v ++ xs)
  word-Writes v k xs h = >>-Writes (write_u16 sink v) k (word v) xs (write_u16-Writes v) h
