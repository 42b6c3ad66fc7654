-- ===== src/Pdu/Codec.antt =====
-- What the templates of pdu.h and adu/ use of a PDU class: its function code, a default value, and
-- its `read` and `write`; and what these have to satisfy. A section for the commonest shape, two words.
use mothbus.Base.{ℕ, ◌≡◌, ap, ap₂, ◌∙◌, List, ◌∷◌, ◌++◌}
use mothbus.Base.{IsU16, word}
use mathlib.Core.Path.{subst}
use mothbus.Pdu.FunctionCode.{FunctionCode, to_byte}
use mothbus.Pdu.Reader.{Reader, Read, field, read_u16, ◌>>◌}
use mothbus.Pdu.Reader.Laws.{ReaderLaws, skips, Takes, >>-Takes, field-Takes, read_u16-Takes}
use mothbus.Pdu.Reader.Exact.{Exact, >>-Exact, field-Exact, read_u16-Exact, Exact_weaken}
use mothbus.Pdu.Writer.{Sink, Write}
use mothbus.Pdu.Writer.Laws.{Writes}

-- `T::fc` and `read(reader, T&)` of a class `T`.
pub record Readable (T : Type 0) : Type 1 where
  pub fc : FunctionCode
  pub read : (R : Type 0) → Reader R → Read R T

-- `write(writer, const T&)`, which puts the function code first.
pub record Writable (T : Type 0) : Type 1 where
  pub write : (S : Type 0) → Sink S → T → Write S

-- The format of a class: the bytes behind the function code, and the values that have them.
pub record Format (T : Type 0) : Type 1 where
  pub fc : FunctionCode
  pub encode : T → List ℕ
  pub IsValid : T → Type 0

-- `read`, on an object in the state `t`, takes the bytes of any valid value and gives that value; and
-- on any other bytes it stops at the end of the input.
pub record ReadsFormat {T : Type 0} (f : Format T) (c : Readable T) (t : T) : Type 1 where
  pub same_code : c.fc ≡ f.fc
  pub takes :
      (R : Type 0) (rd : Reader R) (laws : ReaderLaws rd) (v : T) (r : R) (rest : List ℕ)
      → f.IsValid v
      → laws.Holds r (f.encode v ++ rest)
      → Takes laws (c.read R rd) t r (f.encode v) rest v
  pub exact :
      (R : Type 0) (rd : Reader R) (laws : ReaderLaws rd)
      → Exact laws (c.read R rd) t (λ v front. f.IsValid v × (front ≡ f.encode v))

-- `write` puts the function code and the bytes of any valid value.
pub record WritesFormat {T : Type 0} (f : Format T) (c : Writable T) : Type 1 where
  pub writes :
      (S : Type 0) (sink : Sink S) (v : T)
      → f.IsValid v
      → Writes sink (c.write S sink v) (to_byte f.fc ∷ f.encode v)

module _ {T : Type 0} (a b : T → ℕ) (put_a put_b : ℕ → T → T) where
  abbrev pub read_two_words : (R : Type 0) → Reader R → Read R T
  read_two_words R rd = do field a put_a (read_u16 rd); field b put_b (read_u16 rd)

  abbrev pub two_words : FunctionCode → Format T
  two_words code = record {
    fc = code;
    encode = λ v. word (a v) ++ word (b v);
    IsValid = λ v. IsU16 (a v) × IsU16 (b v);
  }

  pub two_words-takes :
      (t v : T)
      → put_b (b v) (put_a (a v) t) ≡ v
      → (R : Type 0) (rd : Reader R) (laws : ReaderLaws rd) (r : R) (rest : List ℕ)
      → IsU16 (a v) × IsU16 (b v)
      → laws.Holds r ((word (a v) ++ word (b v)) ++ rest)
      → Takes laws (read_two_words R rd) t r (word (a v) ++ word (b v)) rest v
  two_words-takes t v back R rd laws r rest w h =
      subst (λ v'. Takes laws (read_two_words R rd) t r (word (a v) ++ word (b v)) rest v') back
        (>>-Takes laws (field a put_a (read_u16 rd)) (field b put_b (read_u16 rd)) (word (a v))
          (word (b v)) first second)
    where
      first :
          Takes laws
            (field a put_a (read_u16 rd))
            t
            r
            (word (a v))
            (word (b v) ++ rest)
            (put_a (a v) t)
      first = field-Takes laws a put_a (read_u16 rd) _ _ (read_u16-Takes laws w.0 h)

      second :
          Takes laws
            (field b put_b (read_u16 rd))
            (put_a (a v) t)
            (skips laws 2 r)
            (word (b v))
            rest
            (put_b (b v) (put_a (a v) t))
      second = field-Takes laws b put_b (read_u16 rd) _ _ (read_u16-Takes laws w.1 first.held)

  pub two_words-exact :
      (t : T)
      → ((x y : ℕ) → (a (put_b y (put_a x t)) ≡ x) × (b (put_b y (put_a x t)) ≡ y))
      → (R : Type 0) (rd : Reader R) (laws : ReaderLaws rd)
      → Exact laws
          (read_two_words R rd)
          t
          (λ v front. (IsU16 (a v) × IsU16 (b v)) × (front ≡ word (a v) ++ word (b v)))
  two_words-exact t kept R rd laws =
      >>-Exact laws (field a put_a (read_u16 rd)) (field b put_b (read_u16 rd)) t _ _
        (field-Exact laws a put_a (read_u16 rd) t _ (read_u16-Exact laws (a t)))
        (λ t' front p.
          Exact_weaken laws (field b put_b (read_u16 rd)) t' _ _
            (λ t'' more q. described t' t'' front more p q)
            (field-Exact laws b put_b (read_u16 rd) t' _ (read_u16-Exact laws (b t'))))
    where
      described :
          (t' t'' : T) (front more : List ℕ)
          → ((x : ℕ) × (t' ≡ put_a x t) × (IsU16 x × (front ≡ word x)))
          → ((y : ℕ) × (t'' ≡ put_b y t') × (IsU16 y × (more ≡ word y)))
          → (IsU16 (a t'') × IsU16 (b t'')) × (front ++ more ≡ word (a t'') ++ word (b t''))
      described t' t'' front more (x, e, (wx, fx)) (y, e', (wy, fy)) =
          let ea : a t'' ≡ x = ap a (e' ∙ ap (put_b y) e) ∙ (kept x y).0 in
          let eb : b t'' ≡ y = ap b (e' ∙ ap (put_b y) e) ∙ (kept x y).1 in
          ((rw ea wx, rw eb wy), rw (ea, eb) (ap₂ ◌++◌ fx fy))
