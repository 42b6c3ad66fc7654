-- ===== src/Pdu/Reader/Laws.antt =====
-- What a source of bytes has to do for the readers of pdu/reader.h to work, and what they then do.
use mothbus.Base.{◌≢◌, ℕ, zero, suc, ◌+◌, ◌*◌, ◌/◌, ◌%◌, ◌≡◌, refl, ap, ◌∙◌, true}
use mothbus.Base.{
  List, [], ◌∷◌, ◌++◌, IsByte, IsU16, All, word, words, length, bit_or, to_u16, arith,
}
use mothbus.Base.Masks.{bit_or_bytes}
use mothbus.Error.{ErrorCode, failed}
use mothbus.Pdu.Reader.{return_code, fault, Reader, Reading, Read, ok, error, fault, field, ◌>>◌}
use mothbus.Pdu.Reader.{return_code, fault, read_u16, read_bytes, read_words, resize}

-- `Holds r bs`: the reader still has exactly the bytes `bs` to give. It gives them in order, and
-- reports `at_end`, and changes nothing, when there are none.
pub record ReaderLaws {R : Type 0} (rd : Reader R) : Type 1 where
  pub Holds : R → List ℕ → Type 0
  pub skip : R → R
  pub at_end : ErrorCode
  pub at_end_failed : failed at_end ≡ true
  pub read_u8-cons :
      (v : ℕ) (r : R) (b : ℕ) (bs : List ℕ) → Holds r (b ∷ bs) → rd.read_u8 v r ≡ ok b (skip r)
  pub read_u8-nil : (v : ℕ) (r : R) → Holds r [] → rd.read_u8 v r ≡ error at_end v r
  pub skip-Holds : (r : R) (b : ℕ) (bs : List ℕ) → Holds r (b ∷ bs) → Holds (skip r) bs

module _ {R : Type 0} {rd : Reader R} (laws : ReaderLaws rd) where
  open laws use {Holds, skip, at_end, read_u8-cons, read_u8-nil, skip-Holds}

  -- The reader after `n` more bytes.
  abbrev pub skips : ℕ → R → R
  skips zero r = r
  skips (suc n) r = skips n (skip r)

  pub skips-Holds :
      (vs rest : List ℕ) (r : R) → Holds r (vs ++ rest) → Holds (skips (length vs) r) rest
  skips-Holds [] rest r h = h
  skips-Holds (v ∷ vs) rest r h = skips-Holds vs rest (skip r) (skip-Holds r v (vs ++ rest) h)

  pub read_u16-cons :
      (v hi lo : ℕ) (r : R) (bs : List ℕ)
      → IsByte hi
      → IsByte lo
      → Holds r (hi ∷ lo ∷ bs)
      → read_u16 rd v r ≡ ok (hi * 256 + lo) (skip (skip r))
  unfolding read_u16
  read_u16-cons v hi lo r bs p q h = cc (
    read_u8-cons 0 r hi (lo ∷ bs) h,
    read_u8-cons hi (skip r) lo bs (skip-Holds r hi (lo ∷ bs) h),
    joined,
  )
    where
      joined : bit_or (to_u16 (hi * 256)) lo ≡ hi * 256 + lo
      joined = let e : to_u16 (hi * 256) ≡ hi * 256 = omega arith in rw e (bit_or_bytes hi lo q)

  pub skips-append :
      (xs ys : List ℕ) (r : R)
      → skips (length (xs ++ ys)) r ≡ skips (length ys) (skips (length xs) r)
  skips-append [] ys r = refl
  skips-append (x ∷ xs) ys r = skips-append xs ys (skip r)

  -- `m` stops with the error that the end of the input gives.
  abbrev pub Fails : {T : Type 0} → Reading R T → Type 0
  Fails {T} x = (t : T) × (r : R) × (x ≡ error at_end t r)

  -- `m` turns `t` into `t'` by taking exactly the bytes `front` off the reader `r`, whatever follows.
  pub record Takes {T : Type 0} (m : Read R T) (t : T) (r : R) (front rest : List ℕ) (t' : T)
      : Type 0 where
    pub held : Holds (skips (length front) r) rest
    pub result : m t r ≡ ok t' (skips (length front) r)

  module _ {T : Type 0} (m k : Read R T) where
    -- Two checked steps, one after the other.
    pub >>-Takes :
        {t t' t'' : T} {r : R} (xs ys : List ℕ) {rest : List ℕ}
        → Takes m t r xs (ys ++ rest) t'
        → Takes k t' (skips (length xs) r) ys rest t''
        → Takes (m >> k) t r (xs ++ ys) rest t''
    >>-Takes {t} {t'} {t''} {r} xs ys a b = record {
      held = rw (skips-append xs ys r) b.held;
      result = rw (skips-append xs ys r) (rw (a.result, ◌>>◌) b.result);
    }

    pub >>-Fails : {t : T} {r : R} → Fails (m t r) → Fails ((m >> k) t r)
    >>-Fails (t', r', e) = (t', r', rw (e, ◌>>◌))

    pub >>-Fails_second :
        {t t' : T} {r : R} (xs rest : List ℕ)
        → Takes m t r xs rest t'
        → Fails (k t' (skips (length xs) r))
        → Fails ((m >> k) t r)
    >>-Fails_second xs rest a (t', r', e) = (t', r', rw (a.result, ◌>>◌) e)

  module _ {T A : Type 0} (get : T → A) (put : A → T → T) (m : Read R A) where
    pub field-Takes :
        {t : T} {a : A} {r : R} (xs rest : List ℕ)
        → Takes m (get t) r xs rest a
        → Takes (field get put m) t r xs rest (put a t)
    field-Takes xs rest h = record { held = h.held; result = rw (h.result, field) }

    pub field-Fails : {t : T} {r : R} → Fails (m (get t) r) → Fails (field get put m t r)
    field-Fails {t} (a, r', e) = (put a t, r', rw (e, field))

  -- The primitive reads, on an input that begins with what they want.
  pub read_u8-Takes :
      {v b : ℕ} {r : R} {rest : List ℕ} → Holds r (b ∷ rest) → Takes rd.read_u8 v r (b ∷ []) rest b
  read_u8-Takes {v} {b} {r} {rest} h = record {
    held = skip-Holds r b rest h;
    result = read_u8-cons v r b rest h;
  }

  pub read_u16-Takes :
      {v a : ℕ} {r : R} {rest : List ℕ}
      → IsU16 a
      → Holds r (word a ++ rest)
      → Takes (read_u16 rd) v r (word a) rest a
  read_u16-Takes {v} {a} {r} {rest} w h = record {
    held = skips-Holds (word a) rest r h;
    result =
        read_u16-cons v (a / 256 % 256) (a % 256) r rest (omega arith) (omega arith) h
        ∙ ap (λ n. ok n (skip (skip r))) (omega arith);
  }

  pub read_bytes-Takes :
      (vs old : List ℕ) {r : R} {rest : List ℕ}
      → length old ≡ length vs
      → Holds r (vs ++ rest)
      → Takes (read_bytes rd) old r vs rest vs
  unfolding read_bytes
  read_bytes-Takes [] [] e h = record { held = h; result = refl }
  read_bytes-Takes [] (o ∷ old) e h = absurd (omega arith)
  read_bytes-Takes (v ∷ vs) [] e h = absurd (omega arith)
  read_bytes-Takes (v ∷ vs) (o ∷ old) {r} {rest} e h =
      let more =
        read_bytes-Takes vs old {r = skip r} {rest = rest} (omega arith)
          (skip-Holds r v (vs ++ rest) h) in
      record { held = more.held; result = cc (read_u8-cons 0 r v (vs ++ rest) h, more.result) }

  pub read_words-Takes :
      (vs old : List ℕ) {r : R} {rest : List ℕ}
      → length old ≡ length vs
      → All IsU16 vs
      → Holds r (words vs ++ rest)
      → Takes (read_words rd) old r (words vs) rest vs
  unfolding read_words
  read_words-Takes [] [] e w h = record { held = h; result = refl }
  read_words-Takes [] (o ∷ old) e w h = absurd (omega arith)
  read_words-Takes (v ∷ vs) [] e w h = absurd (omega arith)
  read_words-Takes (v ∷ vs) (o ∷ old) {r} {rest} e w h =
      let one = read_u16-Takes {v = o} {a = v} {r = r} {rest = words vs ++ rest} w.0 h in
      let more =
        read_words-Takes vs old {r = skip (skip r)} {rest = rest} (omega arith) w.1 one.held in
      record { held = more.held; result = cc (one.result, more.result) }

pub length-resize : (n x : ℕ) (v : List ℕ) → length (resize n x v) ≡ n
unfolding resize
length-resize zero x v = refl
length-resize (suc n) x [] = ap suc (length-resize n x [])
length-resize (suc n) x (y ∷ v) = ap suc (length-resize n x v)

pub return_code-error :
    {R T : Type 0} (ec : ErrorCode) (t : T) (r : R)
    → ec.value ≢ 0
    → return_code ec t r ≡ error ec t r
return_code-error ec t r h = ground arith

pub >>_assoc :
    {R T : Type 0} (m k l : Read R T) (t : T) (r : R) → ((m >> k) >> l) t r ≡ (m >> (k >> l)) t r
>>_assoc {R} {T} m k l t r = go (m t r)
  where
    go : (x : Reading R T) → (((λ _ _. x) >> k) >> l) t r ≡ ((λ _ _. x) >> (k >> l)) t r
    go (ok t' r') = refl
    go (error ec t' r') = refl
    go (fault e) = refl
