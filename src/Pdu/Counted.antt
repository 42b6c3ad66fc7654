-- ===== src/Pdu/Counted.antt =====
-- The tail that three of the request classes share: a byte count, and a vector that is resized by the
-- count and then read.
use mothbus.Base.{
  ℕ, ◌≡◌, refl, sym, ap, ◌∙◌, List, [], ◌∷◌, ◌++◌, IsByte, IsU16, All, word, words, length,
}
use mathlib.Core.Path.{subst}
use mothbus.Pdu.Reader.{Reader, Read, field, modify, resize, read_u16, read_bytes, read_words, ◌>>◌}
use mothbus.Pdu.Reader.Laws.{ReaderLaws, Takes, skips, >>-Takes, field-Takes, read_u8-Takes}
use mothbus.Pdu.Reader.Laws.{read_u16-Takes, read_bytes-Takes, read_words-Takes, length-resize}
use mothbus.Pdu.Reader.Exact.{Exact, >>-Exact, field-Exact, read_u8-Exact, modify-Exact}
use mothbus.Pdu.Reader.Exact.{read_bytes-Exact, read_u16-Exact, read_words-Exact, Exact_weaken}

-- What a vector's elements are on the wire, and how they are read into a span.
pub record Items : Type 1 where
  pub encode : List ℕ → List ℕ
  pub IsValid : List ℕ → Type 0
  pub read : (R : Type 0) → Reader R → Read R (List ℕ)
  pub takes :
      (R : Type 0) (rd : Reader R) (laws : ReaderLaws rd) (vs old : List ℕ) (r : R) (rest : List ℕ)
      → length old ≡ length vs
      → IsValid vs
      → laws.Holds r (encode vs ++ rest)
      → Takes laws (read R rd) old r (encode vs) rest vs
  pub exact :
      (R : Type 0) (rd : Reader R) (laws : ReaderLaws rd) (old : List ℕ)
      → Exact laws
          (read R rd)
          old
          (λ vs front. (length vs ≡ length old) × IsValid vs × (front ≡ encode vs))

abbrev pub byte_items : Items
byte_items = record {
  encode = λ vs. vs;
  IsValid = All IsByte;
  read = λ R rd. read_bytes rd;
  takes = λ R rd laws vs old r rest same valid held. read_bytes-Takes laws vs old same held;
  exact = λ R rd laws. read_bytes-Exact laws;
}

abbrev pub word_items : Items
word_items = record {
  encode = words;
  IsValid = All IsU16;
  read = λ R rd. read_words rd;
  takes = λ R rd laws vs old r rest. read_words-Takes laws vs old;
  exact = λ R rd laws. read_words-Exact laws;
}

-- The object with its count and its vector, and the number of elements that a count stands for.
pub record Slots (T : Type 0) : Type 0 where
  pub count : T → ℕ
  pub put_count : ℕ → T → T
  pub values : T → List ℕ
  pub put_values : List ℕ → T → T
  pub size : ℕ → ℕ
  pub count-put_count : (c : ℕ) (t : T) → count (put_count c t) ≡ c
  pub values-put_values : (vs : List ℕ) (t : T) → values (put_values vs t) ≡ vs
  pub put_values-put_values :
      (vs us : List ℕ) (t : T) → put_values vs (put_values us t) ≡ put_values vs t

module _ {T : Type 0} (slots : Slots T) (items : Items) where
  open slots use {count, put_count, values, put_values, size}

  -- `req.values.resize(size, 0);`
  abbrev pub resize_values : T → T
  resize_values t = put_values (resize (size (count t)) 0 (values t)) t

  abbrev pub read_counted : (R : Type 0) → Reader R → Read R T
  read_counted R rd = do
    field count put_count rd.read_u8
    modify resize_values
    field values put_values (items.read R rd)

  module _ {R : Type 0} {rd : Reader R} (laws : ReaderLaws rd) where
    fill :
        (c : ℕ) (vs : List ℕ) (t : T)
        → put_values vs (resize_values (put_count c t)) ≡ put_values vs (put_count c t)
    fill c vs t = slots.put_values-put_values vs _ (put_count c t)

    room : (c : ℕ) (t : T) → length (values (resize_values (put_count c t))) ≡ size c
    room c t =
        ap length (slots.values-put_values _ (put_count c t))
        ∙ length-resize (size (count (put_count c t))) 0 (values (put_count c t))
        ∙ ap size (slots.count-put_count c t)

    pub read_counted-Takes :
        (c : ℕ) (vs : List ℕ) (t : T) (r : R) (rest : List ℕ)
        → length vs ≡ size c
        → items.IsValid vs
        → laws.Holds r (c ∷ items.encode vs ++ rest)
        → Takes laws
            (read_counted R rd)
            t
            r
            (c ∷ items.encode vs)
            rest
            (put_values vs (put_count c t))
    read_counted-Takes c vs t r rest same valid held =
        subst (Takes laws (read_counted R rd) t r (c ∷ items.encode vs) rest) (fill c vs t) (
          >>-Takes laws (field count put_count rd.read_u8) _ (c ∷ []) (items.encode vs)
            (field-Takes laws count put_count rd.read_u8 _ _ (read_u8-Takes laws held))
            (>>-Takes laws (modify resize_values) _ [] (items.encode vs)
              (record { held = laws.skip-Holds r c _ held; result = refl })
              (field-Takes laws values put_values (items.read R rd) _ _ (
                items.takes R rd laws vs _ (laws.skip r) rest (room c t ∙ sym same) valid
                  (laws.skip-Holds r c _ held)))))

    -- What a reading of the tail has given: a count byte and as many elements as it stands for.
    abbrev pub Counted : T → T → List ℕ → Type 0
    Counted t t' front =
        (c : ℕ) × (vs : List ℕ) × IsByte c
        × (length vs ≡ size c)
        × items.IsValid vs
        × (t' ≡ put_values vs (put_count c t))
        × (front ≡ c ∷ items.encode vs)

    pub read_counted-Exact : (t : T) → Exact laws (read_counted R rd) t (Counted t)
    read_counted-Exact t =
        >>-Exact laws (field count put_count rd.read_u8) _ t _ _
          (field-Exact laws count put_count rd.read_u8 t _ (read_u8-Exact laws (count t)))
          (λ t' front p.
            >>-Exact laws (modify resize_values) _ t' _ _
              (modify-Exact laws resize_values t'
                (λ t'' none. (t'' ≡ resize_values t') × (none ≡ [])) (refl, refl))
              (λ t'' none e.
                Exact_weaken laws (field values put_values (items.read R rd)) t'' _ _
                  (λ last more q. counted t' t'' last front none more p e q)
                  (field-Exact laws values put_values (items.read R rd) t'' _
                    (items.exact R rd laws (values t'')))))
      where
        counted :
            (t' t'' last : T) (front none more : List ℕ)
            → ((c : ℕ) × (t' ≡ put_count c t) × (IsByte c × (front ≡ c ∷ [])))
            → (t'' ≡ resize_values t') × (none ≡ [])
            → ((vs : List ℕ) × (last ≡ put_values vs t'')
                × ((length vs ≡ length (values t'')) × items.IsValid vs × (more ≡ items.encode vs)))
            → Counted t last (front ++ (none ++ more))
        counted t' t'' last front none more (c, ec, (wc, fc)) (er, en) (vs, ev, (same, valid, fv)) =
            let resized : t'' ≡ resize_values (put_count c t) = er ∙ ap resize_values ec in
            (
              c,
              vs,
              wc,
              same ∙ ap (λ u. length (values u)) resized ∙ room c t,
              valid,
              ev ∙ ap (put_values vs) resized ∙ fill c vs t,
              rw (fc, en, fv),
            )

-- A word, and then the rest of the object.
module _ {T : Type 0} (get : T → ℕ) (put : ℕ → T → T) where
  module _ {R : Type 0} {rd : Reader R} (laws : ReaderLaws rd) (k : Read R T) where
    pub word-Takes :
        {t t' : T} {a : ℕ} {r : R} (more rest : List ℕ)
        → IsU16 a
        → laws.Holds r (word a ++ (more ++ rest))
        → (laws.Holds (skips laws 2 r) (more ++ rest)
            → Takes laws k (put a t) (skips laws 2 r) more rest t')
        → Takes laws (field get put (read_u16 rd) >> k) t r (word a ++ more) rest t'
    word-Takes {a = a} more rest fits held next =
        let one = read_u16-Takes laws {a = a} fits held in
        >>-Takes laws (field get put (read_u16 rd)) k (word a) more
          (field-Takes laws get put (read_u16 rd) _ _ one) (next one.held)

    pub word-Exact :
        (t : T) (Q : T → List ℕ → Type 0)
        → ((a : ℕ) → IsU16 a → Exact laws k (put a t) (λ t' more. Q t' (word a ++ more)))
        → Exact laws (field get put (read_u16 rd) >> k) t Q
    word-Exact t Q next =
        >>-Exact laws (field get put (read_u16 rd)) k t _ Q
          (field-Exact laws get put (read_u16 rd) t _ (read_u16-Exact laws (get t)))
          (λ t' front p. follow t' front p)
      where
        follow :
            (t' : T) (front : List ℕ)
            → ((a : ℕ) × (t' ≡ put a t) × (IsU16 a × (front ≡ word a)))
            → Exact laws k t' (λ t'' more. Q t'' (front ++ more))
        follow t' front (a, e, (fits, same)) = rw (e, same) (next a fits)
