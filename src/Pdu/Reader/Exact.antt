-- ===== src/Pdu/Reader/Exact.antt =====
-- The readers of pdu/reader.h on any input: each takes the bytes of a value off the front of the
-- input, or stops with the error that the end of the input gives. A rule for each way to combine them.
use mothbus.Base.{ℕ, suc, ◌+◌, ◌*◌, ◌%◌, ◌≡◌, refl, sym, ap, ap₂, ◌∙◌, ◌⊎◌, inl, inr}
use mothbus.Base.{List, [], ◌∷◌, ◌++◌, append_assoc, IsByte, IsU16, All, word, words, length, arith}
use mothbus.Pdu.Reader.{Reader, Reading, Read, field, prepend, modify, ◌>>◌}
use mothbus.Pdu.Reader.{read_u16, read_bytes, read_words}
use mothbus.Pdu.Reader.Laws.{
  ReaderLaws, skips, skips-append, Takes, Fails, >>-Takes, >>-Fails, >>-Fails_second,
}
use mothbus.Pdu.Reader.Laws.{field-Takes, field-Fails, read_u8-Takes, read_u16-Takes}

pub All-append_right {ℓ κ} :
    {A : Type ℓ} (P : A → Type κ) (xs ys : List A) → All P (xs ++ ys) → All P ys
All-append_right P [] ys h = h
All-append_right P (x ∷ xs) ys h = All-append_right P xs ys h.1

-- Two bytes are the bytes of the word that they spell.
word_of_bytes : (hi lo : ℕ) → IsByte hi → IsByte lo → hi ∷ lo ∷ [] ≡ word (hi * 256 + lo)
word_of_bytes hi lo p q = ap₂ (λ (a b : ℕ). a ∷ b ∷ []) {x = hi} (omega arith) (omega arith)

module _ {R : Type 0} {rd : Reader R} (laws : ReaderLaws rd) where
  open laws use {Holds, skip, at_end, read_u8-cons, read_u8-nil, skip-Holds}

  -- From `t` the reading `m` takes some bytes `front`, and `P` holds of the result and of them; or
  -- the input ends too early.
  abbrev pub Exact : {T : Type 0} → Read R T → T → (T → List ℕ → Type 0) → Type 0
  Exact {T} m t P =
      (r : R) (bs : List ℕ)
      → All IsByte bs
      → Holds r bs
      → ((t' : T) × (front : List ℕ) × (rest : List ℕ) × P t' front
          × (bs ≡ front ++ rest)
          × Takes laws m t r front rest t')
        ⊎ Fails laws (m t r)

  pub read_u8-Exact : (v : ℕ) → Exact rd.read_u8 v (λ b front. IsByte b × (front ≡ b ∷ []))
  read_u8-Exact v r [] w h = inr (v, r, read_u8-nil v r h)
  read_u8-Exact v r (b ∷ bs) w h = inl (b, b ∷ [], bs, (w.0, refl), refl, read_u8-Takes laws h)

  pub read_u16-Exact : (v : ℕ) → Exact (read_u16 rd) v (λ a front. IsU16 a × (front ≡ word a))
  unfolding read_u16
  read_u16-Exact v r [] w h = inr (v, r, cc (read_u8-nil 0 r h))
  read_u16-Exact v r (hi ∷ []) w h = inr (
    hi * 256 % 65536,
    skip r,
    cc (read_u8-cons 0 r hi [] h, read_u8-nil hi (skip r) (skip-Holds r hi [] h)),
  )
  read_u16-Exact v r (hi ∷ lo ∷ bs) w h =
      let spelled = word_of_bytes hi lo w.0 w.1.0 in
      let fits : IsU16 (hi * 256 + lo) = omega arith in
      inl (
        hi * 256 + lo,
        hi ∷ lo ∷ [],
        bs,
        (fits, spelled),
        refl,
        rw spelled (read_u16-Takes laws {r = r} fits (rw (ap (λ f. f ++ bs) spelled) at h)),
      )

  module _ {T A : Type 0} where
    pub field-Exact :
        (get : T → A) (put : A → T → T) (m : Read R A) (t : T) (P : A → List ℕ → Type 0)
        → Exact m (get t) P
        → Exact (field get put m) t (λ t' front. (a : A) × (t' ≡ put a t) × P a front)
    field-Exact get put m t P e r bs w h = elim (e r bs w h) [
      | inl (a, front, rest, p, split, took) ↦
          inl
            (put a t, front, rest, (a, refl, p), split, field-Takes laws get put m front rest took)
      | inr f ↦ inr (field-Fails laws get put m f)
    ]

  module _ {T : Type 0} (m k : Read R T) where
    -- The second step may rely on what the first one gave.
    pub >>-Exact :
        (t : T) (P Q : T → List ℕ → Type 0)
        → Exact m t P
        → ((t' : T) (front : List ℕ) → P t' front → Exact k t' (λ t'' more. Q t'' (front ++ more)))
        → Exact (m >> k) t Q
    >>-Exact t P Q e next r bs w h = elim (e r bs w h) [
      | inl (t', front, rest, p, split, took) ↦
          elim (next t' front p (skips laws (length front) r) rest
            (All-append_right IsByte front rest (rw split at w)) took.held) [
              | inl (t'', more, rest', q, split', took') ↦ inl (
                t'',
                front ++ more,
                rest',
                q,
                split ∙ ap (λ bs'. front ++ bs') split' ∙ sym (append_assoc front more rest'),
                >>-Takes laws m k front more (rw split' at took) took',
              )
              | inr f ↦ inr (>>-Fails_second laws m k front rest took f)
            ]
      | inr f ↦ inr (>>-Fails laws m k f)
    ]

  -- What follows may be read with another postcondition that follows from this one.
  pub Exact_weaken :
      {T : Type 0} (m : Read R T) (t : T) (P Q : T → List ℕ → Type 0)
      → ((t' : T) (front : List ℕ) → P t' front → Q t' front)
      → Exact m t P
      → Exact m t Q
  Exact_weaken m t P Q up e r bs w h = elim (e r bs w h) [
    | inl (t', front, rest, p, split, took) ↦ inl (t', front, rest, up t' front p, split, took)
    | inr f ↦ inr f
  ]

  -- A step that reads nothing.
  pub modify-Exact :
      {T : Type 0} (f : T → T) (t : T) (P : T → List ℕ → Type 0) → P (f t) [] → Exact (modify f) t P
  modify-Exact f t P p r bs w h = inl (f t, [], bs, p, refl, record { held = h; result = refl })

  prepend-Fails :
      {T : Type 0} (a : T) (x : Reading R (List T)) → Fails laws x → Fails laws (prepend a x)
  prepend-Fails a x (v, r, e) = (a ∷ v, r, ap (prepend a) e)

  -- A span of `n` bytes takes `n` bytes.
  pub read_bytes-Exact :
      (old : List ℕ)
      → Exact
          (read_bytes rd)
          old
          (λ vs front. (length vs ≡ length old) × All IsByte vs × (front ≡ vs))
  unfolding read_bytes
  read_bytes-Exact [] r bs w h =
      inl ([], [], bs, (refl, tt, refl), refl, record { held = h; result = refl })
  read_bytes-Exact (o ∷ old) r [] w h = inr (o ∷ old, r, cc (read_u8-nil 0 r h))
  read_bytes-Exact (o ∷ old) r (b ∷ bs) w h =
      elim (read_bytes-Exact old (skip r) bs w.1 (skip-Holds r b bs h)) [
        | inl (vs, front, rest, (n, ws, same), split, took) ↦ inl (
          b ∷ vs,
          b ∷ front,
          rest,
          (ap suc n, (w.0, ws), ap (λ f. b ∷ f) same),
          ap (λ f. b ∷ f) split,
          record { held = took.held; result = cc (read_u8-cons 0 r b bs h, took.result) },
        )
        | inr f ↦
            let (v, r', e) = prepend-Fails b (read_bytes rd old (skip r)) f in
            inr (v, r', rw (read_u8-cons 0 r b bs h, read_bytes) e)
      ]

  -- A span of `n` words takes the bytes of `n` words.
  pub read_words-Exact :
      (old : List ℕ)
      → Exact
          (read_words rd)
          old
          (λ vs front. (length vs ≡ length old) × All IsU16 vs × (front ≡ words vs))
  unfolding read_words
  read_words-Exact [] r bs w h =
      inl ([], [], bs, (refl, tt, refl), refl, record { held = h; result = refl })
  read_words-Exact (o ∷ old) r bs w h = elim (read_u16-Exact o r bs w h) [
    | inl (a, front, rest, (fits, spelled), split, took) ↦
        elim (read_words-Exact old (skips laws (length front) r) rest
          (All-append_right IsByte front rest (rw split at w)) took.held) [
            | inl (vs, front', rest', (n, ws, same), split', took') ↦ inl (
              a ∷ vs,
              front ++ front',
              rest',
              (ap suc n, (fits, ws), ap₂ ◌++◌ spelled same),
              split ∙ ap (λ t. front ++ t) split' ∙ sym (append_assoc front front' rest'),
              record {
                held = rw (skips-append laws front front' r) took'.held;
                result = rw (skips-append laws front front' r) (cc (took.result, took'.result));
              },
            )
            | inr f ↦
                let (v, r', e) =
                  prepend-Fails a (read_words rd old (skips laws (length front) r)) f in
                inr (v, r', rw (took.result, read_words) e)
          ]
    | inr (u, r', e) ↦ inr (u ∷ old, r', rw (e, read_words))
  ]
