-- ===== src/Pdu/SpanResponse/Laws.antt =====
-- How a response with a span is read: into an array with room for the bytes that the count announces.
use mothbus.Base.{
  ℕ, zero, suc, ◌≤◌, ◌<◌, ◌≡◌, refl, sym, ap, ap₂, inl, inr, Bool-cases, List, [], ◌∷◌, ◌++◌,
  length, length-take,
}
use mothbus.Base.{take, drop, ltb, lt→ltb, ltb_of_le, if◌then◌else◌, arith}
use mothbus.Error.{make_error_code, too_many_bytes_received}
use mothbus.Pdu.FunctionCode.{FunctionCode}
use mothbus.Pdu.Reader.{Reader, ok, error, field, read_bytes, ◌>>◌}
use mothbus.Pdu.Reader.Laws.{
  ReaderLaws, Takes, >>-Takes, field-Takes, read_u8-Takes, read_bytes-Takes,
}
use mothbus.Pdu.SpanResponse.{SpanPduResp, subspan, fit, read}

take_all : (n : ℕ) (l : List ℕ) → n ≡ length l → (take n l ≡ l) × (drop n l ≡ [])
take_all zero [] h = (refl, refl)
take_all zero (x ∷ l) h = absurd (omega arith)
take_all (suc n) [] h = absurd (omega arith)
take_all (suc n) (x ∷ l) h = let (a, b) = take_all n l (omega arith) in (ap (λ t. x ∷ t) a, b)

module _ {fc : FunctionCode} where
  -- With room enough, the span shrinks to the count.
  fit_room :
      {R : Type 0} (t : SpanPduResp fc) (r : R)
      → t.byte_count ≤ length t.values
      → fit t r ≡ ok (subspan t.byte_count t) r
  unfolding fit
  fit_room t r h = elim (Bool-cases (ltb t.byte_count (length t.values))) [
    | inl e ↦ rw (ltb_of_le (length t.values) t.byte_count h, if◌then◌else◌, e)
    | inr e ↦
        let (same, none) = take_all t.byte_count t.values (ground arith) in
        rw (ltb_of_le (length t.values) t.byte_count h, if◌then◌else◌, e)
          (ap₂ (λ (vs us : List ℕ). ok (record t { values = vs; beyond = us ++ t.beyond }) r)
            (sym same) (sym none))
  ]

  -- What has been read: the count, the bytes in front, and the old contents behind them.
  abbrev pub filled : SpanPduResp fc → List ℕ → SpanPduResp fc
  filled t vs = record {
    byte_count = length vs;
    values = vs;
    beyond = drop (length vs) t.values ++ t.beyond;
  }

  module _ {R : Type 0} {rd : Reader R} (laws : ReaderLaws rd) where
    -- A response with at most as many bytes as the span has elements is read into it; behind those
    -- bytes the caller's array stays as it was.
    pub read-Takes :
        (t : SpanPduResp fc) (vs : List ℕ) (r : R) (rest : List ℕ)
        → length vs ≤ length t.values
        → laws.Holds r ((length vs ∷ vs) ++ rest)
        → Takes laws (read rd) t r (length vs ∷ vs) rest (filled t vs)
    unfolding read
    read-Takes t vs r rest room held =
        >>-Takes laws (field (λ t. t.byte_count) (λ c t. record t { byte_count = c }) rd.read_u8) _
          (length vs ∷ []) vs
          (field-Takes laws (λ t. t.byte_count) (λ c t. record t { byte_count = c }) rd.read_u8 _ _
            (read_u8-Takes laws held))
          (>>-Takes laws fit _ [] vs
            (record {
              held = laws.skip-Holds r (length vs) (vs ++ rest) held;
              result = fit_room (record t { byte_count = length vs }) (laws.skip r) room;
            })
            (field-Takes laws (λ t. t.values) (λ us t. record t { values = us }) (read_bytes rd) _ _
              (read_bytes-Takes laws vs (take (length vs) t.values)
                (omega (arith, length-take (length vs) t.values))
                (laws.skip-Holds r (length vs) (vs ++ rest) held))))

    -- A response that announces more bytes than the span has elements is refused before any element
    -- changes.
    pub read-too_many :
        (t : SpanPduResp fc) (n : ℕ) (r : R) (rest : List ℕ)
        → length t.values < n
        → laws.Holds r (n ∷ rest)
        → read rd t r
          ≡ error
              (make_error_code too_many_bytes_received)
              (record t { byte_count = n })
              (laws.skip r)
    unfolding read fit make_error_code
    read-too_many t n r rest over held =
        rw (
          laws.read_u8-cons t.byte_count r n rest held,
          field,
          ◌>>◌,
          lt→ltb (length t.values) n over,
        )
