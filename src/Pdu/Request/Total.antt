-- ===== src/Pdu/Request/Total.antt =====
-- The reading of a request on any input at all.
use mothbus.Base.{ℕ, ◌≡◌, ◌≢◌, refl, sym, ap, ap₂, ◌∙◌, ◌⊎◌, inl, inr, Bool-cases}
use mothbus.Base.{List, [], ◌∷◌, ◌++◌, IsByte, All, eq_of_==, ◌==◌, if◌then◌else◌, arith}
use mathlib.Core.Path.{subst, subst₂, fun_ext}
use mothbus.Error.{make_error_code, illegal_function}
use mothbus.Pdu.Codec.{Readable, Format, ReadsFormat}
use mothbus.Pdu.FunctionCode.{
  FunctionCode, unnamed, to_byte, from_byte, to_byte-from_byte, same, read_function_code,
}
use mothbus.Pdu.Reader.{Reader, error}
use mothbus.Pdu.Reader.Laws.{ReaderLaws, Takes, Fails}
use mothbus.Pdu.Reader.Exact.{Exact}
use mothbus.Pdu.Request.{
  Request, PduReq, request, not_implemented, Alternative, alternative, alternatives,
  read_pdu_variant, read,
}
use mothbus.Pdu.Request.Wire.{code, body, encode, IsValid}
use mothbus.Pdu.Request.Decode.{read_code}
use mothbus.Pdu.ReqReadingCoils
use mothbus.Pdu.ReqReadingDiscreteInputs
use mothbus.Pdu.ReqReadingRegister
use mothbus.Pdu.ReqReadingInputRegister
use mothbus.Pdu.ReqWritingSingleCoil
use mothbus.Pdu.ReqWritingSingleRegister
use mothbus.Pdu.ReqWritingMultipleCoils
use mothbus.Pdu.ReqWritingMultipleRegisters
use mothbus.Pdu.ReqReadingWritingMultipleRegisters
use mothbus.Pdu.Request.{
  read_coils, read_discrete_inputs, read_holding, read_input, write_single_coil,
  write_single_register, write_multiple_coils, write_multiple_registers,
  read_write_multiple_registers,
}

module _ {R : Type 0} {rd : Reader R} (laws : ReaderLaws rd) where
  -- A valid request with this code, and the bytes of its body.
  abbrev Given : ℕ → PduReq → List ℕ → Type 0
  Given b q' front =
      (q : Request) × (q' ≡ request q) × IsValid q × (to_byte (code q) ≡ b) × (front ≡ body q)

  abbrev IsGood : Alternative R → Type 0
  IsGood a = (resp : PduReq) → Exact laws a.read_into resp (Given (to_byte a.fc))

  alternative-IsGood :
      {T : Type 0} (c : Readable T) (f : Format T) (real : T) (inject : T → Request)
      → ReadsFormat f c real
      → ((v : T)
          → f.IsValid v
          → IsValid (inject v) × (code (inject v) ≡ f.fc) × (f.encode v ≡ body (inject v)))
      → IsGood (alternative rd c real inject)
  alternative-IsGood c f real inject reads known resp r bs w held =
      elim (reads.exact R rd laws r bs w held) [
        | inl (v, front, rest, (valid, same_bytes), split, took) ↦
            let (valid', fc, bytes) = known v valid in
            inl (
              request (inject v),
              front,
              rest,
              (inject v, refl, valid', ap to_byte (fc ∙ sym reads.same_code), same_bytes ∙ bytes),
              split,
              record { held = took.held; result = rw took.result },
            )
        | inr (v, r', e) ↦ inr (resp, r', rw e)
      ]

  -- Down the list: the first alternative with the code is taken, or there is none.
  variant_cases :
      (alts : List (Alternative R)) (fc : FunctionCode) (resp : PduReq)
      → All IsGood alts
      → Exact laws (read_pdu_variant alts fc) resp (Given (to_byte fc))
        ⊎ (All (λ a. to_byte a.fc ≢ to_byte fc) alts
            × ((r : R)
                → read_pdu_variant alts fc resp r
                  ≡ error (make_error_code illegal_function) (not_implemented 0) r))
  unfolding read_pdu_variant
  variant_cases [] fc resp good = inr (tt, λ r. refl)
  variant_cases (a ∷ alts) fc resp (good, goods) = elim (Bool-cases (to_byte a.fc == to_byte fc)) [
    | inl e ↦ inl (
        subst (λ m. Exact laws m resp (Given (to_byte fc)))
          (fun_ext λ resp'. fun_ext λ r. rw (e, if◌then◌else◌))
          (subst (λ b. Exact laws a.read_into resp (Given b)) (eq_of_== _ _ e) (good resp)))
    | inr e ↦ elim (variant_cases alts fc resp goods) [
      | inl exact ↦ inl (
          subst (λ m. Exact laws m resp (Given (to_byte fc)))
            (fun_ext λ resp'. fun_ext λ r. rw (e, if◌then◌else◌)) exact)
      | inr (others, refused) ↦ inr ((ground arith, others), λ r. rw (e, if◌then◌else◌) (refused r))
    ]
  ]

  alternatives-IsGood : All IsGood (alternatives rd)
  alternatives-IsGood = (
    alternative-IsGood ReqReadingCoils.readable ReqReadingCoils.format ReqReadingCoils.empty
        read_coils (ReqReadingCoils.read-ReadsFormat _) (λ v h. (h, refl, refl)),
    (
      alternative-IsGood ReqReadingDiscreteInputs.readable ReqReadingDiscreteInputs.format
          ReqReadingDiscreteInputs.empty read_discrete_inputs
          (ReqReadingDiscreteInputs.read-ReadsFormat _) (λ v h. (h, refl, refl)),
      (
        alternative-IsGood ReqReadingRegister.readable ReqReadingRegister.format
            ReqReadingRegister.empty read_holding (ReqReadingRegister.read-ReadsFormat _)
            (λ v h. (h, refl, refl)),
        (
          alternative-IsGood ReqReadingInputRegister.readable ReqReadingInputRegister.format
              ReqReadingInputRegister.empty read_input (ReqReadingInputRegister.read-ReadsFormat _)
              (λ v h. (h, refl, refl)),
          (
            alternative-IsGood ReqWritingSingleCoil.readable ReqWritingSingleCoil.format
                ReqWritingSingleCoil.empty write_single_coil
                (ReqWritingSingleCoil.read-ReadsFormat _) (λ v h. (h, refl, refl)),
            (
              alternative-IsGood ReqWritingSingleRegister.readable ReqWritingSingleRegister.format
                  ReqWritingSingleRegister.empty write_single_register
                  (ReqWritingSingleRegister.read-ReadsFormat _) (λ v h. (h, refl, refl)),
              (
                alternative-IsGood ReqWritingMultipleCoils.readable ReqWritingMultipleCoils.format
                    ReqWritingMultipleCoils.empty write_multiple_coils
                    (ReqWritingMultipleCoils.read-ReadsFormat _) (λ v h. (h, refl, refl)),
                (
                  alternative-IsGood ReqWritingMultipleRegisters.readable
                      ReqWritingMultipleRegisters.format ReqWritingMultipleRegisters.empty
                      write_multiple_registers (ReqWritingMultipleRegisters.read-ReadsFormat _)
                      (λ v h. (h, refl, refl)),
                  (
                    alternative-IsGood ReqReadingWritingMultipleRegisters.readable
                        ReqReadingWritingMultipleRegisters.format
                        ReqReadingWritingMultipleRegisters.empty read_write_multiple_registers
                        (ReqReadingWritingMultipleRegisters.read-ReadsFormat _)
                        (λ v h. (h, refl, refl)),
                    tt,
                  ),
                ),
              ),
            ),
          ),
        ),
      ),
    ),
  )

  -- No alternative has the byte `b`, so no request class has it.
  no_class :
      (b : ℕ) → All (λ a. to_byte a.fc ≢ b) (alternatives rd) → (q : Request) → to_byte (code q) ≢ b
  no_class b (h0, (h1, (h2, (h3, (h4, (h5, (h6, (h7, (h8, _))))))))) (read_coils v) = h0
  no_class b (h0, (h1, (h2, (h3, (h4, (h5, (h6, (h7, (h8, _))))))))) (read_discrete_inputs v) = h1
  no_class b (h0, (h1, (h2, (h3, (h4, (h5, (h6, (h7, (h8, _))))))))) (read_holding v) = h2
  no_class b (h0, (h1, (h2, (h3, (h4, (h5, (h6, (h7, (h8, _))))))))) (read_input v) = h3
  no_class b (h0, (h1, (h2, (h3, (h4, (h5, (h6, (h7, (h8, _))))))))) (write_single_coil v) = h4
  no_class b (h0, (h1, (h2, (h3, (h4, (h5, (h6, (h7, (h8, _))))))))) (write_single_register v) = h5
  no_class b (h0, (h1, (h2, (h3, (h4, (h5, (h6, (h7, (h8, _))))))))) (write_multiple_coils v) = h6
  no_class b (h0, (h1, (h2, (h3, (h4, (h5, (h6, (h7, (h8, _))))))))) (write_multiple_registers v) =
      h7
  no_class b (h0, (h1, (h2, (h3, (h4, (h5, (h6, (h7, (h8, _)))))))))
        (read_write_multiple_registers v) =
      h8

  whole :
      (b : ℕ) (resp : PduReq) (q : Request) (q' : PduReq) (r : R) (bs front rest : List ℕ)
      → laws.Holds r (b ∷ bs)
      → q' ≡ request q
      → front ≡ body q
      → Takes laws
          (read_pdu_variant (alternatives rd) (from_byte b))
          resp
          (laws.skip r)
          front
          rest
          q'
      → Takes laws (read rd) resp r (encode q) rest (request q)
  unfolding read
  whole b resp q q' r bs front rest held same bytes took =
      let took' =
        subst₂
          (λ f v.
            Takes laws (read_pdu_variant (alternatives rd) (from_byte b)) resp (laws.skip r) f rest
              v)
          bytes same took in
      record {
        held = took'.held;
        result = rw (read_code laws b (unnamed 0) r bs held, read) took'.result;
      }

  -- On any input the reading ends in one of three ways. The input begins with the bytes of a valid
  -- request: exactly those are taken, and that request is in the variant. Or it begins with a byte that
  -- is no class's function code: that byte is taken, the variant is `not_implemented`, and the error is
  -- `illegal_function`. Or it ends too early, which is reported.
  pub read_cases :
      (resp : PduReq) (r : R) (bs : List ℕ)
      → All IsByte bs
      → laws.Holds r bs
      → ((q : Request) × (rest : List ℕ) × IsValid q
          × (bs ≡ encode q ++ rest)
          × Takes laws (read rd) resp r (encode q) rest (request q))
        ⊎ ((b : ℕ) × (rest : List ℕ) × (bs ≡ b ∷ rest)
            × ((q : Request) → to_byte (code q) ≢ b)
            × (read rd resp r
                ≡ error (make_error_code illegal_function) (not_implemented 0) (laws.skip r)))
        ⊎ Fails laws (read rd resp r)
  unfolding read read_function_code
  read_cases resp r [] w held =
      inr (inr (resp, r, rw (laws.read_u8-nil 0 r held, read_function_code, read)))
  read_cases resp r (b ∷ bs) w held =
      elim (variant_cases (alternatives rd) (from_byte b) resp alternatives-IsGood) [
        | inl exact ↦ elim (exact (laws.skip r) bs w.1 (laws.skip-Holds r b bs held)) [
          | inl (q', front, rest, (q, same, valid, fc, bytes), split, took) ↦ inl (
            q,
            rest,
            valid,
            ap₂ ◌∷◌ (sym (fc ∙ to_byte-from_byte b)) (split ∙ ap (λ f. f ++ rest) bytes),
            whole b resp q q' r bs front rest held same bytes took,
          )
          | inr f ↦ inr (
              inr (
                let (v, r', e) = f in (v, r', rw (read_code laws b (unnamed 0) r bs held, read) e)))
        ]
        | inr (others, refused) ↦ inr (
            inl (
              b,
              bs,
              refl,
              no_class b (rw (to_byte-from_byte b) at others),
              rw (read_code laws b (unnamed 0) r bs held, read) (refused (laws.skip r)),
            ))
      ]
