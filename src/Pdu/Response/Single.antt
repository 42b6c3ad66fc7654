-- ===== src/Pdu/Response/Single.antt =====
-- The responses to writing one coil and one register: both readings let only two values through.
use mothbus.Base.{ℕ, ◌≡◌, ◌⊎◌, refl, sym, ◌∙◌, List, ◌++◌, true, false}
use mothbus.Base.{◌==◌, ◌||◌, arith}
use mothbus.Error.{make_error_code, illegal_data_value}
use mothbus.Pdu.Codec.{two_words-takes}
use mothbus.Pdu.Reader.{Reader, error, field, read_u16, ◌>>◌}
use mothbus.Pdu.Reader.Laws.{ReaderLaws, Takes, skips, >>_assoc}
use mothbus.Pdu.RespWritingSingleCoil
use mothbus.Pdu.RespWritingSingleCoil.{WriteSingleCoilPduResp}
use mothbus.Pdu.RespWritingSingleRegister
use mothbus.Pdu.RespWritingSingleRegister.{WriteSingleRegisterPduResp}

-- The values of a coil.
abbrev pub IsCoil : ℕ → Type 0
IsCoil x = (x ≡ 0x0000) ⊎ (x ≡ 0xff00)

coil_value : (x : ℕ) → IsCoil x → (x == 0x0000 || x == 0xff00) ≡ true
coil_value x h = ground arith

no_coil_value : (x : ℕ) → ¬ IsCoil x → (x == 0x0000 || x == 0xff00) ≡ false
no_coil_value x h = ground arith

module _ {R : Type 0} {rd : Reader R} (laws : ReaderLaws rd) where
  -- The response to writing a coil is read back, if it has one of the two values.
  pub single_coil-Takes :
      (t v : WriteSingleCoilPduResp) (r : R) (rest : List ℕ)
      → RespWritingSingleCoil.format.IsValid v
      → IsCoil v.value
      → laws.Holds r (RespWritingSingleCoil.format.encode v ++ rest)
      → Takes laws
          (RespWritingSingleCoil.read rd)
          t
          r
          (RespWritingSingleCoil.format.encode v)
          rest
          v
  unfolding RespWritingSingleCoil.read RespWritingSingleCoil.check_value
  single_coil-Takes t v r rest valid coil held =
      let took =
        two_words-takes (λ t. t.address) (λ t. t.value) RespWritingSingleCoil.put_address
          RespWritingSingleCoil.put_value t v refl R rd laws r rest valid held in
      record {
        held = took.held;
        result =
            sym (
              >>_assoc (field (λ t. t.address) RespWritingSingleCoil.put_address (read_u16 rd))
                (field (λ t. t.value) RespWritingSingleCoil.put_value (read_u16 rd))
                RespWritingSingleCoil.check_value t r)
            ∙ rw (took.result, ◌>>◌, coil_value v.value coil);
      }

  -- The response to writing a register with any other value is refused as an illegal value, though it
  -- is the right response to a request that wrote this value.
  pub single_register-refused :
      (t v : WriteSingleRegisterPduResp) (r : R) (rest : List ℕ)
      → RespWritingSingleRegister.format.IsValid v
      → ¬ IsCoil v.value
      → laws.Holds r (RespWritingSingleRegister.format.encode v ++ rest)
      → RespWritingSingleRegister.read rd t r
        ≡ error (make_error_code illegal_data_value) v (skips laws 4 r)
  unfolding RespWritingSingleRegister.read RespWritingSingleRegister.check_value make_error_code
  single_register-refused t v r rest valid other held =
      let took =
        two_words-takes (λ t. t.address) (λ t. t.value) RespWritingSingleRegister.put_address
          RespWritingSingleRegister.put_value t v refl R rd laws r rest valid held in
      sym (
        >>_assoc (field (λ t. t.address) RespWritingSingleRegister.put_address (read_u16 rd))
          (field (λ t. t.value) RespWritingSingleRegister.put_value (read_u16 rd))
          RespWritingSingleRegister.check_value t r)
      ∙ rw (took.result, ◌>>◌, no_coil_value v.value other)
