-- ===== src/Examples/ZeroServer/Zeros.antt =====
-- The server of zeros beside the server with registers.
use Prim.Native.String.{String}
use mothbus.Base.{
  ℕ, zero, suc, ◌+◌, ◌-◌, ◌*◌, ◌≤◌, ◌<◌, ◌∙◌, ◌≡◌, refl, ap, inl, inr, Bool-cases, ◌&&◌, leb, List,
  [], ◌∷◌, length, length-replicate, take, drop, replicate, words, words-zeros, ltb_of_le, arith,
}
use mothbus.Pdu.Request.{
  Request, request, read_holding, read_coils, read_discrete_inputs, read_input, write_single_coil,
  write_single_register, write_multiple_coils, write_multiple_registers,
  read_write_multiple_registers,
}
use mothbus.Pdu.Request.Wire.{IsValid, code}
use mothbus.Pdu.FunctionCode.{to_byte}
use mothbus.Pdu.ReqReadingRegister.{ReadHoldingPduReq}
use mothbus.Adu.Layer.{Layer}
use mothbus.Adu.Tcp.{Stream}
use mothbus.Util.{Endian, memcpy_msb-words}
use mothbus.Examples.RegisterServer
use mothbus.Examples.RegisterServer.Reply.{in_range}
use mothbus.Examples.ZeroServer.{Output, text, number, Terminal, print, beside, handle}

-- Three lines for a request: its kind, the unit, and the address or the function code.
abbrev lines : String → ℕ → String → ℕ → List Output
lines kind unit_id what value =
    text kind
    ∷ text "unitID: "
    ∷ number unit_id
    ∷ text "\n"
    ∷ text what
    ∷ number value
    ∷ text "\n"
    ∷ []

abbrev pub announced : ℕ → Request → List Output
announced unit_id (read_holding req) =
    lines "read holding register request received:\n" unit_id "register address: "
      req.starting_address
announced unit_id q =
    lines "not implemented function code received:\n" unit_id "functionCode " (to_byte (code q))

drop-zeros : (n size : ℕ) → drop n (replicate size 0) ≡ replicate {A = ℕ} (size - n) 0
drop-zeros zero size = ap (λ (k : ℕ). replicate {A = ℕ} k 0) (omega arith)
drop-zeros (suc n) zero = ap (λ (k : ℕ). replicate {A = ℕ} k 0) {x = 0} (omega arith)
drop-zeros (suc n) (suc size) =
    drop-zeros n size ∙ ap (λ (k : ℕ). replicate {A = ℕ} k 0) {x = size - n} (omega arith)

take-zeros : (n size : ℕ) → n ≤ size → take n (replicate size 0) ≡ replicate {A = ℕ} n 0
take-zeros zero size h = refl
take-zeros (suc n) zero h = absurd (omega arith)
take-zeros (suc n) (suc size) h = ap (λ (l : List ℕ). 0 ∷ l) (take-zeros n size (omega arith))

module _ {N : Type 0} (layer : Layer N) (native : Endian) (size : ℕ) (enough : 65660 ≤ size)
    (transaction_id unit_id : ℕ) (st : Stream (Terminal N)) where
  holding-zeros :
      (req : ReadHoldingPduReq)
      → req.starting_address < 65536
      → handle layer (request (read_holding req)) transaction_id unit_id st
        ≡ RegisterServer.handle
            (beside layer)
            native
            (replicate size 0)
            (request (read_holding req))
            transaction_id
            unit_id
            (print (announced unit_id (read_holding req)) st)
  unfolding handle RegisterServer.handle
  holding-zeros req fits =
      elim (Bool-cases (leb 1 req.quantity_of_registers && leb req.quantity_of_registers 125)) [
        | inr many ↦ rw many
        | inl some ↦
            let (_, few) = in_range req.quantity_of_registers some in
            let regs : List ℕ =
              take req.quantity_of_registers (drop req.starting_address (replicate size 0)) in
            let zeros : regs ≡ replicate req.quantity_of_registers 0 =
              ap (take req.quantity_of_registers) (drop-zeros req.starting_address size)
              ∙ take-zeros req.quantity_of_registers (size - req.starting_address) (omega arith) in
            let counted : length regs * 2
                ≡ length {A = ℕ} (replicate (req.quantity_of_registers * 2) 0) =
              omega (
                arith,
                ap (length {A = ℕ}) zeros,
                length-replicate {A = ℕ} (req.quantity_of_registers * 2) 0,
                length-replicate {A = ℕ} req.quantity_of_registers 0,
              ) in
            rw (
              some,
              length-replicate {A = ℕ} size 0,
              ltb_of_le size (req.starting_address + req.quantity_of_registers) (omega arith),
              memcpy_msb-words native (replicate (req.quantity_of_registers * 2) 0) regs counted,
              ap words zeros ∙ words-zeros req.quantity_of_registers,
            )
      ]

  -- For a valid request, the handler of the server without registers prints three lines, with the unit
  -- id and the starting address of a request for holding registers or the function code of any other,
  -- and then does what the handler of the server with registers, which prints nothing, does when these
  -- are zeros, 65660 of them at least.
  pub handle-zeros :
      (q : Request)
      → IsValid q
      → handle layer (request q) transaction_id unit_id st
        ≡ RegisterServer.handle
            (beside layer)
            native
            (replicate size 0)
            (request q)
            transaction_id
            unit_id
            (print (announced unit_id q) st)
  unfolding handle RegisterServer.handle
  handle-zeros (read_holding req) h = holding-zeros req h.0
  handle-zeros (read_coils req) h = refl
  handle-zeros (read_discrete_inputs req) h = refl
  handle-zeros (read_input req) h = refl
  handle-zeros (write_single_coil req) h = refl
  handle-zeros (write_single_register req) h = refl
  handle-zeros (write_multiple_coils req) h = refl
  handle-zeros (write_multiple_registers req) h = refl
  handle-zeros (read_write_multiple_registers req) h = refl
