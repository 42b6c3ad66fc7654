-- ===== src/Examples/RegisterServer/Client.antt =====
-- The library's client and the sample server together.
use mothbus.Base.{
  ℕ, ◌+◌, ◌*◌, ◌≤◌, ◌≡◌, List, ◌∷◌, length, length-take, length-drop, take, drop, words, All, IsU16,
  leb_of_le, ltb_of_le, ap, sym, ◌∙◌, arith,
}
use mothbus.Error.{no_error}
use mathlib.Core.Path.{subst}
use mothbus.Pdu.Request.{PduReq, request, read_holding}
use mothbus.Adu.Layer.{returned}
use mothbus.Adu.Master.{read_register_words}
use mothbus.Adu.Master.Pack.{All-take, All-drop}
use mothbus.Adu.Master.ReadFunctions.{asking, length-words, read_register_words-reads}
use mothbus.Adu.Stream.{StreamOps, StreamLaws}
use mothbus.Examples.RegisterServer.Reply.{reply}

-- The reply to a request for registers that are there.
module _ (registers : List ℕ) (address count : ℕ) (some : (1 ≤ count) × (count ≤ 125))
    (within : address + count ≤ length registers) where
  abbrev asked : PduReq
  asked =
      request (read_holding (record { starting_address = address; quantity_of_registers = count }))

  pub reply-registers :
      reply registers asked ≡ 0x03 ∷ (count * 2) ∷ words (take count (drop address registers))
  reply-registers = rw (
    leb_of_le 1 count some.0,
    leb_of_le count 125 some.1,
    ltb_of_le (length registers) (address + count) within,
  )

  pub length-found : length (take count (drop address registers)) ≡ count
  length-found =
      omega (arith, length-take count (drop address registers), length-drop address registers)

  pub length-reply : length (reply registers asked) ≡ 2 + count * 2
  length-reply = omega (
    arith,
    ap (length {A = ℕ}) reply-registers,
    length-words (take count (drop address registers)),
    length-found,
  )

module _ {S : Type 0} {ops : StreamOps S} (laws : StreamLaws ops) (slave address : ℕ)
    (fits : IsU16 address) (out registers : List ℕ) (s s' : S) where
  -- Over any stream that keeps the laws: when 1 to 125 holding registers that lie inside the server's
  -- registers are asked for, and the slave answers with the PDU that is the sample server's reply,
  -- read_registers returns no error and the array holds these registers of the server.
  pub read_register_words-served :
      (1 ≤ length out) × (length out ≤ 125)
      → address + length out ≤ length registers
      → All IsU16 registers
      → laws.Exchange slave
          (asking 0x03 address (length out))
          (reply registers (
            request (
              read_holding
                (record { starting_address = address; quantity_of_registers = length out }))))
          s
          s'
      → read_register_words ops slave address out s
        ≡ returned (no_error, take (length out) (drop address registers)) s'
  read_register_words-served count inside w x =
      let ws = take (length out) (drop address registers) in
      let as_many : length ws ≡ length out =
        length-found registers address (length out) count inside in
      let answered = reply-registers registers address (length out) count inside in
      read_register_words-reads laws slave address fits out s s' (omega (arith, count)) ws as_many
        (All-take IsU16 (length out) (drop address registers) (All-drop IsU16 address registers w))
        (subst (λ (r : List ℕ). laws.Exchange slave (asking 0x03 address (length out)) r s s')
          (answered ∙ ap (λ (n : ℕ). 0x03 ∷ (n * 2) ∷ words ws) (sym as_many)) x)
