-- ===== src/Examples/RegisterServer/Serves.antt =====
-- All requests of a connection to the sample server, one after the other.
use mothbus.Base.{
  ℕ, zero, suc, ◌+◌, ◌-◌, ◌≤◌, ◌<◌, ◌≡◌, refl, sym, ap, ◌∙◌, inl, inr, true, Bool-cases, leb, ltb,
  ◌&&◌, List, [], ◌∷◌, ◌++◌, append-nil, append_assoc, length, length-append, length-drop,
  length-replicate, drop, replicate, All, IsByte, IsU16, leb_of_le, arith,
}
use mothbus.Error.{ErrorCode, generic_category}
use mothbus.Pdu.Request.{
  Request, request, read_holding, read_coils, read_discrete_inputs, read_input, write_single_coil,
  write_single_register, write_multiple_coils, write_multiple_registers,
  read_write_multiple_registers,
}
use mothbus.Pdu.Request.Wire.{encode, IsValid}
use mathlib.Core.Path.{subst}
use mothbus.Adu.Layer.{returned, threw}
use mothbus.Adu.Layer.Wire.{Wire, wire, read_front}
use mothbus.Adu.Tcp.{MbapHeader, Stream, fresh_stream, header_size, is_valid_length}
use mothbus.Adu.Tcp.Frame.{adu}
use mothbus.Adu.Tcp.Receive.{mbap}
use mothbus.Util.{Endian}
use mothbus.Examples.Loop
use mothbus.Examples.Loop.{await_read}
use mothbus.Examples.RegisterServer.{handle, turn, handle_message}
use mothbus.Examples.RegisterServer.Client.{length-reply}
use mothbus.Examples.RegisterServer.Reply.{reply, in_range, inside}
use mothbus.Examples.RegisterServer.Turn.{turn-replies}

-- A request as a client sends it.
pub record Asked : Type 0 where
  pub transaction_id : ℕ
  pub protocol : ℕ
  pub unit_id : ℕ
  pub question : Request

abbrev pub header : Asked → MbapHeader
header a = record {
  transaction_id = a.transaction_id;
  protocol = a.protocol;
  length = suc (length (encode a.question));
  unit_id = a.unit_id;
}

abbrev pub sent : List Asked → List ℕ
sent [] = []
sent (a ∷ asked) = mbap (header a) ++ (encode a.question ++ sent asked)

-- The frames that answer them.
abbrev pub answers : List ℕ → List Asked → List ℕ
answers registers [] = []
answers registers (a ∷ asked) =
    adu a.transaction_id 0 a.unit_id (reply registers (request a.question))
    ++ answers registers asked

pub record IsAsked (a : Asked) : Type 0 where
  pub ids : IsU16 a.transaction_id × IsU16 a.protocol
  pub valid : IsValid a.question
  pub short : length (encode a.question) ≤ 253
  pub bytes : All IsByte (encode a.question)

reply_short : (registers : List ℕ) (q : Request) → length (reply registers (request q)) ≤ 252
reply_short registers (read_holding req) =
    elim (Bool-cases (leb 1 req.quantity_of_registers && leb req.quantity_of_registers 125)) [
      | inr many ↦
          let two : length (reply registers (request (read_holding req))) ≡ 2 = rw many in
          omega (arith, two)
      | inl some ↦
          elim (Bool-cases
            (ltb (length registers) (req.starting_address + req.quantity_of_registers))) [
              | inl outside ↦
                  let two : length (reply registers (request (read_holding req))) ≡ 2 =
                    rw (some, outside) in
                  omega (arith, two)
              | inr there ↦
                  let count = in_range req.quantity_of_registers some in
                  omega (
                    arith,
                    count,
                    length-reply registers req.starting_address req.quantity_of_registers count (
                        inside (length registers) (req.starting_address + req.quantity_of_registers)
                          there),
                  )
            ]
    ]
reply_short registers (read_coils v) = omega arith
reply_short registers (read_discrete_inputs v) = omega arith
reply_short registers (read_input v) = omega arith
reply_short registers (write_single_coil v) = omega arith
reply_short registers (write_single_register v) = omega arith
reply_short registers (write_multiple_coils v) = omega arith
reply_short registers (write_multiple_registers v) = omega arith
reply_short registers (read_write_multiple_registers v) = omega arith

-- The read of a header at the end of the input.
abbrev pub end_of_input : ErrorCode
end_of_input = record { value = 2; category = generic_category }

valid_header : (a : Asked) → IsAsked a → is_valid_length (header a) ≡ true
unfolding is_valid_length
valid_header a is = rw (
  leb_of_le 2 (header a).length (omega arith),
  leb_of_le ((header a).length + 6) 260 (omega (arith, is.short)),
)

module _ (native : Endian) (registers message : List ℕ) (room : 260 ≤ length message) where
  -- The loop ends with the input, and what it has sent is this.
  abbrev Serves : Stream Wire → List Asked → List ℕ → ℕ → Type 0
  Serves st asked output n =
      (st' : Stream Wire) × (Loop.turns wire (handle wire native registers) message n st
        ≡ threw end_of_input st')
      × (st'.next_layer ≡ ([], output ++ answers registers asked))

  at_end :
      (st : Stream Wire) (output : List ℕ)
      → st.next_layer ≡ ([], output)
      → Loop.turn wire (handle wire native registers) message st
        ≡ threw end_of_input (record st { next_layer = ([], output) })
  unfolding Loop.turn await_read
  at_end st output e = rw (e, Loop.turn, await_read)

  module _ (st : Stream Wire)
      (good : (260 ≤ length st.message_buffer)
        × (length st.message_buffer ≤ 320)
        × (st.protocol ≡ 0))
      (a : Asked) (is : IsAsked a) (asked : List Asked) (output : List ℕ)
      (e : st.next_layer ≡ (sent (a ∷ asked), output)) where
    abbrev answer : List ℕ
    answer = adu a.transaction_id st.protocol a.unit_id (reply registers (request a.question))

    -- The stream when the first request has been answered.
    abbrev answered : Stream Wire
    answered = record st {
      message_buffer =
          answer ++ drop (length (reply registers (request a.question)) + 7) st.message_buffer;
      next_layer = (sent asked, output ++ answer);
    }

    answered_good :
        (260 ≤ length answered.message_buffer)
        × (length answered.message_buffer ≤ 320)
        × (answered.protocol ≡ 0)
    answered_good =
        let pdu : List ℕ = reply registers (request a.question) in
        let size : length answered.message_buffer ≡ length st.message_buffer = omega (
          arith,
          length-append answer (drop (length pdu + 7) st.message_buffer),
          length-drop (length pdu + 7) st.message_buffer,
          reply_short registers a.question,
          good,
        ) in
        (omega (arith, size, good), omega (arith, size, good), good.2)

    first : Loop.turn wire (handle wire native registers) message st ≡ returned true answered
    unfolding turn
    first =
        let nothing = append-nil (encode a.question) in
        turn-replies wire native registers message room st (header a)
          (is.ids.0, is.ids.1, omega (arith, is.short)) (encode a.question ++ sent asked, output)
          (ap (wire.read header_size) e
            ∙ read_front (mbap (header a)) (encode a.question ++ sent asked) output 7 refl)
          (valid_header a is) a.question [] is.valid (ap (length {A = ℕ}) nothing ∙ omega arith)
          (subst (All IsByte) (sym nothing) is.bytes) (sent asked, output)
          (subst
            (λ (l : List ℕ).
              wire.read ((header a).length - 1) (encode a.question ++ sent asked, output)
              ≡ returned l (sent asked, output))
            (sym nothing)
            (read_front (encode a.question) (sent asked) output ((header a).length - 1)
              (omega arith)))
          (sent asked, output ++ answer) good.0 good.1 refl

  turns-serve :
      (asked : List Asked) (st : Stream Wire) (output : List ℕ) (n : ℕ)
      → All IsAsked asked
      → length asked < n
      → (260 ≤ length st.message_buffer) × (length st.message_buffer ≤ 320) × (st.protocol ≡ 0)
      → st.next_layer ≡ (sent asked, output)
      → Serves st asked output n
  unfolding Loop.turns
  turns-serve [] st output zero is enough good e = absurd (omega arith)
  turns-serve (a ∷ asked) st output zero is enough good e = absurd (omega arith)
  turns-serve [] st output (suc n) is enough good e = (
    record st { next_layer = ([], output) },
    rw (at_end st output e, Loop.turns),
    ap (λ (l : List ℕ). ([], l)) (sym (append-nil output)),
  )
  turns-serve (a ∷ asked) st output (suc n) is enough good e =
      let (st', ends, got) =
        turns-serve asked (answered st good a is.0 asked output e)
          (output ++ answer st good a is.0 asked output e) n is.1 (omega arith)
          (answered_good st good a is.0 asked output e) refl in
      (
        st',
        rw (first st good a is.0 asked output e, Loop.turns) ends,
        got
            ∙ ap (λ (l : List ℕ). ([], l))
                (append_assoc output _ (answers registers asked)
                  ∙ ap
                      (λ (p : ℕ).
                        output
                        ++ (adu a.transaction_id p a.unit_id (reply registers (request a.question))
                            ++ answers registers asked))
                      good.2),
      )

-- Over a wire: of a connection on which any number of valid requests come in, each in one frame of at
-- most 260 bytes, and then nothing more, the sample server's handle_message answers each by its reply,
-- in their order, and ends with the error of the read behind them. One turn more than there are
-- requests is enough. The reply is the registers that are asked for, illegal_data_value where their
-- number is not from 1 to 125, illegal_data_address where they do not lie inside the server's, and
-- illegal_function for any other request.
pub handle_message-serves :
    (native : Endian) (registers : List ℕ) (asked : List Asked) (n : ℕ)
    → All IsAsked asked
    → length asked < n
    → (st' : Stream Wire) × (handle_message wire native registers n (sent asked, [])
        ≡ threw end_of_input st')
      × (st'.next_layer ≡ ([], answers registers asked))
unfolding handle_message
handle_message-serves native registers asked n is enough =
    let size : length {A = ℕ} (replicate 320 0) ≡ 320 = length-replicate {A = ℕ} 320 0 in
    turns-serve native registers (replicate 320 0) (omega (arith, size)) asked
      (fresh_stream (sent asked, [])) [] n is enough
      (omega (arith, size), omega (arith, size), refl) refl
