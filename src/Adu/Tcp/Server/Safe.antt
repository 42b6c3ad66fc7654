-- ===== src/Adu/Tcp/Server/Safe.antt =====
-- The reading of a request stays inside the message buffer, whatever comes in, and calls the callback after at
-- most two completions.
use mothbus.Base.{
  ℕ, ◌+◌, ◌-◌, ◌≤◌, ◌<◌, ◌≡◌, refl, ap, ap₂, sym, ◌∙◌, inl, inr, true, Bool-cases, List, ◌++◌,
  length, take, drop, length-append, length-drop, leb_of_le, arith,
}
use mothbus.Error.{done, ◌>>=◌}
use mathlib.Core.Path.{subst}
use mothbus.Pdu.Request.{PduReq}
use mothbus.Adu.Buffer.{buffer, prepare, store}
use mothbus.Adu.Tcp.{MbapHeader, header_size, is_valid_length}
use mothbus.Adu.Tcp.Receive.{mbap, FitsHeader}
use mothbus.Adu.Tcp.Server.{
  RequestReadOp, State, reading_header, reading_body, called_back, Completion, filled, broken,
  wanted, gives_up, async_read_request, store_read, complete, Admissible, Step, header_step,
  body_step, Steps, none_yet, one_more,
}
use mothbus.Adu.Tcp.Server.Header.{header_of, length_bounds}
use mothbus.Adu.Tcp.Server.Reply.{
  op_with, op_after, header-filled, async_read_request-too_big, body-filled,
}

-- How many reads are still to complete, the pending one included.
abbrev pub remaining : State → ℕ
remaining (reading_header op) = 2
remaining (reading_body op) = 1
remaining (called_back call op) = 0

-- A read that breaks leaves its bytes in its region.
pub store_read-inside :
    (n : ℕ) (bytes : List ℕ) (op : RequestReadOp)
    → op.source.output_start + n ≤ length op.source.message_buffer
    → (op' : RequestReadOp) × (store_read n bytes op ≡ done op')
unfolding store_read store prepare
store_read-inside n bytes op room = (
  record op {
    source = record op.source {
      message_buffer =
          take op.source.output_start op.source.message_buffer
          ++ (bytes ++ drop (op.source.output_start + length bytes) op.source.message_buffer);
    };
  },
  rw (leb_of_le (op.source.output_start + n) (length op.source.message_buffer) room),
)

module _ (message : List ℕ) (req : PduReq) (room : 260 ≤ length message) where
  -- What the operation has before each of its two reads.
  abbrev pub WellFormed : State → Type 0
  WellFormed (reading_header op) = op ≡ op_with message req (buffer message)
  WellFormed (reading_body op) =
      (h : MbapHeader) × FitsHeader h × (is_valid_length h ≡ true) × (op ≡ op_after message req h)
  WellFormed (called_back call op) = Unit {0}

  -- A completion leads on.
  abbrev pub LeadsOn : Completion → State → Type 0
  LeadsOn c s =
      (s' : State) × (complete c s ≡ done s') × WellFormed s' × (remaining s' < remaining s)

  pub header-LeadsOn :
      (op : RequestReadOp)
      → op ≡ op_with message req (buffer message)
      → (c : Completion) → Admissible c header_size
      → LeadsOn c (reading_header op)
  unfolding complete
  header-LeadsOn op e (filled bytes) (n, w) =
      let (h, fits, same) = header_of bytes n w in
      let start =
        ap₂ (λ (bs : List ℕ) (o : RequestReadOp). complete (filled bs) (reading_header o))
          (sym same) e in
      elim (Bool-cases (is_valid_length h)) [
        | inl valid ↦ (
          reading_body (op_after message req h),
          start ∙ header-filled message req room h fits valid,
          (h, fits, valid, refl),
          omega arith,
        )
        | inr invalid ↦
            (_, start ∙ async_read_request-too_big message req room h fits invalid, tt, omega arith)
      ]
  header-LeadsOn op e (broken ec bytes) (n, w, f) =
      let (op', stored) = store_read-inside header_size bytes op (
        omega (
          arith,
          ap (λ (o : RequestReadOp). o.source.output_start) e,
          ap (λ (o : RequestReadOp). length o.source.message_buffer) e,
        )) in
      (gives_up ec op', ap (λ o. o >>= λ op'. done (gives_up ec op')) stored, tt, omega arith)

  body-LeadsOn :
      (op : RequestReadOp)
      → WellFormed (reading_body op)
      → (c : Completion) → Admissible c (op.length - 1)
      → LeadsOn c (reading_body op)
  unfolding complete
  body-LeadsOn op (h, fits, valid, e) (filled bytes) (n, w) =
      let (ec, op', called, verdict) =
        body-filled message req room h fits valid bytes
          (n ∙ ap (λ (o : RequestReadOp). o.length - 1) e) w in
      (
        _,
        ap (λ (o : RequestReadOp). complete (filled bytes) (reading_body o)) e ∙ called,
        tt,
        omega arith,
      )
  body-LeadsOn op (h, fits, valid, e) (broken ec bytes) (n, w, f) =
      let (op', stored) = store_read-inside (op.length - 1) bytes op (
        omega (
          arith,
          ap (λ (o : RequestReadOp). o.source.output_start) e,
          ap (λ (o : RequestReadOp). o.length) e,
          ap (λ (o : RequestReadOp). length o.source.message_buffer) e,
          length-append (mbap h) (drop 7 message),
          length-drop 7 message,
          length_bounds h valid,
        )) in
      (gives_up ec op', ap (λ o. o >>= λ op'. done (gives_up ec op')) stored, tt, omega arith)

  -- What a completion leads to is one state.
  reached :
      (c : Completion) (s s' : State)
      → LeadsOn c s
      → complete c s ≡ done s'
      → WellFormed s' × (remaining s' < remaining s)
  reached c s s' (s'', e, good, less) e' =
      let same : s'' ≡ s' = cc in
      subst (λ (t : State). WellFormed t × (remaining t < remaining s)) same (good, less)

  Step-WellFormed :
      {s s' : State} → Step s s' → WellFormed s → WellFormed s' × (remaining s' < remaining s)
  Step-WellFormed (header_step {op} c a e) good =
      reached c (reading_header op) _ (header-LeadsOn op good c a) e
  Step-WellFormed (body_step {op} c a e) good =
      reached c (reading_body op) _ (body-LeadsOn op good c a) e

  Steps-WellFormed :
      {n : ℕ} {s : State}
      → Steps (async_read_request message req) n s
      → WellFormed s × (n + remaining s ≤ 2)
  Steps-WellFormed none_yet = (refl, omega arith)
  Steps-WellFormed (one_more steps step) =
      let (good, few) = Steps-WellFormed steps in
      let (good', less) = Step-WellFormed step good in (good', omega arith)

  next :
      (s : State)
      → WellFormed s
      → (c : Completion) → Admissible c (wanted s)
      → (s' : State) × (complete c s ≡ done s')
  unfolding complete
  next (reading_header op) good c a = let (s', e, _, _) = header-LeadsOn op good c a in (s', e)
  next (reading_body op) good c a = let (s', e, _, _) = body-LeadsOn op good c a in (s', e)
  next (called_back call op) good (filled bytes) a = (called_back call op, refl)
  next (called_back call op) good (broken ec bytes) a = (called_back call op, refl)

  -- With a message buffer of at least 260 bytes, after any number of completions of the reads of
  -- async_read_request: that number and the number of reads still to complete are at most 2 together,
  -- so the callback is called after at most two; and whatever a completion of the pending read brings,
  -- bytes or an error, the operation goes on to a next state without leaving the message buffer.
  pub async_read_request-ends :
      (n : ℕ) (s : State)
      → Steps (async_read_request message req) n s
      → (n + remaining s ≤ 2)
        × ((c : Completion) → Admissible c (wanted s) → (s' : State) × (complete c s ≡ done s'))
  async_read_request-ends n s steps = let (good, few) = Steps-WellFormed steps in (few, next s good)
