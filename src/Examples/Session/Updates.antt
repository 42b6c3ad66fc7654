-- ===== src/Examples/Session/Updates.antt =====
-- A client that asks the sample server of examples/tcpserver_coroutine_with_data.cpp for registers, while
-- main's thread posts updates of all of them.
use mothbus.Base.{
  ℕ, ◌+◌, ◌≤◌, ◌≡◌, refl, ◌∙◌, ap, inl, inr, Bool-cases, ◌&&◌, not, leb, ltb, if◌then◌else◌, IsU16,
  All, List, [], ◌∷◌, length, length-replicate, replicate, to_u16, arith,
}
use mothbus.Error.{ErrorCode, no_error, make_error_code, illegal_data_value, illegal_data_address}
use mothbus.Adu.Layer.{Call, returned, ◌>>=◌}
use mothbus.Adu.Tcp.{Stream}
use mothbus.Util.{Endian}
use mothbus.Examples.RegisterServer.Reply.{inside}
use mothbus.Examples.RegisterServer.Updates.{
  set_registers, set_registers-replicate, replicate-U16, take-drop-replicate,
}
use mothbus.Examples.Session.{Peer, Query, ask, Ready}
use mothbus.Examples.Session.Lookup.{lookup, IsQuery, ask-lookup, bind-returned}

-- What the server's event loop runs between two answers: the client asks, or an update comes first.
pub data Event : Type 0 where
  asks : Query → Event
  posts : ℕ → Event

abbrev pub IsEvent : Event → Type 0
IsEvent (asks q) = IsQuery q
IsEvent (posts i) = Unit {0}

module _ (native : Endian) (message : List ℕ) where
  -- What the client gets for its queries, in the registers that the server has by then.
  abbrev pub run :
      List ℕ → List Event → Stream Peer → Call (Stream Peer) (List (ErrorCode × List ℕ))
  run registers [] st = returned [] st
  run registers (asks q ∷ es) st =
      (ask native registers message q >>= λ answer.
      run registers es >>= λ answers. returned (answer ∷ answers))
        st
  run registers (posts i ∷ es) st = run (set_registers i registers) es st

-- Of n registers that all hold v, those that are asked for, or why there are none.
abbrev pub snapshot : ℕ → ℕ → Query → ErrorCode × List ℕ
snapshot n v q =
    if not (leb 1 (length q.out) && leb (length q.out) 125)
    then (make_error_code illegal_data_value, q.out)
    else if ltb n (q.address + length q.out)
    then (make_error_code illegal_data_address, q.out)
    else (no_error, replicate (length q.out) v)

-- One after the other; an update changes what all later ones see.
abbrev pub seen : ℕ → ℕ → List Event → List (ErrorCode × List ℕ)
seen n v [] = []
seen n v (asks q ∷ es) = snapshot n v q ∷ seen n v es
seen n v (posts i ∷ es) = seen n (to_u16 i) es

lookup-replicate : (n v : ℕ) (q : Query) → lookup (replicate n v) q ≡ snapshot n v q
lookup-replicate n v q = elim (Bool-cases (leb 1 (length q.out) && leb (length q.out) 125)) [
  | inr many ↦ rw many
  | inl some ↦ elim (Bool-cases (ltb n (q.address + length q.out))) [
    | inl outside ↦ rw (some, length-replicate n v, outside)
    | inr there ↦ rw (
      some,
      length-replicate n v,
      there,
      take-drop-replicate q.address (length q.out) n v (inside n (q.address + length q.out) there),
    )
  ]
]

module _ (native : Endian) (message : List ℕ) (room : 260 ≤ length message) (n : ℕ) where
  -- Over a connection to the sample server that is ready, whose buffer for requests has at least 260
  -- bytes and whose registers all hold one value of 16 bits: while a client asks queries one after the
  -- other, each to a slave other than 0, at an address and for a number of registers that fit 16 bits,
  -- 124 and 125 excepted, and any number of updates run between them, each query gets as many copies of
  -- the number of the last update, modulo 65536, as it asks for, or of the first value before any
  -- update, and so never a mix of two; or illegal_data_value where their number is not from 1 to 125,
  -- or illegal_data_address where they do not lie inside the server's, with its array as it was then.
  -- Both ends are ready again.
  pub run-seen :
      (es : List Event) (v : ℕ) (st : Stream Peer)
      → IsU16 v
      → Ready st
      → All IsEvent es
      → (st' : Stream Peer) × (run native message (replicate n v) es st
          ≡ returned (seen n v es) st')
        × Ready st'
  run-seen [] v st u ready is = (st, refl, ready)
  run-seen (asks q ∷ es) v st u ready is =
      let (st', got, ready') =
        ask-lookup native (replicate n v) message room (replicate-U16 n u) st q ready is.0 in
      let (st'', rest, ready'') = run-seen es v st' u ready' is.1 in
      (
        st'',
        bind-returned (ask native (replicate n v) message q) _ st
              (got ∙ ap (λ a. returned a st') (lookup-replicate n v q))
            ∙ bind-returned (run native message (replicate n v) es) _ st' rest,
        ready'',
      )
  run-seen (posts i ∷ es) v st u ready is =
      let (st', rest, ready') = run-seen es (to_u16 i) st (omega arith) ready is.1 in
      (
        st',
        ap (λ (rs : List ℕ). run native message rs es st) (set_registers-replicate i n v) ∙ rest,
        ready',
      )
