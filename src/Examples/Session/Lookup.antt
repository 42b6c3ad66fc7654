-- ===== src/Examples/Session/Lookup.antt =====
-- What a client gets that asks the sample server for registers.
use mothbus.Base.{
  ℕ, ◌+◌, ◌≤◌, ◌≡◌, ◌≢◌, ◌⊎◌, refl, ap, ◌∙◌, inl, inr, true, Bool-cases, ◌&&◌, not, leb, ltb,
  if◌then◌else◌, IsU16, IsByte, All, List, [], ◌∷◌, map, length, take, drop, words, ◌*◌, arith,
}
use mothbus.Error.{
  ErrorCode, no_error, make_error_code, to_int, illegal_data_value, illegal_data_address,
  invalid_response, modbus_category,
}
use mathlib.Core.Path.{subst}
use mothbus.Pdu.FunctionCode.{to_byte}
use mothbus.Adu.Layer.{Call, returned, ◌>>=◌}
use mothbus.Adu.Master.Exceptions.{read_register_words-excepted, read_register_words-unread}
use mothbus.Adu.Master.ReadFunctions.{asking}
use mothbus.Adu.Stream.Tcp.{Exchange, ops, laws, exceptions}
use mothbus.Adu.Tcp.{Stream}
use mothbus.Util.{Endian}
use mothbus.Examples.RegisterServer.Client.{
  read_register_words-served, reply-registers, length-reply,
}
use mothbus.Examples.RegisterServer.Reply.{in_range, inside}
use mothbus.Examples.Session.{Peer, Query, connected, ask, ask_all, Ready}
use mothbus.Examples.Session.Exchanges.{pdu, left, exchanged, left-Ready, left_unread, refused}

-- The registers that are asked for, or why there are none.
abbrev pub lookup : List ℕ → Query → ErrorCode × List ℕ
lookup registers q =
    if not (leb 1 (length q.out) && leb (length q.out) 125)
    then (make_error_code illegal_data_value, q.out)
    else if ltb (length registers) (q.address + length q.out)
    then (make_error_code illegal_data_address, q.out)
    else (no_error, take (length q.out) (drop q.address registers))

-- What the client accepts an answer to.
pub record IsQuery (q : Query) : Type 0 where
  pub answered : q.slave ≢ 0
  pub fits : IsU16 q.address
  pub fits' : IsU16 (length q.out)
  pub short : (length q.out ≤ 123) ⊎ (126 ≤ length q.out)

pub bind-returned :
    {S A B : Type 0} (m : S → Call S A) (f : A → S → Call S B) {a : A} (s : S) {s' : S}
    → m s ≡ returned a s'
    → (m >>= f) s ≡ f a s'
bind-returned m f s e = rw (e, ◌>>=◌)

module _ (native : Endian) (registers message : List ℕ) (room : 260 ≤ length message)
    (w : All IsU16 registers) where
  module _ (st : Stream Peer) (ready : Ready st) (q : Query) (is : IsQuery q) where
    -- The answer to the query, and the client's stream then.
    abbrev answer : List ℕ
    answer =
        pdu native registers message room st ready q.slave q.address (length q.out) is.answered
          is.fits is.fits'

    abbrev then_left : Stream Peer
    then_left =
        left native registers message room st ready q.slave q.address (length q.out) is.answered
          is.fits is.fits'

    abbrev Finds : ErrorCode × List ℕ → Type 0
    Finds answer = (ask native registers message q st ≡ returned answer then_left) × Ready then_left

    excepted :
        (f e : ℕ)
        → answer ≡ f ∷ e ∷ []
        → IsByte f
        → 128 ≤ f
        → e ≢ 0
        → Finds (record { value = e; category = modbus_category }, q.out)
    excepted f e same byte top ne =
        let short : length answer ≡ 2 = ap (length {A = ℕ}) same in
        (
          read_register_words-excepted (exceptions (connected native registers message)) q.slave f e
              byte top ne q.address is.fits q.out st then_left is.fits'
              (subst
                (λ (r : List ℕ).
                  Exchange (connected native registers message) q.slave
                    (asking 0x03 q.address (length q.out)) r st then_left)
                same
                (exchanged native registers message room st ready q.slave q.address (length q.out)
                  is.answered is.fits is.fits' (omega arith) (omega arith)))
              (ground arith),
          left-Ready native registers message room st ready q.slave q.address (length q.out)
              is.answered is.fits is.fits' (omega arith) (omega arith),
        )

    found :
        (1 ≤ length q.out) × (length q.out ≤ 123)
        → q.address + length q.out ≤ length registers
        → Finds (no_error, take (length q.out) (drop q.address registers))
    found count within =
        let most : (1 ≤ length q.out) × (length q.out ≤ 125) = (count.0, omega (arith, count)) in
        let size : length answer ≡ 2 + length q.out * 2 =
          length-reply registers q.address (length q.out) most within in
        (
          read_register_words-served (laws (connected native registers message)) q.slave q.address
              is.fits q.out registers st then_left most within w
              (exchanged native registers message room st ready q.slave q.address (length q.out)
                is.answered is.fits is.fits' (omega arith) (omega (arith, count))),
          left-Ready native registers message room st ready q.slave q.address (length q.out)
              is.answered is.fits is.fits' (omega arith) (omega (arith, count)),
        )

    shorter :
        (leb 1 (length q.out) && leb (length q.out) 125) ≡ true
        → (1 ≤ length q.out) × (length q.out ≤ 123)
    shorter e =
        let count = in_range (length q.out) e in
        elim is.short [ inl few ↦ (count.0, few) | inr many ↦ absurd (omega (arith, count)) ]

    looked_up : Finds (lookup registers q)
    unfolding make_error_code to_int to_byte
    looked_up = elim (Bool-cases (leb 1 (length q.out) && leb (length q.out) 125)) [
      | inr many ↦
          subst Finds (rw many)
            (excepted 0x83 0x03 (rw many) (omega arith) (omega arith) (omega arith))
      | inl some ↦ elim (Bool-cases (ltb (length registers) (q.address + length q.out))) [
        | inl outside ↦
            subst Finds (rw (some, outside))
              (excepted 0x83 0x02 (rw (some, outside)) (omega arith) (omega arith) (omega arith))
        | inr there ↦
            subst Finds (rw (some, there))
              (found (shorter some) (inside (length registers) (q.address + length q.out) there))
      ]
    ]

  -- When both ends are ready: every query to a slave other than 0, at an address and for a number of
  -- registers that fit 16 bits, 124 and 125 excepted, gets the server's registers, or the exception that
  -- says why there are none, with the client's array as it was; and both ends are ready again.
  pub ask-lookup :
      (st : Stream Peer) (q : Query)
      → Ready st
      → IsQuery q
      → (st' : Stream Peer) × (ask native registers message q st
          ≡ returned (lookup registers q) st')
        × Ready st'
  ask-lookup st q ready is =
      let (got, ready') = looked_up st ready q is in (then_left st ready q is, got, ready')

  -- Over a connection to the sample server that is ready, whose buffer for requests has at least 260
  -- bytes and whose registers have 16 bits: a client that asks any number of queries, one after the
  -- other, each to a slave other than 0, at an address and for a number of registers that fit 16 bits,
  -- 124 and 125 excepted, gets for each the registers of the server, or illegal_data_value where their
  -- number is not from 1 to 125, or illegal_data_address where they do not lie inside the server's,
  -- with its array as it was then. Both ends are ready again.
  pub ask_all-lookup :
      (qs : List Query) (st : Stream Peer)
      → Ready st
      → All IsQuery qs
      → (st' : Stream Peer) × (ask_all native registers message qs st
          ≡ returned (map (lookup registers) qs) st')
        × Ready st'
  ask_all-lookup [] st ready is = (st, refl, ready)
  ask_all-lookup (q ∷ qs) st ready is =
      let (st', got, ready') = ask-lookup st q ready is.0 in
      let (st'', rest, ready'') = ask_all-lookup qs st' ready' is.1 in
      (
        st'',
        bind-returned (ask native registers message q) _ st got
            ∙ bind-returned (ask_all native registers message qs) _ st' rest,
        ready'',
      )

  -- Over a connection to the sample server that is ready, whose buffer for requests has at least 260
  -- bytes and whose registers have 16 bits: a client that asks a slave other than 0 for 124 or 125
  -- registers that lie inside the server's is sent them, and yet gets invalid_response, with its array
  -- as it was; the answer stays unread behind the header.
  pub ask-refuses :
      (st : Stream Peer) (q : Query)
      → Ready st
      → q.slave ≢ 0
      → IsU16 q.address
      → (124 ≤ length q.out) × (length q.out ≤ 125)
      → q.address + length q.out ≤ length registers
      → (st' : Stream Peer) × (ask native registers message q st
          ≡ returned (make_error_code invalid_response, q.out) st')
        × (st'.next_layer.server.next_layer ≡ (
          [],
          0x03 ∷ (length q.out * 2) ∷ words (take (length q.out) (drop q.address registers)),
        ))
  unfolding make_error_code
  ask-refuses st q ready asked fits count within =
      let fits' : IsU16 (length q.out) = omega (arith, count) in
      let answer : List ℕ =
        pdu native registers message room st ready q.slave q.address (length q.out) asked fits
          fits' in
      let some : (1 ≤ length q.out) × (length q.out ≤ 125) = (omega (arith, count), count.1) in
      let size : length answer ≡ 2 + length q.out * 2 =
        length-reply registers q.address (length q.out) some within in
      (
        left_unread native registers message room st ready q.slave q.address (length q.out) asked
            fits fits',
        read_register_words-unread (ops (connected native registers message)) q.slave
            (make_error_code invalid_response) q.address q.out fits' st _
            (refused native registers message room st ready q.slave q.address (length q.out) asked
              fits fits' (omega (arith, count), omega (arith, count)))
            refl,
        ap (λ (l : List ℕ). ([], l))
            (reply-registers registers q.address (length q.out) some within),
      )
