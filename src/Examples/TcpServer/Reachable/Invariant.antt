-- ===== src/Examples/TcpServer/Reachable/Invariant.antt =====
-- What holds of every connection of the server at any time.
use mothbus.Base.{
  ℕ, ◌≡◌, refl, sym, inl, inr, Bool-cases, List, ◌∷◌, ◌++◌, All, All-at, All-exchange,
  length-replicate,
}
use mathlib.Core.Path.{subst}
use mothbus.Error.{ErrorCode, failed}
use mothbus.Adu.Layer.{Layer, WriteLaws}
use mothbus.Adu.Tcp.{Stream}
use mothbus.Adu.Tcp.Server.{
  State, reading_header, reading_body, called_back, Completion, Admissible, wanted,
}
use mothbus.Examples.Loop.{fresh}
use mothbus.Examples.TcpServer.{
  Connection, reading, Progress, next, Server, async_read, on_accept, on_completion,
}
use mothbus.Examples.TcpServer.Ends.{WellFormed, Ends, header-Ends}
use mothbus.Examples.TcpServer.Ends.Body.{body-Ends}
use mothbus.Examples.TcpServer.Reachable.{Step, accepted, completed, Reached, started, stepped}

module _ {N : Type 0} (layer : Layer N) (writes : WriteLaws layer) where
  reading-Ends :
      (st : Stream N) (pending : State)
      → WellFormed (reading st pending)
      → (c : Completion) → Admissible c (wanted pending)
      → Ends layer c (on_completion layer c (reading st pending))
  unfolding async_read
  reading-Ends st (reading_header op) (size, old, e) c a =
      subst (λ o. Ends layer c (on_completion layer c (reading st (reading_header o)))) (sym e)
        (header-Ends layer st size old c a)
  reading-Ends st (reading_body op) (size, old, (h, fits, valid, e)) c a =
      subst (λ o. Ends layer c (on_completion layer c (reading st (reading_body o)))) (sym e)
        (body-Ends layer writes st size old h fits valid c
          (subst (λ o. Admissible c (wanted (reading_body o))) e a))
  reading-Ends st (called_back call op) (size, old, never) c a = absurd never

  -- A connection that goes on is as before.
  next-WellFormed :
      (c : Completion) (p : Progress N) (conn : Connection N)
      → Ends layer c p
      → p ≡ next conn
      → WellFormed conn
  next-WellFormed c p conn (inl (conn', e, good)) e' =
      let same : conn' ≡ conn = cc in subst WellFormed same good
  next-WellFormed c p conn (inr (inl (q, rest, came, other, e))) e' = absurd cc
  next-WellFormed c p conn (inr (inr (req, rest, came, there, many, e))) e' = absurd cc

  accept-WellFormed :
      (ec : ErrorCode) (n : N) (s : Server N)
      → All WellFormed s.connections
      → All WellFormed (on_accept layer ec n s).connections
  unfolding on_accept async_read
  accept-WellFormed ec n s good = elim (Bool-cases (failed ec)) [
    | inl bad ↦ rw bad good
    | inr fine ↦ rw fine ((length-replicate {A = ℕ} 320 0, fresh, refl), good)
  ]

  Step-WellFormed :
      {s s' : Server N}
      → Step layer s s'
      → All WellFormed s.connections
      → All WellFormed s'.connections
  Step-WellFormed {s} (accepted ec n waits) good = accept-WellFormed ec n s good
  Step-WellFormed {s} (completed before after st pending c conn' split a e) good =
      let good' = subst (All WellFormed) split good in
      All-exchange WellFormed before (reading st pending) conn' after good' (
        next-WellFormed c _ conn'
          (reading-Ends st pending (All-at WellFormed before (reading st pending) after good') c a)
          e)

  -- Over a layer whose writes return or throw: whatever connections come in and whatever their reads
  -- bring, in any order, every connection of the callback server is closed, or has a message buffer of
  -- 320 bytes and waits for a header, or for the body behind a header with a valid length.
  pub Reached-WellFormed : {s : Server N} → Reached layer s → All WellFormed s.connections
  Reached-WellFormed started = tt
  Reached-WellFormed (stepped reached step) = Step-WellFormed step (Reached-WellFormed reached)

  -- Over a layer whose writes return or throw: whatever completes a pending read of a connection of the
  -- callback server that can be reached, the connection goes on or is closed, well-formed as before; or
  -- the bytes are a request of a class other than reading holding registers, for which the handler has
  -- no overload; or they are a request for 156 holding registers at least at the address 100, whose
  -- reply is written behind the end of the message buffer.
  pub Reached-Ends :
      {s : Server N} (before after : List (Connection N)) (st : Stream N) (pending : State)
      (c : Completion)
      → Reached layer s
      → s.connections ≡ before ++ (reading st pending ∷ after)
      → Admissible c (wanted pending)
      → Ends layer c (on_completion layer c (reading st pending))
  Reached-Ends before after st pending c reached split a =
      reading-Ends st pending
        (All-at WellFormed before (reading st pending) after
          (subst (All WellFormed) split (Reached-WellFormed reached)))
        c a
