-- ===== src/Examples/TcpServer/Reachable.antt =====
-- The server over time: connections come in, and their reads complete in any order.
pub mod Invariant
use mothbus.Base.{ℕ, ◌≤◌, ◌≡◌, true, List, [], ◌∷◌, ◌++◌, length}
use mothbus.Error.{ErrorCode, out_of_bounds}
use mothbus.Pdu.Request.{Request, PduReq, read_holding}
use mothbus.Adu.Layer.{Layer}
use mothbus.Adu.Tcp.{Stream}
use mothbus.Adu.Tcp.Server.{State, Completion, Admissible, wanted}
use mothbus.Examples.TcpServer.{
  Connection, reading, closed, next, Server, accept, on_accept, on_completion,
}

module _ {N : Type 0} (layer : Layer N) where
  -- One callback of the event loop. A connection that waits for nothing takes no step.
  pub data Step (s : Server N) : Server N → Type 0 where
    accepted : (ec : ErrorCode) (n : N) → s.accepting ≡ true → Step s (on_accept layer ec n s)
    completed :
        (before after : List (Connection N)) (st : Stream N) (pending : State) (c : Completion)
        (conn' : Connection N)
        → s.connections ≡ before ++ (reading st pending ∷ after)
        → Admissible c (wanted pending)
        → on_completion layer c (reading st pending) ≡ next conn'
        → Step s (record s { connections = before ++ (conn' ∷ after) })

  -- The states of the server that has been started.
  pub data Reached : Server N → Type 0 where
    started : Reached (accept [])
    stepped : {s s' : Server N} → Reached s → Step s s' → Reached s'
