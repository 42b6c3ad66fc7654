-- ===== src/Examples/Session.antt =====
-- The library's client and the sample server of examples/tcpserver_coroutine_with_data.cpp at the two ends of
-- a connection.
pub mod Exchanges
pub mod Lookup
pub mod Updates
use mothbus.Base.{
  ℕ, ◌≤◌, ◌<◌, ◌≡◌, ◌≢◌, Bool, true, false, IsU16, List, [], ◌∷◌, ◌++◌, length, take, drop, leb,
  if◌then◌else◌,
}
use mothbus.Error.{ErrorCode, generic_category}
use mothbus.Adu.Layer.{Call, Layer, returned, threw, undefined, ◌>>=◌}
use mothbus.Adu.Layer.Wire.{Wire, wire}
use mothbus.Adu.Master.{read_register_words}
use mothbus.Adu.Stream.Tcp.{ops}
use mothbus.Adu.Tcp.{Stream}
use mothbus.Util.{Endian}
use mothbus.Examples.RegisterServer.{turn}

-- The far end of a client's connection: whether the server is still in its loop, and its stream, whose input
-- is what the client sent, and whose output what the client can read.
pub record Peer : Type 0 where
  pub running : Bool
  pub server : Stream Wire

-- What a client asks for: the registers of a slave from an address on, as many as the array has elements.
pub record Query : Type 0 where
  pub slave : ℕ
  pub address : ℕ
  pub out : List ℕ

module _ (native : Endian) (registers message : List ℕ) where
  -- The server finds some bytes and makes a turn.
  abbrev pub woken : List ℕ → Stream Wire → Call Peer (Unit {0})
  woken bytes srv =
      let (input, output) = srv.next_layer in
      elim (turn wire native registers message
        (record srv { next_layer = (input ++ bytes, output) })) [
          | returned again srv' ↦ returned tt (record { running = again; server = srv' })
          | threw ec srv' ↦ returned tt (record { running = false; server = srv' })
          | undefined e ↦ undefined e
        ]

  -- The layer below the client. What it writes in one piece wakes the server; a read takes what the server
  -- has written, and throws where that is too short.
  abbrev pub connected : Layer Peer
  connected = record {
    read = λ n peer.
        let (input, output) = peer.server.next_layer in
        if leb n (length output)
        then returned (take n output)
            (record peer { server = record peer.server { next_layer = (input, drop n output) } })
        else threw (record { value = 2; category = generic_category }) peer;
    write = λ bytes peer. if peer.running then woken bytes peer.server else returned tt peer;
  }

  -- The client asks for registers.
  abbrev pub ask : Query → Stream Peer → Call (Stream Peer) (ErrorCode × List ℕ)
  ask q = read_register_words (ops connected) q.slave q.address q.out

  -- It asks one query after the other.
  abbrev pub ask_all : List Query → Stream Peer → Call (Stream Peer) (List (ErrorCode × List ℕ))
  ask_all [] st = returned [] st
  ask_all (q ∷ qs) st =
      (ask q >>= λ answer. ask_all qs >>= λ answers. returned (answer ∷ answers)) st

-- Both ends have answered all that was asked.
pub record Ready (st : Stream Peer) : Type 0 where
  pub client_roomy : 256 ≤ length st.message_buffer
  pub client_small : length st.message_buffer ≤ 320
  pub server_roomy : 260 ≤ length st.next_layer.server.message_buffer
  pub server_small : length st.next_layer.server.message_buffer ≤ 320
  pub counters : IsU16 st.transaction_id × IsU16 st.protocol
  pub same_protocol : st.next_layer.server.protocol ≡ st.protocol
  pub serving : st.next_layer.running ≡ true
  pub idle : st.next_layer.server.next_layer ≡ ([], [])
