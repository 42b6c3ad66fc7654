-- ===== src/Examples/RegisterServer/Turn.antt =====
-- One turn of the sample server's loop, from the bytes that come in to the frame that goes out.
use mothbus.Base.{ℕ, ◌+◌, ◌-◌, ◌≤◌, ◌<◌, ◌≡◌, refl, true, List, ◌++◌, length, drop, All, IsByte}
use mothbus.Error.{out_of_bounds}
use mothbus.Pdu.Request.{Request, request}
use mothbus.Pdu.Request.Wire.{encode, IsValid}
use mothbus.Adu.Layer.{Layer, returned, undefined}
use mothbus.Adu.Tcp.{MbapHeader, Stream, header_size, is_valid_length}
use mothbus.Adu.Tcp.Frame.{adu}
use mothbus.Adu.Tcp.Receive.{mbap, FitsHeader}
use mothbus.Util.{Endian}
use mothbus.Examples.Loop.Turn as Loop
use mothbus.Examples.RegisterServer.{handle, turn}
use mothbus.Examples.RegisterServer.Reply.{reply, handle-replies}

module _ {N : Type 0} (layer : Layer N) (native : Endian) (registers message : List ℕ)
    (room : 260 ≤ length message) (st : Stream N) (h : MbapHeader) (fits : FitsHeader h) (n : N)
    (headed : layer.read header_size st.next_layer ≡ returned (mbap h) n) where
  -- With a message buffer of at least 260 bytes: when a header comes in that announces a body for which
  -- the message buffer has no room, and the layer reads that body, the sample server stores it behind
  -- the end of the message buffer.
  pub turn-overflows :
      (bytes : List ℕ) (n' : N)
      → length message < h.length + 6
      → layer.read (h.length - 1) n ≡ returned bytes n'
      → turn layer native registers message st ≡ undefined out_of_bounds
  unfolding turn
  turn-overflows =
      Loop.turn-overflows layer (handle layer native registers) message room st h fits n headed

  module _ (valid : is_valid_length h ≡ true) (q : Request) (rest : List ℕ) (is_valid : IsValid q)
      (full : length (encode q ++ rest) ≡ h.length - 1) (bytes : All IsByte (encode q ++ rest))
      (n' : N) (came : layer.read (h.length - 1) n ≡ returned (encode q ++ rest) n') where
    -- With buffers of 260 bytes at least, that of the stream of 320 at most: when a header with a valid
    -- length comes in and then as many bytes as it announces, which begin with a valid request, the
    -- sample server sends one frame with the transaction id and the unit id of the header. Its PDU is
    -- the reply: the registers that are asked for, illegal_data_value where their number is not from 1
    -- to 125, illegal_data_address where they do not lie inside the server's, and illegal_function for
    -- any other request. There is another turn then.
    pub turn-replies :
        (sent : N)
        → 260 ≤ length st.message_buffer
        → length st.message_buffer ≤ 320
        → layer.write (adu h.transaction_id st.protocol h.unit_id (reply registers (request q))) n'
          ≡ returned tt sent
        → turn layer native registers message st
          ≡ returned true (record st {
            message_buffer =
                adu h.transaction_id st.protocol h.unit_id (reply registers (request q))
                ++ drop (length (reply registers (request q)) + 7) st.message_buffer;
            next_layer = sent;
          })
    unfolding turn
    turn-replies sent roomy small took =
        Loop.turn-handles layer (handle layer native registers) message room st h fits n headed
          valid (encode q ++ rest) full bytes n' came q rest _ is_valid refl
          (handle-replies layer native registers (record st { next_layer = n' }) roomy small
            h.transaction_id h.unit_id (request q) sent (Loop.code_small q) took)
