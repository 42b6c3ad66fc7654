-- ===== src/Examples/Session/Exchanges.antt =====
-- A query and the server's turn for it are an exchange of the client's stream.
use mothbus.Base.{
  ℕ, ◌+◌, ◌≤◌, ◌≡◌, ◌≢◌, refl, ap, true, IsU16, IsByte, All, List, [], ◌++◌, length, length-append,
  length-drop, take-length_append, drop, leb_of_le, sym, append-nil, to_u16, arith,
}
use mothbus.Pdu.FunctionCode.{to_byte}
use mothbus.Pdu.Request.{Request, request, read_holding}
use mothbus.Adu.Layer.{Layer, returned}
use mothbus.Adu.Layer.Wire.{Wire, wire, drop-front}
use mothbus.Adu.Master.ReadFunctions.{asking}
use mothbus.Adu.Tcp.{MbapHeader, Stream, header_size, is_valid_length}
use mothbus.Adu.Buffer.{Buffer, sink}
use mothbus.Adu.Stream.{Unread}
use mothbus.Adu.Tcp.{write_request}
use mothbus.Adu.Tcp.Answer.{read_response-fails}
use mothbus.Adu.Tcp.Refusal.{check_header-large}
use mothbus.Adu.Tcp.Send.{write_request-sends}
use mothbus.Error.{make_error_code, invalid_response}
use mothbus.Pdu.ReqReadingRegister
use mothbus.Adu.Stream.Tcp
use mothbus.Adu.Stream.Tcp.{Exchange, answer_header}
use mothbus.Adu.Tcp.Frame.{adu}
use mothbus.Adu.Tcp.Receive.{mbap}
use mothbus.Util.{Endian}
use mothbus.Examples.RegisterServer.{turn}
use mothbus.Examples.RegisterServer.Reply.{reply}
use mothbus.Examples.RegisterServer.Turn.{turn-replies}
use mothbus.Examples.Session.{Peer, woken, connected, Ready}

module _ (native : Endian) (registers message : List ℕ) (room : 260 ≤ length message) where
  abbrev layer : Layer Peer
  layer = connected native registers message

  -- The client reads as many bytes as stand first in what the server has sent.
  read_front :
      (front behind : List ℕ) (n : ℕ) (peer : Peer)
      → n ≡ length front
      → peer.server.next_layer ≡ ([], front ++ behind)
      → layer.read n peer
        ≡ returned front (record peer { server = record peer.server { next_layer = ([], behind) } })
  read_front front behind n peer e sent = rw (
    sent,
    e,
    leb_of_le (length front) (length (front ++ behind)) (omega (arith, length-append front behind)),
    take-length_append front behind,
    drop-front front behind,
  )

  module _ (st : Stream Peer) (ready : Ready st) (slave address count : ℕ) (asked : slave ≢ 0)
      (fits : IsU16 address) (fits' : IsU16 count) where
    abbrev pub question : Request
    question = read_holding (record { starting_address = address; quantity_of_registers = count })

    abbrev pub pdu : List ℕ
    pdu = reply registers (request question)

    abbrev header : MbapHeader
    header = record {
      transaction_id = st.transaction_id;
      protocol = st.protocol;
      length = 6;
      unit_id = slave;
    }

    abbrev server : Stream Wire
    server = st.next_layer.server

    abbrev served : Stream Wire
    served = record server {
      message_buffer =
          adu st.transaction_id server.protocol slave pdu
          ++ drop (length pdu + 7) server.message_buffer;
      next_layer = ([], adu st.transaction_id server.protocol slave pdu);
    }

    valid : is_valid_length header ≡ true
    unfolding is_valid_length
    valid = refl

    bytes : All IsByte (asking 0x03 address count)
    bytes = (omega arith, (omega arith, (omega arith, (omega arith, (omega arith, tt)))))

    turned :
        turn wire native registers message (record server {
          next_layer = (adu st.transaction_id st.protocol slave (asking 0x03 address count), []);
        })
        ≡ returned true served
    unfolding to_byte
    turned =
        turn-replies wire native registers message room
          (record server {
            next_layer = (adu st.transaction_id st.protocol slave (asking 0x03 address count), []);
          })
          header (ready.counters.0, ready.counters.1, omega arith) (asking 0x03 address count, [])
          refl valid question [] (fits, fits') refl bytes ([], []) refl
          ([], adu st.transaction_id server.protocol slave pdu) ready.server_roomy
          ready.server_small refl

    written :
        layer.write
          (adu st.transaction_id st.protocol slave (asking 0x03 address count))
          st.next_layer
        ≡ returned tt (record { running = true; server = served })
    written = rw (ready.serving, ready.idle, woken, turned)

    abbrev sent : Peer
    sent = record { running = true; server = served }

    -- When the client has read the header, and when it has read all.
    abbrev headed : Peer
    headed = record { running = true; server = record served { next_layer = ([], pdu) } }

    abbrev ended : Peer
    ended = record { running = true; server = record served { next_layer = ([], []) } }

    answer_ready : served.next_layer ≡ ([], mbap (answer_header layer slave pdu st) ++ pdu)
    answer_ready = ap (λ (p : ℕ). ([], adu st.transaction_id p slave pdu)) ready.same_protocol

    heads : layer.read header_size sent ≡ returned (mbap (answer_header layer slave pdu st)) headed
    heads = read_front (mbap (answer_header layer slave pdu st)) pdu 7 sent refl answer_ready

    abbrev pub left : Stream Peer
    left = record st {
      message_buffer =
          mbap (answer_header layer slave pdu st)
          ++ (pdu
              ++ drop (length pdu)
                  (drop 7 (Tcp.asking layer slave (asking 0x03 address count) st)));
      next_layer = ended;
      transaction_id = to_u16 (st.transaction_id + 1);
    }

    asked_length :
        length (Tcp.asking layer slave (asking 0x03 address count) st) ≡ length st.message_buffer
    asked_length = omega (
      arith,
      length-append (adu st.transaction_id st.protocol slave (asking 0x03 address count))
          (drop 12 st.message_buffer),
      length-drop 12 st.message_buffer,
      ready.client_roomy,
    )

    -- An answer that the client's tests let pass is taken whole, and both ends are ready again.
    module _ (some : 1 ≤ length pdu) (few : length pdu ≤ 248) where
      pub exchanged : Exchange layer slave (asking 0x03 address count) pdu st left
      exchanged = record {
        asked = asked;
        roomy = ready.client_roomy;
        small = ready.client_small;
        request_fits = omega (arith, ready.client_roomy);
        response_fits = (some, few);
        counters = ready.counters;
        sent = sent;
        sends = written;
        headed = headed;
        heads = heads;
        ended = ended;
        ends =
            read_front pdu [] (length pdu) headed refl
              (ap (λ (l : List ℕ). ([], l)) (sym (append-nil pdu)));
        left = refl;
      }

      pub left-Ready : Ready left
      left-Ready =
          let client_length : length left.message_buffer ≡ length st.message_buffer = omega (
            arith,
            length-append pdu (
                drop (length pdu) (drop 7 (Tcp.asking layer slave (asking 0x03 address count) st))),
            length-drop (length pdu)
                (drop 7 (Tcp.asking layer slave (asking 0x03 address count) st)),
            length-drop 7 (Tcp.asking layer slave (asking 0x03 address count) st),
            asked_length,
            ready.client_roomy,
          ) in
          let server_length : length served.message_buffer ≡ length server.message_buffer = omega (
            arith,
            length-append (adu st.transaction_id server.protocol slave pdu)
                (drop (length pdu + 7) server.message_buffer),
            length-drop (length pdu + 7) server.message_buffer,
            ready.server_roomy,
          ) in
          record {
            client_roomy = omega (arith, client_length, ready.client_roomy);
            client_small = omega (arith, client_length, ready.client_small);
            server_roomy = omega (arith, server_length, ready.server_roomy);
            server_small = omega (arith, server_length, ready.server_small);
            counters = (omega arith, ready.counters.1);
            same_protocol = ready.same_protocol;
            serving = refl;
            idle = refl;
          }

    -- The client when it has refused the header of an answer, the rest of which stays unread.
    abbrev pub left_unread : Stream Peer
    left_unread = record st {
      message_buffer =
          mbap (answer_header layer slave pdu st)
          ++ drop 7 (Tcp.asking layer slave (asking 0x03 address count) st);
      next_layer = headed;
      transaction_id = to_u16 (st.transaction_id + 1);
    }

    pub refused :
        (249 ≤ length pdu) × (length pdu ≤ 253)
        → Unread
            (Tcp.ops layer)
            slave
            (make_error_code invalid_response)
            (write_request layer ReqReadingRegister.writable slave
              (record { starting_address = address; quantity_of_registers = count })
              st)
            left_unread
    unfolding to_byte
    refused (many, limit) = record {
      transaction_id = st.transaction_id;
      sent = record st {
        message_buffer = Tcp.asking layer slave (asking 0x03 address count) st;
        next_layer = sent;
        transaction_id = to_u16 (st.transaction_id + 1);
      };
      wrote =
          write_request-sends layer ReqReadingRegister.writable
            (record { starting_address = address; quantity_of_registers = count })
            (asking 0x03 address count) st
            (ReqReadingRegister.write-WritesFormat.writes Buffer sink _ (fits, fits'))
            (omega (arith, ready.client_roomy)) ready.client_small slave sent written;
      unread = λ U c out.
          read_response-fails layer c out _ (omega (arith, asked_length, ready.client_small))
            (omega (arith, asked_length, ready.client_roomy)) (answer_header layer slave pdu st)
            (ready.counters.0, ready.counters.1, omega arith) st.transaction_id slave asked headed
            heads invalid_response
            (check_header-large (answer_header layer slave pdu st) (omega arith) (omega arith)).1;
    }
