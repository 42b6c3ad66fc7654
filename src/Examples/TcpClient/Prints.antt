-- ===== src/Examples/TcpClient/Prints.antt =====
-- What the client prints.
use mothbus.Base.{
  inl, inr, Bool-cases, ℕ, ◌+◌, ◌/◌, ◌%◌, ◌≤◌, ◌<◌, ◌≡◌, ◌≢◌, refl, sym, ap, ◌∙◌, true, false, ltb,
  ltb_of_lt, if◌then◌else◌, IsU16, List, [], ◌∷◌, length, take, drop, words, to_u8, arith,
}
use mothbus.Error.{
  make_error_code, failed, no_error, illegal_data_address, uninitialised, to_int, ErrorCode,
}
use mathlib.Core.Path.{subst}
use mothbus.Pdu.FunctionCode
use mothbus.Pdu.FunctionCode.{to_byte}
use mothbus.Pdu.ReqReadingRegister
use mothbus.Pdu.ReqReadingRegister.{ReadHoldingPduReq}
use mothbus.Adu.Buffer.{Buffer, sink}
use mothbus.Adu.Layer.{Layer, returned, undefined, ◌>>=◌}
use mothbus.Adu.Master.{read_registers}
use mothbus.Adu.Master.Exceptions.{read_span-unread}
use mothbus.Adu.Master.ReadFunctions.{asking, length-words, read_registers-reads}
use mothbus.Adu.Stream.{StreamOps, Unread}
use mothbus.Adu.Stream.Tcp.{Exchange, ops, laws, exceptions}
use mothbus.Adu.Tcp.{Stream, write_request}
use mothbus.Util.{Endian}
use mothbus.Examples.RegisterServer.Client.{reply-registers, length-reply, length-found}
use mothbus.Examples.Session.{Peer, connected, Ready}
use mothbus.Examples.Session.Exchanges.{pdu, left, exchanged, left-Ready}
use mothbus.Examples.TcpClient.{
  Options, Printed, value, error, print_bytes, no_value, all_set, no_host, main,
}

-- What a client of the sample server with these registers prints.
abbrev pub printed : List ℕ → ℕ → Printed
printed registers address =
    if ltb address (length registers)
    then value (print_bytes (words (take 1 (drop address registers))))
    else error (make_error_code illegal_data_address)

-- Both bytes of a word are set.
all_set-words : (vs : List ℕ) → all_set (words vs) ≡ true
all_set-words [] = refl
all_set-words (v ∷ vs) = rw (
  ltb_of_lt (v / 256 % 256) 256 (omega arith),
  ltb_of_lt (v % 256) 256 (omega arith),
  all_set-words vs,
)

-- What `singleRegister` holds at first.
abbrev pub single_register : List ℕ
single_register = no_value ∷ no_value ∷ []

module _ {S : Type 0} (stream : StreamOps S) (options : Options) (s s' : S)
    (asked : options.help ≡ false) (given : no_host options.host ≡ false) where
  main-value :
      (bytes : List ℕ)
      → all_set bytes ≡ true
      → read_registers stream (to_u8 options.slave) options.register_address single_register s
        ≡ returned (no_error, bytes) s'
      → main stream options s ≡ returned (value (print_bytes bytes)) s'
  unfolding main
  main-value bytes set e = rw (asked, given, e, ◌>>=◌, set)

  -- Nothing was read into the array, and there is no error.
  pub main-unread :
      read_registers stream (to_u8 options.slave) options.register_address single_register s
        ≡ returned (no_error, single_register) s'
      → main stream options s ≡ undefined uninitialised
  unfolding main
  main-unread e = rw (asked, given, e, ◌>>=◌)

  main-error :
      (ec : ErrorCode) (bytes : List ℕ)
      → failed ec ≡ true
      → read_registers stream (to_u8 options.slave) options.register_address single_register s
        ≡ returned (ec, bytes) s'
      → main stream options s ≡ returned (error ec) s'
  unfolding main
  main-error ec bytes bad e = rw (asked, given, e, ◌>>=◌, bad)

module _ (native : Endian) (registers message : List ℕ) (room : 260 ≤ length message)
    (st : Stream Peer) (ready : Ready st) (slave address : ℕ) (asked : slave ≢ 0)
    (fits : IsU16 address) where
  abbrev layer : Layer Peer
  layer = connected native registers message

  one : IsU16 1
  one = omega arith

  abbrev st' : Stream Peer
  st' = left native registers message room st ready slave address 1 asked fits one

  abbrev answer : List ℕ
  answer = pdu native registers message room st ready slave address 1 asked fits one

  inside_Reads :
      address < length registers
      → (read_registers (ops layer) slave address single_register st
          ≡ returned (no_error, words (take 1 (drop address registers))) st')
        × Ready st'
  inside_Reads there =
      let v : List ℕ = words (take 1 (drop address registers)) in
      let within : address + 1 ≤ length registers = omega (arith, there) in
      let bytes : length v ≡ 2 = omega (
        arith,
        length-words (take 1 (drop address registers)),
        length-found registers address 1 (omega arith, omega arith) within,
      ) in
      let size : length answer ≡ 4 =
        length-reply registers address 1 (omega arith, omega arith) within in
      let pdu_is : answer ≡ 0x03 ∷ length v ∷ v =
        reply-registers registers address 1 (omega arith, omega arith) within
        ∙ ap (λ (n : ℕ). 0x03 ∷ n ∷ v) (sym bytes) in
      (
        read_registers-reads (laws layer) slave address fits single_register st st' v
            (subst (λ (r : List ℕ). Exchange layer slave (asking 0x03 address 1) r st st') pdu_is
              (exchanged native registers message room st ready slave address 1 asked fits one
                (omega (arith, size)) (omega (arith, size))))
            bytes,
        left-Ready native registers message room st ready slave address 1 asked fits one
            (omega (arith, size)) (omega (arith, size)),
      )

  outside_Reads :
      length registers ≤ address
      → (read_registers (ops layer) slave address single_register st
          ≡ returned (make_error_code illegal_data_address, single_register) st')
        × Ready st'
  unfolding read_registers make_error_code to_int to_byte
  outside_Reads there =
      let outside : ltb (length registers) (address + 1) ≡ true = ground (arith, there) in
      let pdu_is : answer ≡ 0x83 ∷ 0x02 ∷ [] = rw outside in
      let size : length answer ≡ 2 = ap (length {A = ℕ}) pdu_is in
      let request : ReadHoldingPduReq = record {
        starting_address = address;
        quantity_of_registers = 1;
      } in
      let refused : Unread (ops layer) slave (make_error_code illegal_data_address)
          (write_request layer ReqReadingRegister.writable slave request st) st' =
        (exceptions layer).exception ReadHoldingPduReq ReqReadingRegister.writable request slave
          0x83 0x02 (asking 0x03 address 1) st st'
          (subst (λ (r : List ℕ). Exchange layer slave (asking 0x03 address 1) r st st') pdu_is
            (exchanged native registers message room st ready slave address 1 asked fits one
              (omega (arith, size)) (omega (arith, size))))
          (ReqReadingRegister.write-WritesFormat.writes Buffer sink _ (fits, one)) (omega arith)
          (omega arith) (omega arith) in
      (
        (read_span-unread (ops layer) slave (make_error_code illegal_data_address)
            ReqReadingRegister.writable request st st' refused FunctionCode.read_holding_registers
            single_register refl),
        left-Ready native registers message room st ready slave address 1 asked fits one
            (omega (arith, size)) (omega (arith, size)),
      )

-- Over a connection to the sample server that is ready, whose buffer for requests has at least 260
-- bytes: with a host given and no help asked for, a slave that is not 0 modulo 256 and an address of 16
-- bits, the sample client prints the two bytes of the register at the address, or illegal_data_address
-- where the server has no such register, and both ends are ready again. The number of registers in the
-- options does not matter.
pub main-prints :
    (native : Endian) (registers message : List ℕ) (options : Options) (st : Stream Peer)
    → 260 ≤ length message
    → Ready st
    → to_u8 options.slave ≢ 0
    → IsU16 options.register_address
    → (options.help ≡ false) × (no_host options.host ≡ false)
    → (st' : Stream Peer) × (main (ops (connected native registers message)) options st
        ≡ returned (printed registers options.register_address) st')
      × Ready st'
unfolding make_error_code
main-prints native registers message options st room ready asked fits given =
    let address = options.register_address in
    let slave = to_u8 options.slave in
    let last =
      left native registers message room st ready slave address 1 asked fits (omega arith) in
    let stream = ops (connected native registers message) in
    elim (Bool-cases (ltb address (length registers))) [
      | inl there ↦
          let (got, ready') =
            inside_Reads native registers message room st ready slave address asked fits
              (ground (arith, there)) in
          (
            last,
            rw there (
                main-value stream options st last given.0 given.1 _
                  (all_set-words (take 1 (drop address registers))) got),
            ready',
          )
      | inr outside ↦
          let (got, ready') =
            outside_Reads native registers message room st ready slave address asked fits
              (ground (arith, outside)) in
          (
            last,
            rw outside (main-error stream options st last given.0 given.1 _ _ refl got),
            ready',
          )
    ]
