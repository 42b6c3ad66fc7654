-- ===== src/Adu/Stream.antt =====
-- What the client of include/mothbus/adu/master.h uses of a stream, which is `tcp::stream` or `rtu::stream`,
-- and what a stream promises for a request that is answered.
pub mod Tcp
pub mod Rtu
use mothbus.Base.{ℕ, ◌≤◌, ◌<◌, ◌≡◌, ◌≢◌, false, List, [], ◌∷◌, ◌++◌, IsByte}
use mothbus.Error.{ErrorCode, failed}
use mothbus.Pdu.Codec.{Readable, Writable}
use mothbus.Pdu.FunctionCode.{to_byte}
use mothbus.Pdu.Reader.Laws.{Takes}
use mothbus.Pdu.Writer.Laws.{Writes}
use mothbus.Adu.Buffer.{Buffer, reader, sink}
use mothbus.Adu.Buffer.Queue.{Holds, reader_laws}
use mothbus.Adu.Layer.{Call, returned}

-- The operations, on streams in states of `S`.
pub record StreamOps (S : Type 0) : Type 1 where
  pub write_request : (T : Type 0) → Writable T → ℕ → T → S → Call S ℕ
  pub read_response : (T : Type 0) → Readable T → ℕ → ℕ → T → S → Call S (ErrorCode × T)

-- In the state `s` the call returns an error code that tests false, and the value `u`.
pub record Accepts {S U : Type 0} (call : S → Call S (ErrorCode × U)) (s : S) (u : U) (s' : S)
    : Type 0 where
  pub ec : ErrorCode
  pub succeeded : failed ec ≡ false
  pub result : call s ≡ returned (ec, u) s'

-- A class takes the bytes `xs` from any buffer that holds them first, and gives `u` for them.
abbrev pub TakesFrom : {U : Type 0} → Readable U → U → List ℕ → U → Type 0
TakesFrom c out xs u =
    (r : Buffer) (rest : List ℕ)
    → Holds r (xs ++ rest)
    → Takes reader_laws (c.read Buffer reader) out r xs rest u

-- The request has been written, and its answer can be read.
pub record Answered {S : Type 0} (ops : StreamOps S) (slave : ℕ) (response : List ℕ)
    (written : Call S ℕ) (s' : S) : Type 1 where
  pub transaction_id : ℕ
  pub sent : S
  pub wrote : written ≡ returned transaction_id sent
  pub reads :
      (U : Type 0) (c : Readable U) (out u : U) (xs : List ℕ)
      → response ≡ to_byte c.fc ∷ xs
      → to_byte c.fc < 128
      → TakesFrom c out xs u
      → Accepts (ops.read_response U c transaction_id slave out) sent u s'

-- `Exchange slave request response s s'`: below a stream in the state `s` the request's bytes are accepted,
-- and the slave answers with the bytes of the response; that leaves the stream in the state `s'`.
pub record StreamLaws {S : Type 0} (ops : StreamOps S) : Type 1 where
  pub Exchange : ℕ → List ℕ → List ℕ → S → S → Type 0
  pub exchange :
      (T : Type 0) (w : Writable T) (t : T) (slave : ℕ) (request response : List ℕ) (s s' : S)
      → Exchange slave request response s s'
      → Writes sink (w.write Buffer sink t) request
      → Answered ops slave response (ops.write_request T w slave t s) s'

-- The request has been written, and its answer ends with this error code and leaves what it is read into.
pub record Unread {S : Type 0} (ops : StreamOps S) (slave : ℕ) (ec : ErrorCode) (written : Call S ℕ)
    (s' : S) : Type 1 where
  pub transaction_id : ℕ
  pub sent : S
  pub wrote : written ≡ returned transaction_id sent
  pub unread :
      (U : Type 0) (c : Readable U) (out : U)
      → ops.read_response U c transaction_id slave out sent ≡ returned (ec, out) s'

-- `report e` is what a stream returns when a request is answered by an exception with the code `e`.
pub record Exceptions {S : Type 0} {ops : StreamOps S} (laws : StreamLaws ops)
    (report : ℕ → ErrorCode) : Type 1 where
  pub exception :
      (T : Type 0) (w : Writable T) (t : T) (slave f e : ℕ) (request : List ℕ) (s s' : S)
      → laws.Exchange slave request (f ∷ e ∷ []) s s'
      → Writes sink (w.write Buffer sink t) request
      → IsByte f
      → 128 ≤ f
      → e ≢ 0
      → Unread ops slave (report e) (ops.write_request T w slave t s) s'
