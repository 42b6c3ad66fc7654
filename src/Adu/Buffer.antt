-- ===== src/Adu/Buffer.antt =====
-- include/mothbus/adu/buffer.h: one byte array with a part to read and a place to write.
pub mod Queue
pub mod Fill
use mothbus.Base.{ℕ, ◌+◌, ◌-◌, ◌%◌, ◌^◌, Bool, ◌&&◌, Option, none, some, List, ltb, leb}
use mothbus.Base.{if◌then◌else◌, length, get_elem?, set, take, drop, ◌++◌}
use mothbus.Error.{Outcome, done, Fault, out_of_bounds, make_error_code, too_many_bytes_received}
use mothbus.Error
use mothbus.Pdu.Reader.{Reader, Read, ok, error, fault}
use mothbus.Pdu.Writer.{Sink}

-- `message_buffer` is the span that the buffer was built over.
pub record Buffer : Type 0 where
  pub message_buffer : List ℕ
  pub input_start : ℕ
  pub input_end : ℕ
  pub output_start : ℕ

-- The constructors.
abbrev pub buffer : List ℕ → Buffer
buffer b = record { message_buffer = b; input_start = 0; input_end = 0; output_start = 0 }

-- `size_t` addition
abbrev pub add_size : ℕ → ℕ → ℕ
add_size a b = (a + b) % 2 ^ 64

-- An index behind the span's end is undefined. Behind a smaller index `output_start++` cannot wrap.
unfoldable pub put : ℕ → Buffer → Outcome Buffer
put v b =
    if ltb b.output_start (length b.message_buffer)
    then done (record b {
      message_buffer = set b.message_buffer b.output_start v;
      output_start = b.output_start + 1;
    })
    else Error.fault out_of_bounds

unfoldable pub get : Read Buffer ℕ
unfolding make_error_code
get out b =
    if leb b.input_end b.input_start
    then error (make_error_code too_many_bytes_received) out b
    else elim (get_elem? b.message_buffer b.input_start) [
      | some v ↦ ok v (record b { input_start = b.input_start + 1 })
      | none ↦ fault out_of_bounds
    ]

-- The bytes that `data()` points at, for whoever reads them.
unfoldable pub data_bytes : Buffer → Outcome (List ℕ)
data_bytes b =
    if leb b.input_start b.input_end && leb b.input_end (length b.message_buffer)
    then done (take (b.input_end - b.input_start) (drop b.input_start b.message_buffer))
    else Error.fault out_of_bounds

-- A region of the span: `boost::asio::mutable_buffer(message_buffer.data() + offset, size)`.
pub record Region : Type 0 where
  pub offset : ℕ
  pub size : ℕ

unfoldable pub prepare : ℕ → Buffer → Region
prepare n b = record { offset = b.output_start; size = n }

-- What a read of `bytes` into a region of the span does; a region past its end is undefined.
unfoldable pub store : Region → List ℕ → Buffer → Outcome Buffer
store region bytes b =
    if leb (region.offset + region.size) (length b.message_buffer)
    then done (record b {
      message_buffer =
          take region.offset b.message_buffer
          ++ (bytes ++ drop (region.offset + length bytes) b.message_buffer);
    })
    else Error.fault out_of_bounds

unfoldable pub commit : ℕ → Buffer → Buffer
commit n b = record b {
  input_end = add_size b.input_end n;
  output_start = add_size b.output_start n;
}

unfoldable pub consume : ℕ → Buffer → Buffer
consume n b = record b { input_start = add_size b.input_start n }

-- `read(buffer&, uint8_t&)`, which the readers find by its argument's namespace.
abbrev pub reader : Reader Buffer
reader = record { read_u8 = get }

abbrev pub sink : Sink Buffer
sink = record { put = put }
