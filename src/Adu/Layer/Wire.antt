-- ===== src/Adu/Layer/Wire.antt =====
-- A layer that has its input ready, as one end of a connection: bytes come in the order in which they were
-- sent, and each once.
use mothbus.Base.{
  ◌+◌, ◌≡◌, ap, ◌∙◌, length-append, take-length_append, leb_of_le, arith, ℕ, List, ◌++◌, length,
  take, drop, leb, if◌then◌else◌,
}
use mothbus.Error.{generic_category}
use mothbus.Adu.Buffer.Fill.{drop_append}
use mothbus.Adu.Layer.{Layer, returned, threw}

-- The input that is ready, and the output so far.
abbrev pub Wire : Type 0
Wire = List ℕ × List ℕ

-- A read for which the input is too short throws.
abbrev pub wire : Layer Wire
wire = record {
  read = λ n (input, output).
      if leb n (length input)
      then returned (take n input) (drop n input, output)
      else threw (record { value = 2; category = generic_category }) (input, output);
  write = λ bytes (input, output). returned tt (input, output ++ bytes);
}

pub drop-front : (front behind : List ℕ) → drop (length front) (front ++ behind) ≡ behind
drop-front front behind =
    ap (λ (k : ℕ). drop k (front ++ behind)) {y = length front + 0} (omega arith)
    ∙ drop_append front behind 0

-- A read takes the bytes that stand first in the input.
pub read_front :
    (front behind output : List ℕ) (n : ℕ)
    → n ≡ length front
    → wire.read n (front ++ behind, output) ≡ returned front (behind, output)
read_front front behind output n e = rw (
  e,
  leb_of_le (length front) (length (front ++ behind)) (omega (arith, length-append front behind)),
  take-length_append front behind,
  drop-front front behind,
)
