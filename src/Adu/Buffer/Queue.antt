-- ===== src/Adu/Buffer/Queue.antt =====
-- Reading from a buffer: it gives its unread bytes in order.
use mothbus.Base.{
  true, ℕ, zero, suc, ◌+◌, ◌-◌, ◌≤◌, ◌<◌, ◌≡◌, refl, ap, ap₂, ◌∙◌, some, List, [], ◌∷◌,
}
use mothbus.Base.{length, get_elem?, take, drop, length-take, length-drop, arith}
use mothbus.Error.{failed, make_error_code, too_many_bytes_received}
use mothbus.Pdu.Reader.{ok, error}
use mothbus.Pdu.Reader.Laws.{ReaderLaws, skips}
use mothbus.Adu.Buffer.{Buffer, get, reader}

-- The bytes that have been committed and not yet read.
abbrev pub unread : Buffer → List ℕ
unread b = take (b.input_end - b.input_start) (drop b.input_start b.message_buffer)

-- What the source writes `message_buffer[i]` for has the bytes from `i` on behind it.
take-drop-cons :
    (l : List ℕ) (i n x : ℕ) (xs : List ℕ)
    → take n (drop i l) ≡ x ∷ xs
    → (0 < n) × (get_elem? l i ≡ some x) × (take (n - 1) (drop (suc i) l) ≡ xs)
take-drop-cons l i zero x xs h = cc
take-drop-cons [] zero (suc n) x xs h = cc
take-drop-cons [] (suc i) (suc n) x xs h = cc
take-drop-cons (y ∷ l) zero (suc n) x xs h = ground arith
take-drop-cons (y ∷ l) (suc i) (suc n) x xs h = take-drop-cons l i (suc n) x xs h

-- A buffer whose committed bytes lie inside the span.
abbrev pub Holds : Buffer → List ℕ → Type 0
Holds b bs = (b.input_end ≤ length b.message_buffer) × (unread b ≡ bs)

abbrev pub skip : Buffer → Buffer
skip b = record b { input_start = b.input_start + 1 }

pub get-cons :
    (v : ℕ) (b : Buffer) (x : ℕ) (xs : List ℕ) → Holds b (x ∷ xs) → get v b ≡ ok x (skip b)
unfolding get
get-cons v b x xs h =
    ground
      (arith, take-drop-cons b.message_buffer b.input_start (b.input_end - b.input_start) x xs h.1)

pub get-nil :
    (v : ℕ) (b : Buffer)
    → Holds b []
    → get v b ≡ error (make_error_code too_many_bytes_received) v b
unfolding get
get-nil v b h =
    let short : b.input_end ≤ b.input_start = omega (
      arith,
      ap length h.1,
      length-take (b.input_end - b.input_start) (drop b.input_start b.message_buffer),
      length-drop b.input_start b.message_buffer,
    ) in
    ground arith

pub skip-Holds : (b : Buffer) (x : ℕ) (xs : List ℕ) → Holds b (x ∷ xs) → Holds (skip b) xs
skip-Holds b x xs h =
    let (more, at_front, rest) =
      take-drop-cons b.message_buffer b.input_start (b.input_end - b.input_start) x xs h.1 in
    let e : b.input_end - (b.input_start + 1) ≡ b.input_end - b.input_start - 1 = omega arith in
    let e' : b.input_start + 1 ≡ suc b.input_start = omega arith in
    (h.0, ap₂ (λ (n i : ℕ). take n (drop i b.message_buffer)) e e' ∙ rest)

pub at_end_failed : failed (make_error_code too_many_bytes_received) ≡ true
unfolding make_error_code
at_end_failed = refl

-- A buffer is a reader of its unread bytes, and never faults on them.
abbrev pub reader_laws : ReaderLaws reader
reader_laws = record {
  Holds = Holds;
  skip = skip;
  at_end = make_error_code too_many_bytes_received;
  at_end_failed = at_end_failed;
  read_u8-cons = get-cons;
  read_u8-nil = get-nil;
  skip-Holds = skip-Holds;
}

-- Reading moves the start of the unread bytes, and nothing else.
pub skips-eq :
    (n : ℕ) (b : Buffer) → skips reader_laws n b ≡ record b { input_start = b.input_start + n }
skips-eq zero b = ap (λ (i : ℕ). record b { input_start = i }) (omega arith)
skips-eq (suc n) b =
    skips-eq n (skip b) ∙ ap (λ (i : ℕ). record b { input_start = i }) (omega arith)
