-- ===== src/Adu/Buffer/Fill.antt =====
-- Writing into a buffer: the bytes land in the span, one behind the other.
use mothbus.Base.{ℕ, ◌+◌, ◌≡◌, refl, sym, ap, ap₂, ◌∙◌, List, [], ◌∷◌, ◌++◌}
use mothbus.Base.{
  append_assoc, length, length-append, take-length_append, take, drop, set, suc, ◌≤◌, leb_of_le,
  ltb, ◌<◌, inl, inr, Bool-cases, length-set, arith,
}
use mothbus.Error.{done, fault, out_of_bounds}
use mothbus.Pdu.Writer.{write_bytes, ◌>>◌}
use mothbus.Adu.Buffer.{Buffer, put, sink, store, prepare, data_bytes}

set-append :
    (pre post : List ℕ) (o v : ℕ) → set (pre ++ (o ∷ post)) (length pre) v ≡ pre ++ (v ∷ post)
set-append [] post o v = refl
set-append (p ∷ pre) post o v = ap (λ l. p ∷ l) (set-append pre post o v)

put-append :
    (v o : ℕ) (pre post : List ℕ) (b : Buffer)
    → b.message_buffer ≡ pre ++ (o ∷ post)
    → b.output_start ≡ length pre
    → put v b
      ≡ done (record b { message_buffer = pre ++ (v ∷ post); output_start = length pre + 1 })
unfolding put
put-append v o pre post b e e' = ground (
  arith,
  ap length e,
  length-append pre (o ∷ post),
  set-append pre post o v,
  ap (λ (l : List ℕ). set l (length pre) v) e,
)

-- Bytes written over as many bytes of the span: the others stay, and the place moves on.
pub write_bytes-over :
    (vs old pre post : List ℕ) (b : Buffer)
    → length old ≡ length vs
    → b.message_buffer ≡ pre ++ (old ++ post)
    → b.output_start ≡ length pre
    → write_bytes sink vs b
      ≡ done
          (record b { message_buffer = pre ++ (vs ++ post); output_start = length pre + length vs })
unfolding write_bytes
write_bytes-over [] [] pre post b n e e' = ap done (
    ap₂ (λ (l : List ℕ) (k : ℕ). record b { message_buffer = l; output_start = k }) e (omega arith))
write_bytes-over [] (o ∷ old) pre post b n e e' = absurd (omega arith)
write_bytes-over (v ∷ vs) [] pre post b n e e' = absurd (omega arith)
write_bytes-over (v ∷ vs) (o ∷ old) pre post b n e e' =
    rw (put-append v o pre (old ++ post) b e e', ◌>>◌)
      (write_bytes-over vs old (pre ++ (v ∷ [])) post _ (omega arith)
          (sym (append_assoc pre (v ∷ []) (old ++ post)))
          (omega (arith, length-append pre (v ∷ [])))
        ∙ ap done (
            ap₂ (λ (l : List ℕ) (k : ℕ). record b { message_buffer = l; output_start = k })
              (append_assoc pre (v ∷ []) (vs ++ post)) (omega (arith, length-append pre (v ∷ [])))))

-- Bytes for which the span has no place are written behind its end.
pub write_bytes-outside :
    (vs : List ℕ) (b : Buffer)
    → b.output_start ≤ length b.message_buffer
    → length b.message_buffer < b.output_start + length vs
    → write_bytes sink vs b ≡ fault out_of_bounds
unfolding write_bytes put
write_bytes-outside [] b inside large = absurd (omega arith)
write_bytes-outside (v ∷ vs) b inside large =
    elim (Bool-cases (ltb b.output_start (length b.message_buffer))) [
      | inl room ↦
          rw (room, ◌>>◌)
            (write_bytes-outside vs _ (ground (arith, length-set b.message_buffer b.output_start v))
              (omega (arith, length-set b.message_buffer b.output_start v)))
      | inr full ↦ rw full
    ]

-- The buffer when `xs` are the committed bytes, and the place to write is behind them.
abbrev pub after : List ℕ → List ℕ → ℕ → ℕ → Buffer
after xs behind n m = record {
  message_buffer = xs ++ behind;
  input_start = n;
  input_end = m;
  output_start = m;
}

pub drop_append : (xs ys : List ℕ) (n : ℕ) → drop (length xs + n) (xs ++ ys) ≡ drop n ys
drop_append [] ys n = ap (λ (k : ℕ). drop k ys) {y = n} (omega arith)
drop_append (x ∷ xs) ys n =
    ap (λ (k : ℕ). drop k (x ∷ (xs ++ ys))) {y = suc (length xs + n)} (omega arith)
    ∙ drop_append xs ys n

-- Bytes stored at the place to write go over as many bytes behind it.
pub store-after :
    (xs bytes behind : List ℕ) (i n : ℕ)
    → length bytes ≡ n
    → n ≤ length behind
    → store (prepare n (after xs behind i (length xs))) bytes (after xs behind i (length xs))
      ≡ done (record {
        message_buffer = xs ++ (bytes ++ drop n behind);
        input_start = i;
        input_end = length xs;
        output_start = length xs;
      })
unfolding store prepare
store-after xs bytes behind i n full fits = rw (
  full,
  leb_of_le (length xs + n) (length (xs ++ behind)) (omega (arith, length-append xs behind)),
  take-length_append xs behind,
  drop_append xs behind n,
)

-- The bytes of the frame are what `data()` points at.
pub data-frame :
    (xs behind : List ℕ) (n o : ℕ)
    → n ≡ length xs
    → data_bytes
        (record { message_buffer = xs ++ behind; input_start = 0; input_end = n; output_start = o })
      ≡ done xs
unfolding data_bytes
data-frame xs behind n o e =
    rw
      (
        e,
        leb_of_le 0 (length xs) (omega arith),
        leb_of_le (length xs) (length (xs ++ behind)) (omega (arith, length-append xs behind)),
      )
      (ap done (ap (λ (k : ℕ). take k (xs ++ behind)) (omega arith) ∙ take-length_append xs behind))
