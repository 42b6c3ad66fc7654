-- ===== src/Adu/Rtu/Receive/Ends.antt =====
-- The loop that receives a frame ends, whatever the line does: each round takes a place of the message
-- buffer.
use mothbus.Base.{
  ℕ, zero, suc, ◌+◌, ◌-◌, ◌≤◌, ◌<◌, ◌≡◌, refl, ◌∙◌, ◌⊎◌, inl, inr, List, ◌++◌, length,
  length-append, length-take, length-drop, take, drop, leb, Bool-cases, arith,
}
use mothbus.Error.{out_of_bounds}
use mothbus.Adu.Buffer.{Buffer, prepare, store, commit}
use mothbus.Adu.Layer.{returned, undefined}
use mothbus.Adu.Rtu.{read_byte_with_timeout, receive_rest}
use mothbus.Adu.Timed.{TimedLayer, TimedLaws, Completion, received, broken, expired}

stored_length :
    (l bytes : List ℕ) (o : ℕ)
    → length bytes ≡ 1
    → o + 1 ≤ length l
    → length (take o l ++ (bytes ++ drop (o + length bytes) l)) ≡ length l
stored_length l bytes o one room = omega (
  arith,
  length-append (take o l) (bytes ++ drop (o + length bytes) l),
  length-append bytes (drop (o + length bytes) l),
  length-take o l,
  length-drop (o + length bytes) l,
)

module _ {N : Type 0} (line : TimedLayer N) (laws : TimedLaws line) (timeout : ℕ) where
  -- One round: nothing came, or a byte took a place that was free, or there was none.
  abbrev Round : Buffer → N → Type 0
  Round b s =
      ((b' : Buffer) × (s' : N) × (read_byte_with_timeout line timeout b s ≡ returned (0, b') s')
        × (length b'.message_buffer ≡ length b.message_buffer))
      ⊎ ((b' : Buffer) × (s' : N) × (read_byte_with_timeout line timeout b s ≡ returned (1, b') s')
          × (length b'.message_buffer ≡ length b.message_buffer)
          × (b'.output_start ≡ b.output_start)
          × (b.output_start + 1 ≤ length b.message_buffer))
      ⊎ (read_byte_with_timeout line timeout b s ≡ undefined out_of_bounds)

  Round-received :
      (b : Buffer) (s s' : N) (bytes : List ℕ)
      → line.wait 1 timeout s ≡ received bytes s'
      → length bytes ≡ 1
      → Round b s
  unfolding read_byte_with_timeout store prepare
  Round-received b s s' bytes e one =
      elim (Bool-cases (leb (b.output_start + 1) (length b.message_buffer))) [
        | inl room ↦ inr (
            inl (
              record b {
                message_buffer =
                    take b.output_start b.message_buffer
                    ++ (bytes ++ drop (b.output_start + length bytes) b.message_buffer);
              },
              s',
              rw (e, read_byte_with_timeout, room, store, one),
              stored_length b.message_buffer bytes b.output_start one (ground arith),
              refl,
              ground arith,
            ))
        | inr full ↦ inr (inr (rw (e, read_byte_with_timeout, full)))
      ]

  round : (b : Buffer) (s : N) → Round b s
  unfolding read_byte_with_timeout
  round b s = go (line.wait 1 timeout s) refl
    where
      go : (x : Completion N) → line.wait 1 timeout s ≡ x → Round b s
      go (received bytes s') e =
          Round-received b s s' bytes e (laws.wait_full 1 timeout s s' bytes e).0
      go (broken ec s') e = inl (b, line.cancel s', rw (e, read_byte_with_timeout), refl)
      go (expired s') e = inl (b, line.cancel s', rw (e, read_byte_with_timeout), refl)

  -- The two ways to end.
  abbrev pub Ends : ℕ → Buffer → N → Type 0
  Ends fuel b s =
      ((b' : Buffer) × (s' : N) × (receive_rest line fuel timeout b s ≡ returned b' s')
        × (length b'.message_buffer ≡ length b.message_buffer))
      ⊎ (receive_rest line fuel timeout b s ≡ undefined out_of_bounds)

  -- With a round more than the message buffer of at most 320 bytes has free places, the loop ends,
  -- whatever a line does that keeps its laws: it returns a buffer of the same size, or it stores a byte
  -- behind the end of the message buffer.
  pub receive_rest-Ends :
      (fuel : ℕ) (b : Buffer) (s : N)
      → length b.message_buffer - b.output_start < fuel
      → length b.message_buffer ≤ 320
      → Ends fuel b s
  unfolding receive_rest commit
  receive_rest-Ends zero b s enough small = absurd (omega arith)
  receive_rest-Ends (suc fuel) b s enough small = elim (round b s) [
    | inl (b', s', e, same) ↦ inl (b', s', rw (e, receive_rest), same)
    | inr (inl (b', s', e, same, at, room)) ↦
        elim (receive_rest-Ends fuel (commit 1 b') s' (omega arith) (omega arith)) [
          | inl (b'', s'', e', same') ↦ inl (b'', s'', rw (e, receive_rest) e', same' ∙ same)
          | inr e' ↦ inr (rw (e, receive_rest) e')
        ]
    | inr (inr e) ↦ inr (rw (e, receive_rest))
  ]
