-- ===== src/Adu/Rtu/Receive.antt =====
-- The loop that receives a frame from a serial line, against what the line delivers.
pub mod Ends
use mothbus.Base.{
  ℕ, zero, suc, ◌+◌, ◌≤◌, ◌<◌, ◌≡◌, refl, sym, ap, ap₂, ◌∙◌, List, [], ◌∷◌, ◌++◌, append-nil,
  append_assoc, length, length-append, drop, leb_of_lt, arith,
}
use mothbus.Error.{ErrorCode, out_of_bounds}
use mothbus.Adu.Buffer.{Buffer, prepare, store, commit}
use mothbus.Adu.Buffer.Fill.{after, store-after}
use mothbus.Adu.Layer.{returned, undefined}
use mothbus.Adu.Rtu.{read_byte_with_timeout, receive_rest}
use mothbus.Adu.Timed.{TimedLayer, received, broken, expired}

module _ {N : Type 0} (line : TimedLayer N) (timeout : ℕ) where
  -- From the state `s` the line gives these bytes, each in time, and then stays silent or breaks.
  pub data Delivers : N → List ℕ → N → Type 0 where
    silent :
        {s s' s'' : N}
        → line.wait 1 timeout s ≡ expired s'
        → s'' ≡ line.cancel s'
        → Delivers s [] s''
    breaks :
        {s s' s'' : N} (ec : ErrorCode)
        → line.wait 1 timeout s ≡ broken ec s'
        → s'' ≡ line.cancel s'
        → Delivers s [] s''
    gives :
        {s s' s'' : N} (b : ℕ) {bs : List ℕ}
        → line.wait 1 timeout s ≡ received (b ∷ []) s'
        → Delivers s' bs s''
        → Delivers s (b ∷ bs) s''

  pub read_byte-silent :
      {s s' : N} (b : Buffer)
      → Delivers s [] s'
      → read_byte_with_timeout line timeout b s ≡ returned (0, b) s'
  unfolding read_byte_with_timeout
  read_byte-silent b (silent e e') = rw (e', e, read_byte_with_timeout)
  read_byte-silent b (breaks ec e e') = rw (e', e, read_byte_with_timeout)

  module _ {s s' : N} (x : ℕ) (xs behind : List ℕ) (i : ℕ)
      (came : line.wait 1 timeout s ≡ received (x ∷ []) s') where
    -- A byte that comes in time lands behind what has been received.
    pub read_byte-gives :
        0 < length behind
        → read_byte_with_timeout line timeout (after xs behind i (length xs)) s
          ≡ returned
              (
                1,
                record {
                  message_buffer = xs ++ (x ∷ drop 1 behind);
                  input_start = i;
                  input_end = length xs;
                  output_start = length xs;
                },
              )
              s'
    unfolding read_byte_with_timeout
    read_byte-gives room =
        rw (came, read_byte_with_timeout, store-after xs (x ∷ []) behind i 1 refl room)

    -- There is no test for the end of the message buffer.
    pub read_byte-no_room :
        behind ≡ []
        → read_byte_with_timeout line timeout (after xs behind i (length xs)) s
          ≡ undefined out_of_bounds
    unfolding read_byte_with_timeout store prepare
    read_byte-no_room none = rw (
      came,
      read_byte_with_timeout,
      leb_of_lt (length xs + 1) (length (xs ++ behind))
          (omega (arith, length-append xs behind, ap length none)),
    )

  -- The committed bytes with one more.
  one_more :
      (x : ℕ) (xs behind : List ℕ) (i : ℕ)
      → length xs < 320
      → commit 1 (record {
        message_buffer = xs ++ (x ∷ behind);
        input_start = i;
        input_end = length xs;
        output_start = length xs;
      })
        ≡ after (xs ++ (x ∷ [])) behind i (length (xs ++ (x ∷ [])))
  unfolding commit
  one_more x xs behind i small =
      ap₂
        (λ (l : List ℕ) (k : ℕ). record {
          message_buffer = l;
          input_start = i;
          input_end = k;
          output_start = k;
        })
        (sym (append_assoc xs (x ∷ []) behind)) (omega (arith, length-append xs (x ∷ [])))

  module _ (i : ℕ) where
    receive_rest-silent :
        (fuel : ℕ) (xs behind : List ℕ) {s s' : N}
        → Delivers s [] s'
        → receive_rest line (suc fuel) timeout (after xs behind i (length xs)) s
          ≡ returned (after (xs ++ []) behind i (length (xs ++ []))) s'
    unfolding receive_rest
    receive_rest-silent fuel xs behind d =
        rw (read_byte-silent (after xs behind i (length xs)) d, receive_rest, append-nil xs)

    receive_rest-gives :
        (fuel x o : ℕ) (xs behind : List ℕ) {s s' : N}
        → line.wait 1 timeout s ≡ received (x ∷ []) s'
        → length xs < 320
        → receive_rest line (suc fuel) timeout (after xs (o ∷ behind) i (length xs)) s
          ≡ receive_rest line fuel timeout
              (after (xs ++ (x ∷ [])) behind i (length (xs ++ (x ∷ []))))
              s'
    unfolding receive_rest
    receive_rest-gives fuel x o xs behind came small = rw (
      read_byte-gives x xs (o ∷ behind) i came (omega arith),
      receive_rest,
      one_more x xs behind i small,
    )

    -- The loop takes all that the line delivers, if the message buffer has room for it, and ends.
    pub receive_rest-takes :
        (fuel : ℕ) (xs behind : List ℕ) {s : N} {bs : List ℕ} {s' : N}
        → Delivers s bs s'
        → length bs < fuel
        → length bs ≤ length behind
        → length (xs ++ behind) ≤ 320
        → receive_rest line fuel timeout (after xs behind i (length xs)) s
          ≡ returned (after (xs ++ bs) (drop (length bs) behind) i (length (xs ++ bs))) s'
    receive_rest-takes zero xs behind d enough fits small = absurd (omega arith)
    receive_rest-takes (suc fuel) xs behind (silent e e') enough fits small =
        receive_rest-silent fuel xs behind (silent e e')
    receive_rest-takes (suc fuel) xs behind (breaks ec e e') enough fits small =
        receive_rest-silent fuel xs behind (breaks ec e e')
    receive_rest-takes (suc fuel) xs [] (gives b came d) enough fits small = absurd (omega arith)
    receive_rest-takes (suc fuel) xs (o ∷ behind) {s' = s'} (gives b {bs = bs} came d) enough fits
          small =
        receive_rest-gives fuel b o xs behind came (omega (arith, length-append xs (o ∷ behind)))
        ∙ receive_rest-takes fuel (xs ++ (b ∷ [])) behind d (omega arith) (omega arith) (
            omega (
              arith,
              length-append xs (o ∷ behind),
              length-append (xs ++ (b ∷ [])) behind,
              length-append xs (b ∷ []),
            ))
        ∙ ap (λ (l : List ℕ). returned (after l (drop (length bs) behind) i (length l)) s')
            (append_assoc xs (b ∷ []) bs)

    -- A byte more than the message buffer has room for is stored behind its end.
    pub receive_rest-overflows :
        (fuel : ℕ) (xs behind : List ℕ) {s : N} {bs : List ℕ} {s' : N}
        → Delivers s bs s'
        → length behind < fuel
        → length behind < length bs
        → length (xs ++ behind) ≤ 320
        → receive_rest line fuel timeout (after xs behind i (length xs)) s ≡ undefined out_of_bounds
    unfolding receive_rest
    receive_rest-overflows zero xs behind d enough over small = absurd (omega arith)
    receive_rest-overflows (suc fuel) xs behind (silent e e') enough over small =
        absurd (omega arith)
    receive_rest-overflows (suc fuel) xs behind (breaks ec e e') enough over small =
        absurd (omega arith)
    receive_rest-overflows (suc fuel) xs [] (gives b came d) enough over small =
        rw (read_byte-no_room b xs [] i came refl, receive_rest)
    receive_rest-overflows (suc fuel) xs (o ∷ behind) (gives b came d) enough over small =
        receive_rest-gives fuel b o xs behind came (omega (arith, length-append xs (o ∷ behind)))
        ∙ receive_rest-overflows fuel (xs ++ (b ∷ [])) behind d (omega arith) (omega arith) (
            omega (
              arith,
              length-append xs (o ∷ behind),
              length-append (xs ++ (b ∷ [])) behind,
              length-append xs (b ∷ []),
            ))
