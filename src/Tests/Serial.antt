-- ===== src/Tests/Serial.antt =====
-- Runs of include/mothbus/adu/crc.h and adu/rtu.h on concrete inputs, over a line that has its input ready.
use mothbus.Base.{
  ℕ, suc, ◌≡◌, ◌≢◌, ◌≤◌, ◌↔◌, inl, inr, refl, List, [], ◌∷◌, ◌++◌, IsByte, length, length-replicate,
  replicate, All, zero, ap, Option, none, some, bit_and, ◌/◌, map, arith,
}
use mothbus.Error.{
  make_error_code, no_error, invalid_response, slave_id_invalid, generic_category, out_of_bounds,
  uninitialised,
}
use mothbus.Pdu.FunctionCode.{to_byte}
use mothbus.Pdu.SpanResponse.Laws.{filled, read-Takes}
use mothbus.Pdu.RespReadingCoils
use mothbus.Pdu.ReqReadingCoils
use mothbus.Adu.Buffer.{buffer}
use mothbus.Adu.Buffer.Queue.{reader_laws}
use mothbus.Adu.Crc.{crc16}
use mothbus.Adu.Crc.Linear.{bitwise}
use mothbus.Adu.Crc.Bitwise.{crc16-bitwise}
use mothbus.Adu.Crc.Detect.{crc16-detects, crc16-residue}
use mothbus.Adu.Layer.{returned, undefined}
use mothbus.Adu.Rtu.{Stream, write_request, read_response}
use mothbus.Adu.Rtu.Send.{adu, checksum, write_request-checksummed}
use mothbus.Adu.Rtu.Receive.{Delivers, silent, gives}
use mothbus.Adu.Rtu.Receive.Ends.{Ends, receive_rest-Ends}
use mothbus.Adu.Rtu.Answer.{read_response-other_slave, read_response-overflows}
use mothbus.Adu.Rtu.Verdict.{
  read_response-checked, read_response-short, read_response-exception_lost,
}
use mothbus.Adu.Rtu.Damage.{read_response-detects}
use mothbus.Adu.Timed.{TimedLayer, TimedLaws, Completion, received, expired}
use mathlib.Core.Path.{subst}
use mothbus.Tests.{three_bytes, coils_request, coils_request_bytes, coils_request-Writes}

-- The value of the repository's own test.
crc16_repository_test : crc16 (0 ∷ 0x42 ∷ 0x21 ∷ 0 ∷ []) ≡ 0x60b8
unfolding crc16
crc16_repository_test = refl

crc16-bitwise_example : crc16 (0 ∷ 0x42 ∷ 0x21 ∷ 0 ∷ []) ≡ bitwise 0xffff (0 ∷ 0x42 ∷ 0x21 ∷ 0 ∷ [])
crc16-bitwise_example = crc16-bitwise (0 ∷ 0x42 ∷ 0x21 ∷ 0 ∷ []) (omega arith)

crc16-residue_test : (crc16 ((1 ∷ 3 ∷ []) ++ (0x40 ∷ 0x21 ∷ [])) ≡ 0) ↔ (
    (0x40 ≡ bit_and (crc16 (1 ∷ 3 ∷ [])) 0xff) × (0x21 ≡ bit_and (crc16 (1 ∷ 3 ∷ []) / 256) 0xff))
crc16-residue_test = crc16-residue (1 ∷ 3 ∷ []) 0x40 0x21 (omega arith) (omega arith) (omega arith)

crc16-detects_test : crc16 (1 ∷ 2 ∷ 3 ∷ 4 ∷ []) ≢ crc16 (1 ∷ 2 ∷ 9 ∷ 4 ∷ [])
crc16-detects_test =
    crc16-detects (1 ∷ []) (4 ∷ []) 2 3 2 9 (omega arith) (omega arith) (omega arith) (omega arith)
      (inr (omega arith))

-- What comes in: a byte, or a silence longer than any timeout; and what has gone out.
abbrev pub Wire : Type 0
Wire = List (Option ℕ) × List ℕ

abbrev pub serial : TimedLayer Wire
serial = record {
  wait = λ n timeout (input, output). elim input [
    | [] ↦ expired ([], output)
    | none ∷ more ↦ expired (more, output)
    | some b ∷ more ↦ received (replicate n b) (more, output)
  ];
  cancel = λ s. s;
  write = λ bytes (input, output). returned tt (input, output ++ bytes);
  timed_out = record { value = 110; category = generic_category };
}

-- A line on which something sends without an end.
abbrev babbling : TimedLayer (Unit {0})
babbling = record {
  wait = λ n timeout s. received (replicate n 0x55) s;
  cancel = λ s. s;
  write = λ bytes s. returned tt s;
  timed_out = record { value = 110; category = generic_category };
}

replicate-bytes : (n : ℕ) → All IsByte (replicate n 0x55)
replicate-bytes zero = tt
replicate-bytes (suc n) = (omega arith, replicate-bytes n)

bytes_of_eq : (n : ℕ) (l : List ℕ) → replicate n 0x55 ≡ l → (length l ≡ n) × All IsByte l
bytes_of_eq n l e =
    subst (λ (k : List ℕ). (length k ≡ n) × All IsByte k) e
      (length-replicate n 0x55, replicate-bytes n)

abbrev bytes_of : Completion (Unit {0}) → List ℕ
bytes_of (received bytes s) = bytes
bytes_of _ = []

babbling-TimedLaws : TimedLaws babbling
babbling-TimedLaws = record {
  wait_full = λ n timeout s s' bytes e. bytes_of_eq n bytes (ap bytes_of e);
}

receive_rest-Ends_example : Ends babbling babbling-TimedLaws 1800 4 (buffer (0 ∷ 0 ∷ 0 ∷ [])) tt
receive_rest-Ends_example =
    receive_rest-Ends babbling babbling-TimedLaws 1800 4 (buffer (0 ∷ 0 ∷ 0 ∷ [])) tt (omega arith)
      (omega arith)

pub small : length {A = ℕ} (replicate 320 0) ≤ 320
small = omega (arith, length-replicate {A = ℕ} 320 0)

pub roomy : 256 ≤ length {A = ℕ} (replicate 320 0)
roomy = omega (arith, length-replicate {A = ℕ} 320 0)

-- A stream that has sent nothing, with this input ready.
abbrev pub stream : List (Option ℕ) → Stream Wire
stream input = record {
  message_buffer = replicate 320 0;
  next_layer = (input, []);
  transaction_id = 0;
  timeout_inter_character = 1800;
  timeout_response = 10000;
}

write_request-checksummed_example :
    write_request serial ReqReadingCoils.writable 1 coils_request (stream [])
    ≡ returned 0 (record (stream []) {
      message_buffer = adu 1 coils_request_bytes ++ replicate 312 0;
      next_layer = ([], adu 1 coils_request_bytes);
      transaction_id = 1;
    })
write_request-checksummed_example =
    write_request-checksummed serial ReqReadingCoils.writable coils_request coils_request_bytes
      (stream []) coils_request-Writes (omega (arith, roomy)) small 1
      ([], adu 1 coils_request_bytes) (inl refl)

-- The response 01 02 CD 6B of the slave 1, and its checksum.
abbrev answer_bytes : List ℕ
answer_bytes = 1 ∷ 2 ∷ 0xcd ∷ 0x6b ∷ []

pub deliver : (bs output : List ℕ) → Delivers serial 1800 (map some bs, output) bs ([], output)
deliver [] output = silent refl refl
deliver (b ∷ bs) output = gives b refl (deliver bs output)

read_response-checked_example :
    read_response serial RespReadingCoils.readable 0 1 three_bytes
      (stream (map some (1 ∷ answer_bytes ++ checksum (1 ∷ answer_bytes))))
    ≡ returned
        (no_error, filled three_bytes (0xcd ∷ 0x6b ∷ []))
        (record (stream []) {
          message_buffer = (1 ∷ answer_bytes ++ checksum (1 ∷ answer_bytes)) ++ replicate 313 0;
        })
unfolding to_byte
read_response-checked_example =
    read_response-checked serial RespReadingCoils.readable three_bytes
      (stream (map some (1 ∷ answer_bytes ++ checksum (1 ∷ answer_bytes)))) small 1 (omega arith)
      (map some (answer_bytes ++ checksum (1 ∷ answer_bytes)), []) refl
      (answer_bytes ++ checksum (1 ∷ answer_bytes)) ([], [])
      (deliver (answer_bytes ++ checksum (1 ∷ answer_bytes)) []) (omega (arith, roomy)) 0
      (filled three_bytes (0xcd ∷ 0x6b ∷ [])) (2 ∷ 0xcd ∷ 0x6b ∷ []) (checksum (1 ∷ answer_bytes))
      refl (omega arith)
      (λ r held.
        read-Takes reader_laws three_bytes (0xcd ∷ 0x6b ∷ []) r (checksum (1 ∷ answer_bytes))
          (omega arith) held)
      refl

-- The value 0xCD was sent, and 0x55 arrived.
abbrev damaged_bytes : List ℕ
damaged_bytes = 1 ∷ 2 ∷ 0x55 ∷ 0x6b ∷ []

read_response-detects_example :
    read_response serial RespReadingCoils.readable 0 1 three_bytes
      (stream (map some (1 ∷ damaged_bytes ++ checksum (1 ∷ answer_bytes))))
    ≡ returned
        (make_error_code invalid_response, filled three_bytes (0x55 ∷ 0x6b ∷ []))
        (record (stream []) {
          message_buffer = (1 ∷ damaged_bytes ++ checksum (1 ∷ answer_bytes)) ++ replicate 313 0;
        })
unfolding to_byte
read_response-detects_example =
    read_response-detects serial RespReadingCoils.readable three_bytes
      (stream (map some (1 ∷ damaged_bytes ++ checksum (1 ∷ answer_bytes)))) small 1 (omega arith)
      (map some (damaged_bytes ++ checksum (1 ∷ answer_bytes)), []) refl
      (damaged_bytes ++ checksum (1 ∷ answer_bytes)) ([], [])
      (deliver (damaged_bytes ++ checksum (1 ∷ answer_bytes)) []) (omega (arith, roomy)) 0
      (filled three_bytes (0x55 ∷ 0x6b ∷ [])) (2 ∷ 0x55 ∷ 0x6b ∷ []) (1 ∷ answer_bytes) refl
      (record {
        pre = 1 ∷ 1 ∷ 2 ∷ [];
        post = [];
        x = 0xcd;
        y = 0x6b;
        x' = 0x55;
        y' = 0x6b;
        before = refl;
        after = refl;
        pre_bytes = omega arith;
        post_bytes = tt;
        two_bytes = omega arith;
        two_bytes' = omega arith;
        differ = inl (omega arith);
      })
      (omega arith)
      (λ r held.
        read-Takes reader_laws three_bytes (0x55 ∷ 0x6b ∷ []) r (checksum (1 ∷ answer_bytes))
          (omega arith) held)

-- The exception 02 to the function 01.
abbrev exception_bytes : List ℕ
exception_bytes = 129 ∷ 2 ∷ []

read_response-exception_lost_test :
    read_response serial RespReadingCoils.readable 0 1 three_bytes
      (stream (map some (1 ∷ exception_bytes ++ checksum (1 ∷ exception_bytes))))
    ≡ returned
        (no_error, three_bytes)
        (record (stream []) {
          message_buffer =
              (1 ∷ exception_bytes ++ checksum (1 ∷ exception_bytes)) ++ replicate 315 0;
        })
read_response-exception_lost_test =
    read_response-exception_lost serial RespReadingCoils.readable three_bytes
      (stream (map some (1 ∷ exception_bytes ++ checksum (1 ∷ exception_bytes)))) small 1
      (omega arith) (map some (exception_bytes ++ checksum (1 ∷ exception_bytes)), []) refl
      (exception_bytes ++ checksum (1 ∷ exception_bytes)) ([], [])
      (deliver (exception_bytes ++ checksum (1 ∷ exception_bytes)) []) (omega (arith, roomy)) 0 129
      2 (omega arith) (omega arith) (omega arith) refl

read_response-short_example :
    read_response serial RespReadingCoils.readable 0 1 three_bytes
      (stream (map some (1 ∷ answer_bytes)))
    ≡ undefined uninitialised
unfolding to_byte
read_response-short_example =
    read_response-short serial RespReadingCoils.readable three_bytes
      (stream (map some (1 ∷ answer_bytes))) small 1 (omega arith) (map some answer_bytes, []) refl
      answer_bytes ([], []) (deliver answer_bytes []) (omega (arith, roomy)) 0
      (filled three_bytes (0xcd ∷ 0x6b ∷ [])) (2 ∷ 0xcd ∷ 0x6b ∷ []) [] refl (omega arith)
      (λ r held. read-Takes reader_laws three_bytes (0xcd ∷ 0x6b ∷ []) r [] (omega arith) held) refl

-- A stream with a message buffer of four bytes.
abbrev narrow : List ℕ → Stream Wire
narrow bs = record (stream (map some bs)) { message_buffer = 0 ∷ 0 ∷ 0 ∷ 0 ∷ [] }

read_response-overflows_example :
    read_response serial RespReadingCoils.readable 0 1 three_bytes (narrow (1 ∷ answer_bytes))
    ≡ undefined out_of_bounds
read_response-overflows_example =
    read_response-overflows serial RespReadingCoils.readable three_bytes (narrow (1 ∷ answer_bytes))
      (omega arith) 1 (omega arith) 1 (map some answer_bytes, []) refl (omega arith) refl
      answer_bytes ([], []) (deliver answer_bytes []) 0 (omega arith)

read_response-other_slave_test :
    read_response serial RespReadingCoils.readable 0 1 three_bytes (narrow (2 ∷ answer_bytes))
    ≡ returned
        (make_error_code slave_id_invalid, three_bytes)
        (record (narrow []) {
          message_buffer = 2 ∷ 0 ∷ 0 ∷ 0 ∷ [];
          next_layer = (map some answer_bytes, []);
        })
read_response-other_slave_test =
    read_response-other_slave serial RespReadingCoils.readable three_bytes
      (narrow (2 ∷ answer_bytes)) (omega arith) 1 (omega arith) 2 (map some answer_bytes, []) refl
      (omega arith) 0 (omega arith)
