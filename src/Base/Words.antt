-- ===== src/Base/Words.antt =====
-- Bytes and 16-bit words as native numbers.
use Prim.Native.Nat.{ℕ, zero, suc, ◌*◌, ◌/◌, ◌%◌, ◌<◌}
use mathlib.Core.List.{List, [], ◌∷◌, ◌++◌}
use mathlib.Core.Path.{◌≡◌, refl, ap, ◌∙◌}
use native.Mathlib.Omega.{arith}
use mothbus.Base.Lists.{replicate}

abbrev pub IsByte : ℕ → Type 0
IsByte b = b < 256

abbrev pub IsU16 : ℕ → Type 0
IsU16 v = v < 65536

-- `static_cast<uint8_t>` and `static_cast<uint16_t>`.
abbrev pub to_u8 : ℕ → ℕ
to_u8 v = v % 256

abbrev pub to_u16 : ℕ → ℕ
to_u16 v = v % 65536

-- A word on the wire: the high byte first.
abbrev pub word : ℕ → List ℕ
word v = (v / 256 % 256) ∷ (v % 256) ∷ []

abbrev pub words : List ℕ → List ℕ
words [] = []
words (v ∷ vs) = word v ++ words vs

pub words-zeros : (n : ℕ) → words (replicate n 0) ≡ replicate (n * 2) 0
words-zeros zero = refl
words-zeros (suc n) =
    ap (λ (l : List ℕ). 0 ∷ 0 ∷ l) (words-zeros n)
    ∙ ap (λ (k : ℕ). replicate {A = ℕ} k 0) {x = suc (suc (n * 2))} (omega arith)
