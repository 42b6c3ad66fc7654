-- ===== src/Examples/TcpClient/Hex.antt =====
-- The text that the client prints says which bytes it got.
use mothbus.Base.{
  ℕ, ◌+◌, ◌-◌, ◌*◌, ◌/◌, ◌%◌, ◌<◌, ◌≡◌, refl, ap₂, inl, inr, Bool-cases, true, ltb, if◌then◌else◌,
  List, [], ◌∷◌, All, IsByte, arith,
}
use mothbus.Examples.TcpClient.{digit, digits, fill, print_bytes}

-- The value of a digit, and the bytes of a text of two digits each.
abbrev pub value_of : ℕ → ℕ
value_of c = if ltb c 58 then c - 48 else c - 87

abbrev pub parse : List ℕ → List ℕ
parse [] = []
parse (c ∷ []) = []
parse (c ∷ d ∷ text) = (value_of c * 16 + value_of d) ∷ parse text

value_of-digit : (d : ℕ) → d < 16 → value_of (digit d) ≡ d
value_of-digit d h = ground arith

lt_of_ltb : (a b : ℕ) → ltb a b ≡ true → a < b
lt_of_ltb a b e = ground arith

two_digits : (b : ℕ) → b < 256 → fill 2 (digits b) ≡ digit (b / 16) ∷ digit (b % 16) ∷ []
two_digits b h = elim (Bool-cases (ltb b 16)) [
  | inl small ↦
      let less : b < 16 = lt_of_ltb b 16 small in
      rw small (
        ap₂ (λ (q r : ℕ). digit q ∷ digit r ∷ []) {x = 0} (omega (arith, less))
          (omega (arith, less)))
  | inr big ↦ rw big refl
]

-- The text that is printed for bytes is two digits for each, from which the bytes can be read again.
pub parse-print_bytes : (bytes : List ℕ) → All IsByte bytes → parse (print_bytes bytes) ≡ bytes
unfolding print_bytes
parse-print_bytes [] w = refl
parse-print_bytes (b ∷ bytes) w = rw (two_digits b w.0) (
    ap₂ (λ (x : ℕ) (l : List ℕ). x ∷ l)
      (omega (
        arith,
        w.0,
        value_of-digit (b / 16) (omega (arith, w.0)),
        value_of-digit (b % 16) (omega arith),
      ))
      (parse-print_bytes bytes w.1))
