-- ===== src/Adu/Master/Pack.antt =====
-- The packing of coils into bytes: coil `k` is bit `k % 8` of byte `k / 8`.
use mothbus.Base.{
  ℕ, zero, suc, ◌+◌, ◌-◌, ◌*◌, ◌/◌, ◌%◌, ◌^◌, ◌≤◌, ◌<◌, ◌≡◌, refl, ap, ◌∙◌, List, [], ◌∷◌, All,
  length, length-take, get_or, take, drop, min, leb, true, to_u8, IsByte, arith,
}
use native.Mathlib.Nat.{pow-suc}
use native.Mathlib.Numerals.{add-one}
use mothbus.Base.Masks.{passes_below, passes_at}
use mothbus.Adu.Master.{pack_coils, pack_bytes}

-- A coil is off or on.
abbrev pub IsBit : ℕ → Type 0
IsBit b = b < 2

-- Bit `j` of a number.
abbrev pub bit : ℕ → ℕ → ℕ
bit zero x = x % 2
bit (suc j) x = bit j (x / 2)

powers : passes_below (λ n. leb (2 ^ n) 256) 9 ≡ true
unfolding passes_below
powers = refl

pow-le : (n : ℕ) → n ≤ 8 → 2 ^ n ≤ 256
pow-le n h = ground (arith, passes_at (λ n. leb (2 ^ n) 256) 9 powers n (omega arith))

-- The number with these bits, the first one lowest.
value : List ℕ → ℕ
value [] = 0
value (b ∷ bs) = b + 2 * value bs

fits_byte :
    (pack c b : ℕ)
    → pack < 2 ^ c
    → IsBit b
    → c + 1 ≤ 8
    → (pack + b * 2 ^ c < 2 ^ (c + 1)) × (2 ^ (c + 1) ≤ 256)
fits_byte pack c zero p w h = (rw (add-one c, pow-suc 2 c) (omega arith), pow-le (c + 1) h)
fits_byte pack c (suc zero) p w h = (rw (add-one c, pow-suc 2 c) (omega arith), pow-le (c + 1) h)
fits_byte pack c (suc (suc b)) p w h = absurd (omega arith)

-- The 8 bits of `pack` do not overflow, as long as the coils fit them.
pack_coils-value :
    (coils : List ℕ) (pack c : ℕ)
    → pack < 2 ^ c
    → c + length coils ≤ 8
    → All IsBit coils
    → pack_coils pack c coils ≡ pack + 2 ^ c * value coils
unfolding pack_coils value
pack_coils-value [] pack c p h all = omega arith
pack_coils-value (b ∷ coils) pack c p h all =
    let (next, small) = fits_byte pack c b p all.0 (omega arith) in
    let kept : to_u8 (pack + b * 2 ^ c) ≡ pack + b * 2 ^ c = omega arith in
    rw kept (
      pack_coils-value coils (pack + b * 2 ^ c) (c + 1) next (omega arith) all.1
      ∙ rw (add-one c, pow-suc 2 c) (omega arith))

bit_value : (coils : List ℕ) (j : ℕ) → All IsBit coils → bit j (value coils) ≡ get_or coils j 0
unfolding value
bit_value [] zero all = refl
bit_value [] (suc j) all = bit_value [] j tt
bit_value (b ∷ coils) zero all = omega (arith, all.0)
bit_value (b ∷ coils) (suc j) all =
    ap (bit j) {y = value coils} (omega (arith, all.0)) ∙ bit_value coils j all.1

module _ {ℓ} {A : Type ℓ} where
  get_or-drop : (n i : ℕ) (l : List A) (d : A) → get_or (drop n l) i d ≡ get_or l (n + i) d
  get_or-drop zero i l d = ap (λ (k : ℕ). get_or l k d) (omega arith)
  get_or-drop (suc n) i [] d = refl
  get_or-drop (suc n) i (x ∷ l) d =
      get_or-drop n i l d ∙ ap (λ (k : ℕ). get_or (x ∷ l) k d) {x = suc (n + i)} (omega arith)

  get_or-take : (n i : ℕ) (l : List A) (d : A) → i < n → get_or (take n l) i d ≡ get_or l i d
  get_or-take zero i l d h = absurd (omega arith)
  get_or-take (suc n) i [] d h = refl
  get_or-take (suc n) zero (x ∷ l) d h = refl
  get_or-take (suc n) (suc i) (x ∷ l) d h = get_or-take n i l d (omega arith)

  pub All-drop {κ} : (P : A → Type κ) (n : ℕ) (l : List A) → All P l → All P (drop n l)
  All-drop P zero l h = h
  All-drop P (suc n) [] h = h
  All-drop P (suc n) (x ∷ l) h = All-drop P n l h.1

  pub All-take {κ} : (P : A → Type κ) (n : ℕ) (l : List A) → All P l → All P (take n l)
  All-take P zero l h = tt
  All-take P (suc n) [] h = tt
  All-take P (suc n) (x ∷ l) h = (h.0, All-take P n l h.1)

-- The coils of byte `i`.
abbrev eight : ℕ → List ℕ → List ℕ
eight i values = take (min ((i + 1) * 8) (length values) - i * 8) (drop (i * 8) values)

byte_at :
    (n i q : ℕ) (values : List ℕ)
    → q < n
    → get_or (pack_bytes n i values) q 0 ≡ pack_coils 0 0 (eight (i + q) values)
unfolding pack_bytes
byte_at zero i q values h = absurd (omega arith)
byte_at (suc n) i zero values h = ap (λ (k : ℕ). pack_coils 0 0 (eight k values)) (omega arith)
byte_at (suc n) i (suc q) values h =
    byte_at n (i + 1) q values (omega arith)
    ∙ ap (λ (k : ℕ). pack_coils 0 0 (eight k values)) {y = i + suc q} (omega arith)

pub length-pack_bytes : (n i : ℕ) (values : List ℕ) → length (pack_bytes n i values) ≡ n
unfolding pack_bytes
length-pack_bytes zero i values = refl
length-pack_bytes (suc n) i values = ap suc (length-pack_bytes n (i + 1) values)

-- Of coils that are each 0 or 1, packed into enough bytes, coil k is bit k % 8 of byte k / 8.
pub pack_bytes-coil :
    (n k : ℕ) (values : List ℕ)
    → All IsBit values
    → k < length values
    → length values ≤ n * 8
    → bit (k % 8) (get_or (pack_bytes n 0 values) (k / 8) 0) ≡ get_or values k 0
pack_bytes-coil n k values all h room =
    ap (bit (k % 8)) (
      byte_at n 0 (k / 8) values (omega arith)
      ∙ ap (λ (i : ℕ). pack_coils 0 0 (eight i values)) {y = k / 8} (omega arith)
      ∙ pack_coils-value (eight (k / 8) values) 0 0 (omega arith) short bits
      ∙ omega arith)
    ∙ bit_value (eight (k / 8) values) (k % 8) bits
    ∙ get_or-take (min ((k / 8 + 1) * 8) (length values) - k / 8 * 8) (k % 8)
        (drop (k / 8 * 8) values) 0 (omega arith)
    ∙ get_or-drop (k / 8 * 8) (k % 8) values 0
    ∙ ap (λ (i : ℕ). get_or values i 0) (omega arith)
  where
    short : 0 + length (eight (k / 8) values) ≤ 8
    short = omega (
      arith,
      length-take (min ((k / 8 + 1) * 8) (length values) - k / 8 * 8) (drop (k / 8 * 8) values),
    )

    bits : All IsBit (eight (k / 8) values)
    bits =
        All-take IsBit (min ((k / 8 + 1) * 8) (length values) - k / 8 * 8) (drop (k / 8 * 8) values)
          (All-drop IsBit (k / 8 * 8) values all)

pack_coils-IsByte : (coils : List ℕ) (pack c : ℕ) → IsByte pack → IsByte (pack_coils pack c coils)
unfolding pack_coils
pack_coils-IsByte [] pack c h = h
pack_coils-IsByte (b ∷ coils) pack c h = pack_coils-IsByte coils _ (c + 1) (omega arith)

pub pack_bytes-IsByte : (n i : ℕ) (values : List ℕ) → All IsByte (pack_bytes n i values)
unfolding pack_bytes
pack_bytes-IsByte zero i values = tt
pack_bytes-IsByte (suc n) i values =
    (pack_coils-IsByte (eight i values) 0 0 (omega arith), pack_bytes-IsByte n (i + 1) values)
