-- ===== src/Util.antt =====
-- include/mothbus/mothbus.h, the namespace `util`.
use mothbus.Base.{ℕ, ◌*◌, ◌/◌, ◌%◌, ◌≡◌, refl, ap, ◌==◌, ==_of_eq, List, [], ◌∷◌, length, words}
use mothbus.Error.{Outcome, done, fault, assert, out_of_bounds, ◌>>=◌}

-- `std::endian::native`, of the machine that the library is built for.
pub data Endian : Type 0 where
  little big : Endian

-- The bytes of words in memory.
abbrev pub memory : Endian → List ℕ → List ℕ
memory e [] = []
memory little (v ∷ vs) = (v % 256) ∷ (v / 256 % 256) ∷ memory little vs
memory big (v ∷ vs) = (v / 256 % 256) ∷ (v % 256) ∷ memory big vs

-- `for (i = 0; i < dst.size(); i += 2) swap(dst[i], dst[i + 1]);`
unfoldable pub swap_pairs : List ℕ → Outcome (List ℕ)
swap_pairs [] = done []
swap_pairs (a ∷ []) = fault out_of_bounds
swap_pairs (a ∷ b ∷ dst) = do rest ← swap_pairs dst; done (b ∷ a ∷ rest)

-- `memcpy_msb`, with the bytes of `dst` afterwards.
unfoldable pub memcpy_msb : Endian → List ℕ → List ℕ → Outcome (List ℕ)
unfolding swap_pairs
memcpy_msb native dst src = do
  _ ← assert (length src * 2 == length dst)
  elim native [ little ↦ swap_pairs (memory little src) | big ↦ done (memory big src) ]

swap_pairs-memory : (src : List ℕ) → swap_pairs (memory little src) ≡ done (words src)
unfolding swap_pairs
swap_pairs-memory [] = refl
swap_pairs-memory (v ∷ src) = rw (swap_pairs-memory src)

memory-words : (src : List ℕ) → memory big src ≡ words src
memory-words [] = refl
memory-words (v ∷ src) = ap (λ l. (v / 256 % 256) ∷ (v % 256) ∷ l) (memory-words src)

-- On a machine of either byte order, the words are copied with their high bytes first.
pub memcpy_msb-words :
    (native : Endian) (dst src : List ℕ)
    → length src * 2 ≡ length dst
    → memcpy_msb native dst src ≡ done (words src)
unfolding memcpy_msb
memcpy_msb-words little dst src e =
    rw (==_of_eq (length src * 2) (length dst) e) (swap_pairs-memory src)
memcpy_msb-words big dst src e =
    rw (==_of_eq (length src * 2) (length dst) e) (ap done (memory-words src))
