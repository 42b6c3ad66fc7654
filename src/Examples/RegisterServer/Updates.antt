-- ===== src/Examples/RegisterServer/Updates.antt =====
-- The callback that examples/tcpserver_coroutine_with_data.cpp posts every second, and registers that all
-- hold one value.
use mothbus.Base.{
  ℕ, zero, suc, ◌+◌, ◌≤◌, ◌≡◌, refl, ap, All, IsU16, List, [], ◌∷◌, replicate, take, drop, to_u16,
  arith,
}

-- `io_context.post([i]() ...)`: every register becomes the number of the update, as 16 bits.
abbrev pub set_registers : ℕ → List ℕ → List ℕ
set_registers i [] = []
set_registers i (_ ∷ registers) = to_u16 i ∷ set_registers i registers

pub set_registers-replicate : (i n v : ℕ) → set_registers i (replicate n v) ≡ replicate n (to_u16 i)
set_registers-replicate i zero v = refl
set_registers-replicate i (suc n) v = ap (◌∷◌ (to_u16 i)) (set_registers-replicate i n v)

pub replicate-U16 : (n : ℕ) {v : ℕ} → IsU16 v → All IsU16 (replicate n v)
replicate-U16 zero u = tt
replicate-U16 (suc n) u = (u, replicate-U16 n u)

take-replicate : (k n v : ℕ) → k ≤ n → take k (replicate n v) ≡ replicate k v
take-replicate zero n v le = refl
take-replicate (suc k) zero v le = absurd (omega (arith, le))
take-replicate (suc k) (suc n) v le = ap (◌∷◌ v) (take-replicate k n v (omega (arith, le)))

-- Some of many registers that all hold one value.
pub take-drop-replicate :
    (a k n v : ℕ) → a + k ≤ n → take k (drop a (replicate n v)) ≡ replicate k v
take-drop-replicate zero k n v le = take-replicate k n v (omega (arith, le))
take-drop-replicate (suc a) k zero v le = absurd (omega (arith, le))
take-drop-replicate (suc a) k (suc n) v le = take-drop-replicate a k n v (omega (arith, le))
