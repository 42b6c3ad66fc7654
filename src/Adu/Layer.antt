-- ===== src/Adu/Layer.antt =====
-- The layer below a stream: include/mothbus/mothbus.h hands its reads and writes on to boost::asio.
-- What the layer does is a parameter; its documented behaviour is `LayerLaws`.
pub mod Wire
use mothbus.Base.{ℕ, ◌≡◌, ◌⊎◌, List, IsByte, All, length}
use mothbus.Error.{ErrorCode, Fault}

-- The end of a call that may throw: what was changed before stays changed.
pub data Call (S A : Type 0) : Type 0 where
  returned : A → S → Call S A
  threw : ErrorCode → S → Call S A
  undefined : Fault → Call S A

infixl 5 ◌>>=◌
abbrev pub ◌>>=◌ : {S A B : Type 0} → (S → Call S A) → (A → S → Call S B) → S → Call S B
◌>>=◌ m f s = elim (m s) [
  | returned a s' ↦ f a s'
  | threw ec s' ↦ threw ec s'
  | undefined e ↦ undefined e
]

-- `read n`: a read into a region of `n` bytes returns when it is full, or throws.
-- `write bytes`: a write returns when all has been sent, or throws.
pub record Layer (N : Type 0) : Type 0 where
  pub read : ℕ → N → Call N (List ℕ)
  pub write : List ℕ → N → Call N (Unit {0})

-- A read that returns has filled the region with bytes.
pub record LayerLaws {N : Type 0} (layer : Layer N) : Type 0 where
  pub read_full :
      (n : ℕ) (s s' : N) (bytes : List ℕ)
      → layer.read n s ≡ returned bytes s'
      → (length bytes ≡ n) × All IsByte bytes

-- A write returns or throws.
pub record WriteLaws {N : Type 0} (layer : Layer N) : Type 0 where
  pub write_ends :
      (bytes : List ℕ) (s : N)
      → (s' : N) × ((layer.write bytes s ≡ returned tt s')
          ⊎ ((ec : ErrorCode) × (layer.write bytes s ≡ threw ec s')))
