-- ===== src/Adu/Tcp/Server/Verdict.antt =====
-- What a server says of the bytes of a request.
use mothbus.Base.{ℕ, ◌≡◌, ◌≢◌, ◌⊎◌, List, ◌∷◌, ◌++◌}
use mothbus.Error.{ErrorCode, make_error_code, no_error, illegal_function, too_many_bytes_received}
use mothbus.Pdu.FunctionCode.{to_byte}
use mothbus.Pdu.Request.{Request, PduReq, not_implemented}
use mothbus.Pdu.Request.Wire.{encode, code, IsValid}

-- The bytes of the valid request `q` stand first; a byte stands first that is no class's function code.
abbrev pub Begins : List ℕ → Request → Type 0
Begins body q = (rest : List ℕ) × IsValid q × (body ≡ encode q ++ rest)

abbrev pub IsUnknown : List ℕ → Type 0
IsUnknown body =
    (b : ℕ) × (rest : List ℕ) × (body ≡ b ∷ rest) × ((q : Request) → to_byte (code q) ≢ b)

-- What the callback is told of a body, and the request that it was read into. Of the three cases, each
-- excludes the others.
abbrev pub Verdict : List ℕ → ErrorCode → PduReq → Type 0
Verdict body ec r =
    ((q : Request) × Begins body q × (ec ≡ no_error) × (r ≡ PduReq.request q))
    ⊎ (IsUnknown body × (ec ≡ make_error_code illegal_function) × (r ≡ not_implemented 0))
    ⊎ (((q : Request) → ¬ Begins body q)
        × (¬ IsUnknown body)
        × (ec ≡ make_error_code too_many_bytes_received))
