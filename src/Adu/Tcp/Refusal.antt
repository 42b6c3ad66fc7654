-- ===== src/Adu/Tcp/Refusal.antt =====
-- Which headers a client takes for that of the response to its request.
use mothbus.Base.{ℕ, ◌≤◌, ◌≡◌, ◌≢◌, ◌↔◌, ◌⊎◌, true, none, some, arith}
use native.Mathlib.Decide.{ℕ_discrete}
use mothbus.Error.{
  ModbusExceptionCode, invalid_response, transaction_id_invalid, illegal_protocol, slave_id_invalid,
}
use mothbus.Adu.Tcp.{MbapHeader, check_header, is_valid_length}

-- A header passes exactly when it is the one that the request asked for, and has a length from 2 to 249.
pub check_header-none :
    (h : MbapHeader) (transaction_id protocol slave : ℕ)
    → (check_header h transaction_id protocol slave ≡ none) ↔ (
        (h.transaction_id ≡ transaction_id)
        × (h.protocol ≡ protocol)
        × (h.unit_id ≡ slave)
        × (2 ≤ h.length)
        × (h.length ≤ 249))
unfolding check_header
check_header-none h transaction_id protocol slave = (λ e. ground arith, λ e. ground arith)

-- A header whose length is from 250 to 254 has a valid length, yet a client refuses the response that it
-- heads, also where its three other fields are the expected ones.
pub check_header-large :
    (h : MbapHeader)
    → 250 ≤ h.length
    → h.length ≤ 254
    → (is_valid_length h ≡ true)
      × (check_header h h.transaction_id h.protocol h.unit_id ≡ some invalid_response)
unfolding check_header is_valid_length
check_header-large h lo hi = ground arith

-- The header of the response to a request: its transaction, its protocol, its slave, and a length that
-- leaves at least one byte and makes no frame of more than 255.
pub record Expected (h : MbapHeader) (transaction_id protocol slave : ℕ) : Type 0 where
  pub same_transaction : h.transaction_id ≡ transaction_id
  pub same_protocol : h.protocol ≡ protocol
  pub same_slave : h.unit_id ≡ slave
  pub bounded : (2 ≤ h.length) × (h.length ≤ 249)

-- The first thing that is wrong with another header, and its code.
pub data Refusal (h : MbapHeader) (transaction_id protocol slave : ℕ)
    : ModbusExceptionCode → Type 0 where
  other_transaction :
      h.transaction_id ≢ transaction_id
      → Refusal h transaction_id protocol slave transaction_id_invalid
  other_protocol :
      h.transaction_id ≡ transaction_id
      → h.protocol ≢ protocol
      → Refusal h transaction_id protocol slave illegal_protocol
  other_slave :
      h.transaction_id ≡ transaction_id
      → h.protocol ≡ protocol
      → h.unit_id ≢ slave
      → Refusal h transaction_id protocol slave slave_id_invalid
  bad_length :
      h.transaction_id ≡ transaction_id
      → h.protocol ≡ protocol
      → h.unit_id ≡ slave
      → (h.length ≤ 1) ⊎ (250 ≤ h.length)
      → Refusal h transaction_id protocol slave invalid_response

pub check_header-refuses :
    (h : MbapHeader) (transaction_id protocol slave : ℕ)
    → ¬ Expected h transaction_id protocol slave
    → (code : ModbusExceptionCode) × Refusal h transaction_id protocol slave code
      × (check_header h transaction_id protocol slave ≡ some code)
unfolding check_header
check_header-refuses h transaction_id protocol slave unexpected =
    elim (ℕ_discrete h.transaction_id transaction_id) [
      | no t ↦ (transaction_id_invalid, other_transaction t, ground arith)
      | yes t ↦ elim (ℕ_discrete h.protocol protocol) [
        | no p ↦ (illegal_protocol, other_protocol t p, ground arith)
        | yes p ↦ elim (ℕ_discrete h.unit_id slave) [
          | no u ↦ (slave_id_invalid, other_slave t p u, ground arith)
          | yes u ↦
              let outside : ¬ ((2 ≤ h.length) × (h.length ≤ 249)) = λ b.
                unexpected (record {
                  same_transaction = t;
                  same_protocol = p;
                  same_slave = u;
                  bounded = b;
                }) in
              let wrong : (h.length ≤ 1) ⊎ (250 ≤ h.length) = ground arith in
              (invalid_response, bad_length t p u wrong, ground arith)
        ]
      ]
    ]
