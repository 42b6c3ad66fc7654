-- ===== src/Adu/Tcp/Server/Header.antt =====
-- The header of a request, as `parse_header` reads it: its reads are not checked, yet seven bytes are enough.
use mothbus.Base.{
  ℕ, ◌+◌, ◌*◌, ◌≡◌, ◌≤◌, true, refl, ap, ap₂, List, [], ◌∷◌, ◌++◌, IsByte, All, length, word, arith,
}
use mothbus.Error.{Outcome, done}
use mothbus.Error
use mothbus.Pdu.Reader.{Reading, Read, ok, error, fault, ◌>>◌}
use mothbus.Pdu.Reader.Laws.{skips}
use mothbus.Adu.Buffer.{Buffer, commit}
use mothbus.Adu.Buffer.Queue.{Holds, reader_laws}
use mothbus.Adu.Tcp.{
  MbapHeader, mbap_header, read_header, read_transaction_id, read_protocol, read_length,
  read_unit_id, parse_header, unchecked, is_valid_length,
}
use mothbus.Adu.Tcp.Receive.{mbap, FitsHeader, read_header-Takes}

-- Two checked steps that succeed have both succeeded.
abbrev Both : {R T : Type 0} → Read R T → Read R T → T → R → T → R → Type 0
Both {R} {T} m k t r t'' r'' = (t' : T) × (r' : R) × (m t r ≡ ok t' r') × (k t' r' ≡ ok t'' r'')

both :
    {R T : Type 0} (m k : Read R T) (t t'' : T) (r r'' : R)
    → (m >> k) t r ≡ ok t'' r''
    → Both m k t r t'' r''
both {R} {T} m k t t'' r r'' e = go (m t r) refl e
  where
    go :
        (x : Reading R T)
        → m t r ≡ x
        → elim x [ ok a b ↦ k a b | error ec a b ↦ error ec a b | fault f ↦ fault f ] ≡ ok t'' r''
        → Both m k t r t'' r''
    go (ok a b) same h = (a, b, same, h)
    go (error ec a b) same h = cc
    go (fault f) same h = cc

-- Where four checked reads succeed, the unchecked ones give the same.
unchecked-checked :
    (a b c d : Read Buffer MbapHeader) (t h : MbapHeader) (source source' : Buffer)
    → (a >> (b >> (c >> d))) t source ≡ ok h source'
    → ◌≡◌ {A = Outcome (MbapHeader × Buffer)}
        (elim (unchecked (unchecked (unchecked (a t source) b) c) d) [
          | ok h r ↦ done (h, r)
          | error _ h r ↦ done (h, r)
          | fault e ↦ Error.fault e
        ])
        (done (h, source'))
unchecked-checked a b c d t h source source' e =
    let (t1, r1, first, behind1) = both a (b >> (c >> d)) t h source source' e in
    let (t2, r2, second, behind2) = both b (c >> d) t1 h r1 source' behind1 in
    let (t3, r3, third, last) = both c d t2 h r2 source' behind2 in rw (first, second, third, last)

pub parse_header-reads :
    (source : Buffer) (n : ℕ) (h : MbapHeader)
    → FitsHeader h
    → Holds (commit n source) (mbap h)
    → parse_header source n ≡ done (h, skips reader_laws 7 (commit n source))
unfolding parse_header read_header
parse_header-reads source n h fits held =
    unchecked-checked read_transaction_id read_protocol read_length read_unit_id mbap_header h
      (commit n source) (skips reader_laws 7 (commit n source))
      (read_header-Takes h mbap_header (commit n source) [] fits held).result

word_of : (a b : ℕ) → IsByte a → IsByte b → word (a * 256 + b) ≡ a ∷ b ∷ []
word_of a b p q = ap₂ (λ (x y : ℕ). x ∷ y ∷ []) (omega arith) (omega arith)

-- Any seven bytes are a header.
pub header_of :
    (bytes : List ℕ)
    → length bytes ≡ 7
    → All IsByte bytes
    → (h : MbapHeader) × FitsHeader h × (mbap h ≡ bytes)
header_of (a ∷ b ∷ c ∷ d ∷ e ∷ f ∷ g ∷ []) n (wa, (wb, (wc, (wd, (we, (wf, (wg, _))))))) = (
  record {
    transaction_id = a * 256 + b;
    protocol = c * 256 + d;
    length = e * 256 + f;
    unit_id = g;
  },
  (omega arith, omega arith, omega arith),
  ap₂ ◌++◌ (word_of a b wa wb)
      (ap₂ ◌++◌ (word_of c d wc wd) (ap (λ (l : List ℕ). l ++ (g ∷ [])) (word_of e f we wf))),
)
header_of [] n w = absurd (omega arith)
header_of (a ∷ []) n w = absurd (omega arith)
header_of (a ∷ b ∷ []) n w = absurd (omega arith)
header_of (a ∷ b ∷ c ∷ []) n w = absurd (omega arith)
header_of (a ∷ b ∷ c ∷ d ∷ []) n w = absurd (omega arith)
header_of (a ∷ b ∷ c ∷ d ∷ e ∷ []) n w = absurd (omega arith)
header_of (a ∷ b ∷ c ∷ d ∷ e ∷ f ∷ []) n w = absurd (omega arith)
header_of (a ∷ b ∷ c ∷ d ∷ e ∷ f ∷ g ∷ h ∷ bytes) n w = absurd (omega arith)

-- The lengths that pass the test of a header.
pub length_bounds : (h : MbapHeader) → is_valid_length h ≡ true → (2 ≤ h.length) × (h.length ≤ 254)
unfolding is_valid_length
length_bounds h valid = ground arith
