-- ===== src/Encoding/Base64.antt =====
-- What a client sends: the encoder of RFC 4648. Decoding undoes it.
use mathlib.Core.Option
use node_debug_dashboard.Prelude.{
  ℕ, ◌+◌, ◌-◌, ◌*◌, ◌/◌, ◌%◌, ◌<◌, ◌≡◌, refl, ap, ◌∙◌, some, [], ◌∷◌, ◌++◌, arith, Text, All, ltb,
  ◌==◌, if◌then◌else◌, all, true, false,
}
use node_debug_dashboard.Encoding.{Bytes, Quad, quad, b64_sextet, b64_value, b64_from, b64decode}

b64_digit : ℕ → ℕ
b64_digit v =
    if ltb v 26
    then v + 65
    else if ltb v 52
    then v + 71
    else if ltb v 62
    then v - 4
    else if v == 62
    then b'+'
    else b'/'

unfoldable pub b64encode : Bytes → Text
unfolding b64_digit
b64encode [] = []
b64encode (a ∷ []) = b64_digit (a / 4) ∷ b64_digit (a % 4 * 16) ∷ b'=' ∷ b'=' ∷ []
b64encode (a ∷ b ∷ []) =
    b64_digit (a / 4) ∷ b64_digit (a % 4 * 16 + b / 16) ∷ b64_digit (b % 16 * 4) ∷ b'=' ∷ []
b64encode (a ∷ b ∷ c ∷ rest) =
    b64_digit (a / 4)
    ∷ b64_digit (a % 4 * 16 + b / 16)
    ∷ b64_digit (b % 16 * 4 + c / 64)
    ∷ b64_digit (c % 64)
    ∷ b64encode rest

b64_value-digit : (v : ℕ) → v < 64 → b64_value (b64_digit v) ≡ some v
unfolding b64_value b64_digit
b64_value-digit v h = ground arith

b64_digit-ne_pad : (v : ℕ) → v < 64 → (b64_digit v == b'=') ≡ false
unfolding b64_digit
b64_digit-ne_pad v h = ground arith

b64_from-digit :
    (q : Quad) (v : ℕ) (s : Text)
    → v < 64
    → b64_from q (b64_digit v ∷ s)
      ≡ Option.map (λ r. (b64_sextet q v).1 ++ r) (b64_from (b64_sextet q v).0 s)
unfolding b64_from
b64_from-digit q v s h = rw (b64_digit-ne_pad v h) (rw (b64_value-digit v h))

b64_from-group :
    (a b c : ℕ) (rest : Text)
    → a < 256
    → b < 256
    → c < 256
    → b64_from (quad 0 0) (
        b64_digit (a / 4)
        ∷ b64_digit (a % 4 * 16 + b / 16)
        ∷ b64_digit (b % 16 * 4 + c / 64)
        ∷ b64_digit (c % 64)
        ∷ rest)
      ≡ Option.map (λ s. a ∷ b ∷ c ∷ s) (b64_from (quad 0 0) rest)
unfolding b64_sextet
b64_from-group a b c rest ha hb hc = rw (b64_from-digit _ (a / 4) _ (omega arith)) (
    rw (b64_from-digit _ (a % 4 * 16 + b / 16) _ (omega arith)) (
      rw (b64_from-digit _ (b % 16 * 4 + c / 64) _ (omega arith))
        (rw (b64_from-digit _ (c % 64) _ (omega arith)) (ground arith))))

b64_from-b64encode :
    (bs : Bytes) → All (λ b. b < 256) bs → b64_from (quad 0 0) (b64encode bs) ≡ some bs
unfolding b64encode b64_sextet
b64_from-b64encode [] h = unfold b64_from in refl
b64_from-b64encode (a ∷ []) h =
    rw (b64_from-digit _ (a / 4) _ (omega arith))
      (rw (b64_from-digit _ (a % 4 * 16) _ (omega arith)) (unfold b64_from in ground arith))
b64_from-b64encode (a ∷ b ∷ []) h = rw (b64_from-digit _ (a / 4) _ (omega arith)) (
    rw (b64_from-digit _ (a % 4 * 16 + b / 16) _ (omega arith))
      (rw (b64_from-digit _ (b % 16 * 4) _ (omega arith)) (unfold b64_from in ground arith)))
b64_from-b64encode (a ∷ b ∷ c ∷ rest) h =
    b64_from-group a b c (b64encode rest) h.0 h.1.0 h.1.1.0
    ∙ ap (Option.map (λ s. a ∷ b ∷ c ∷ s)) (b64_from-b64encode rest h.1.1.1)

-- The characters of an encoded text are printable ASCII.
abbrev pub IsPrintable : ℕ → Type 0
IsPrintable c = (32 < c) × (c < 127)

b64_digit-IsPrintable : (v : ℕ) → v < 64 → IsPrintable (b64_digit v)
unfolding b64_digit
b64_digit-IsPrintable v h = ground arith

pub b64encode-IsPrintable : (bs : Bytes) → All (λ b. b < 256) bs → All IsPrintable (b64encode bs)
unfolding b64encode
b64encode-IsPrintable [] h = tt
b64encode-IsPrintable (a ∷ []) h = (
  b64_digit-IsPrintable (a / 4) (omega arith),
  (b64_digit-IsPrintable (a % 4 * 16) (omega arith), omega arith),
)
b64encode-IsPrintable (a ∷ b ∷ []) h = (
  b64_digit-IsPrintable (a / 4) (omega arith),
  (
    b64_digit-IsPrintable (a % 4 * 16 + b / 16) (omega arith),
    (b64_digit-IsPrintable (b % 16 * 4) (omega arith), omega arith),
  ),
)
b64encode-IsPrintable (a ∷ b ∷ c ∷ rest) h = (
  b64_digit-IsPrintable (a / 4) (omega arith),
  (
    b64_digit-IsPrintable (a % 4 * 16 + b / 16) (omega arith),
    (
      b64_digit-IsPrintable (b % 16 * 4 + c / 64) (omega arith),
      (b64_digit-IsPrintable (c % 64) (omega arith), b64encode-IsPrintable rest h.1.1.1),
    ),
  ),
)

all_ascii : (s : Text) → All IsPrintable s → all (λ c. ltb c 128) s ≡ true
all_ascii [] h = refl
all_ascii (c ∷ s) h = ground (arith, all_ascii s h.1)

-- Decoding undoes encoding.
pub b64decode-b64encode : (bs : Bytes) → All (λ b. b < 256) bs → b64decode (b64encode bs) ≡ some bs
unfolding b64decode
b64decode-b64encode bs h =
    rw (all_ascii (b64encode bs) (b64encode-IsPrintable bs h)) (b64_from-b64encode bs h)
