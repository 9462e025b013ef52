-- ===== src/Encoding/Utf8.antt =====
-- Decoding undoes encoding, so that two texts with the same UTF-8 bytes are equal.
use mathlib.Core.Option
use node_debug_dashboard.Prelude.{
  ℕ, ◌<◌, ◌≡◌, refl, ap, ◌∙◌, ◌⊎◌, some, [], ◌∷◌, ◌++◌, arith, Text, All, All-append,
}
use node_debug_dashboard.Encoding.{Bytes, utf8_char, utf8, idle, utf8_from, utf8_decode}

-- A code point that UTF-8 can carry: no surrogate, and below 0x110000.
abbrev pub IsScalar : ℕ → Type 0
IsScalar c = (c < 55296) ⊎ ((57343 < c) × (c < 1114112))

abbrev pub IsUnicode : Text → Type 0
IsUnicode s = All IsScalar s

utf8_from-char :
    (c : ℕ) (rest : Bytes)
    → IsScalar c
    → utf8_from idle (utf8_char c ++ rest) ≡ Option.map (λ s. c ∷ s) (utf8_from idle rest)
unfolding utf8_from utf8_char
utf8_from-char c rest h = ground arith

utf8_char-lt : (c : ℕ) → IsScalar c → All (λ b. b < 256) (utf8_char c)
unfolding utf8_char
utf8_char-lt c h = ground arith

-- Every text of scalar values comes back from its bytes.
pub utf8_decode-utf8 : (s : Text) → IsUnicode s → utf8_decode (utf8 s) ≡ some s
unfolding utf8
utf8_decode-utf8 [] h = unfold utf8_from in refl
utf8_decode-utf8 (c ∷ s) h =
    utf8_from-char c (utf8 s) h.0 ∙ ap (Option.map (λ s. c ∷ s)) (utf8_decode-utf8 s h.1)

-- No two texts have the same bytes.
pub utf8_injective : (s t : Text) → IsUnicode s → IsUnicode t → utf8 s ≡ utf8 t → s ≡ t
utf8_injective s t hs ht e = cc (utf8_decode-utf8 s hs, utf8_decode-utf8 t ht, ap utf8_decode e)

-- The encoder yields bytes.
pub utf8-lt : (s : Text) → IsUnicode s → All (λ b. b < 256) (utf8 s)
unfolding utf8
utf8-lt [] h = tt
utf8-lt (c ∷ s) h =
    All-append (λ b. b < 256) (utf8_char c) (utf8 s) (utf8_char-lt c h.0) (utf8-lt s h.1)

pub utf8-nil : utf8 [] ≡ []
unfolding utf8
utf8-nil = refl
