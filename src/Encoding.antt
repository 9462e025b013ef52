-- ===== src/Encoding.antt =====
-- The codecs of the standard library that app/auth.py calls: `str.encode("utf-8")`,
-- `bytes.decode("utf-8")`, Latin-1, and `base64.b64decode` in its lenient mode.
pub mod Utf8
pub mod Base64
use node_debug_dashboard.Prelude.{
  ℕ, suc, ◌+◌, ◌-◌, ◌*◌, ◌/◌, ◌%◌, Bool, ◌&&◌, ◌||◌, not, Option, none, some, List, [], ◌∷◌, ◌++◌,
  Text, ltb, leb, ◌==◌, if◌then◌else◌, all, concat_map,
}
use mathlib.Core.Option

abbrev pub Bytes : Type 0
Bytes = List ℕ

unfoldable pub utf8_char : ℕ → Bytes
utf8_char c =
    if ltb c 128
    then c ∷ []
    else if ltb c 2048
    then (192 + c / 64) ∷ (128 + c % 64) ∷ []
    else if ltb c 65536
    then (224 + c / 4096) ∷ (128 + (c / 64) % 64) ∷ (128 + c % 64) ∷ []
    else (240 + c / 262144) ∷ (128 + (c / 4096) % 64) ∷ (128 + (c / 64) % 64) ∷ (128 + c % 64) ∷ []

-- `s.encode("utf-8")`, for a text of scalar values.
unfoldable pub utf8 : Text → Bytes
unfolding utf8_char
utf8 = concat_map utf8_char

-- A decoder between two bytes: how many more bytes the character needs, the range of the next one,
-- and the bits read so far.
pub record Pending : Type 0 where
  pub need : ℕ
  pub low : ℕ
  pub high : ℕ
  pub bits : ℕ

abbrev pub idle : Pending
idle = record { need = 0; low = 0; high = 0; bits = 0 }

abbrev pub pending : ℕ → ℕ → ℕ → ℕ → Pending
pending n lo hi b = record { need = n; low = lo; high = hi; bits = b }

-- The first byte of a character.
unfoldable pub utf8_lead : ℕ → Option (Pending × Text)
utf8_lead b =
    if ltb b 128
    then some (idle, b ∷ [])
    else if ltb b 194
    then none
    else if ltb b 224
    then some (pending 1 128 191 (b - 192), [])
    else if b == 224
    then some (pending 2 160 191 0, [])
    else if b == 237
    then some (pending 2 128 159 13, [])
    else if ltb b 240
    then some (pending 2 128 191 (b - 224), [])
    else if b == 240
    then some (pending 3 144 191 0, [])
    else if ltb b 244
    then some (pending 3 128 191 (b - 240), [])
    else if b == 244
    then some (pending 3 128 143 4, [])
    else none

unfoldable pub utf8_step : Pending → ℕ → Option (Pending × Text)
unfolding utf8_lead
utf8_step p b =
    if p.need == 0
    then utf8_lead b
    else if leb p.low b && leb b p.high
    then (if p.need == 1
        then some (idle, (p.bits * 64 + (b - 128)) ∷ [])
        else some (pending (p.need - 1) 128 191 (p.bits * 64 + (b - 128)), []))
    else none

-- `b.decode("utf-8")`; `none` is `UnicodeDecodeError`.
unfoldable pub utf8_from : Pending → Bytes → Option Text
unfolding utf8_step
utf8_from p [] = if p.need == 0 then some [] else none
utf8_from p (b ∷ rest) = elim (utf8_step p b) [
  | none ↦ none
  | some (p', out) ↦ Option.map (λ s. out ++ s) (utf8_from p' rest)
]

abbrev pub utf8_decode : Bytes → Option Text
utf8_decode = utf8_from idle

-- `s.encode("latin-1")`; decoding is the identity.
unfoldable pub latin1 : Text → Option Bytes
latin1 s = if all (λ c. ltb c 256) s then some s else none

unfoldable pub b64_value : ℕ → Option ℕ
b64_value c =
    if leb b'A' c && leb c b'Z'
    then some (c - 65)
    else if leb b'a' c && leb c b'z'
    then some (c - 71)
    else if leb b'0' c && leb c b'9'
    then some (c + 4)
    else if c == b'+'
    then some 62
    else if c == b'/'
    then some 63
    else none

-- The place in a group of four characters, the bits left over, and the `=` seen in a row.
pub record Quad : Type 0 where
  pub place : ℕ
  pub left : ℕ
  pub pads : ℕ

abbrev pub quad : ℕ → ℕ → Quad
quad n l = record { place = n; left = l; pads = 0 }

-- One character of six bits, and the byte that it completes.
unfoldable pub b64_sextet : Quad → ℕ → Quad × Bytes
b64_sextet q v =
    if q.place == 0
    then (quad 1 v, [])
    else if q.place == 1
    then (quad 2 (v % 16), (q.left * 4 + v / 16) ∷ [])
    else if q.place == 2
    then (quad 3 (v % 4), (q.left * 16 + v / 4) ∷ [])
    else (quad 0 0, (q.left * 64 + v) ∷ [])

-- A `=` ends the input where it completes a group; a character outside the alphabet is skipped.
unfoldable pub b64_from : Quad → Text → Option Bytes
b64_from q [] = if q.place == 0 then some [] else none
b64_from q (c ∷ s) =
    let skip = b64_from (if leb 2 q.place then record q { pads = q.pads + 1 } else q) s in
    if c == b'='
    then (if leb 2 q.place && leb 4 (q.place + q.pads + 1) then some [] else skip)
    else elim (b64_value c) [
      | none ↦ b64_from q s
      | some v ↦ let (q', out) = b64_sextet q v in Option.map (λ r. out ++ r) (b64_from q' s)
    ]

-- `base64.b64decode(s)` of a `str`; `none` is `ValueError`.
unfoldable pub b64decode : Text → Option Bytes
unfolding b64_from b64_value b64_sextet
b64decode s = if all (λ c. ltb c 128) s then b64_from (quad 0 0) s else none
