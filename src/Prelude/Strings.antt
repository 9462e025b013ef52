-- ===== src/Prelude/Strings.antt =====
-- Python's `str` as a list of code points, and the methods that the program calls on it.
use Prim.Native.Nat.{ℕ, ◌+◌, ◌-◌, ◌*◌}
use Prim.Native.Char.{code}
use Prim.Native.String.{String}
use mathlib.Core.Path.{◌≡◌, refl}
use mathlib.Core.Logic.{◌↔◌}
use mathlib.Core.Bool.{Bool, true, false, not, ◌&&◌, ◌||◌}
use mathlib.Core.Option.{Option, none, some}
use mathlib.Core.List.{List, [], ◌∷◌, map}
use native.Mathlib.Omega.{arith}
use node_debug_dashboard.Prelude.Tests.{leb, ◌==◌, if◌then◌else◌}
use node_debug_dashboard.Prelude.Lists.{is_empty, all}

abbrev pub Text : Type 0
Text = List ℕ

-- A literal. It stays shut: its code points matter to a few proofs only.
unfoldable pub lit : String → Text
lit String.[] = []
lit (String.◌∷◌ c s) = code c ∷ lit s

unfoldable pub text_eq : Text → Text → Bool
text_eq [] [] = true
text_eq [] (d ∷ t) = false
text_eq (c ∷ s) [] = false
text_eq (c ∷ s) (d ∷ t) = c == d && text_eq s t

text_eq_sound : (s t : Text) → text_eq s t ≡ true → s ≡ t
unfolding text_eq
text_eq_sound [] [] h = refl
text_eq_sound [] (d ∷ t) h = ground arith
text_eq_sound (c ∷ s) [] h = ground arith
text_eq_sound (c ∷ s) (d ∷ t) h = ground (arith, text_eq_sound s t)

pub text_eq_refl : (s : Text) → text_eq s s ≡ true
unfolding text_eq
text_eq_refl [] = refl
text_eq_refl (c ∷ s) = ground (arith, text_eq_refl s)

pub text_eq_iff : (s t : Text) → (text_eq s t ≡ true) ↔ (s ≡ t)
text_eq_iff s t = (text_eq_sound s t, λ p. rw p (text_eq_refl t))

-- `str.isspace` of one code point.
unfoldable pub is_space : ℕ → Bool
is_space c =
    (leb 9 c && leb c 13)
    || (leb 28 c && leb c 32)
    || c == 133
    || c == 160
    || c == 5760
    || (leb 8192 c && leb c 8202)
    || c == 8232
    || c == 8233
    || c == 8239
    || c == 8287
    || c == 12288

abbrev pub is_ascii_digit : ℕ → Bool
is_ascii_digit c = leb b'0' c && leb c b'9'

-- `str.lower` of one code point, for the ASCII and the Latin-1 letters.
unfoldable pub lower_char : ℕ → ℕ
lower_char c =
    if (leb 65 c && leb c 90) || (leb 192 c && leb c 222 && not (c == 215)) then c + 32 else c

abbrev pub lower : Text → Text
lower = map lower_char

unfoldable pub starts_with : Text → Text → Bool
starts_with [] s = true
starts_with (c ∷ p) [] = false
starts_with (c ∷ p) (d ∷ s) = c == d && starts_with p s

-- `p in s`
unfoldable pub contains : Text → Text → Bool
unfolding starts_with
contains p [] = is_empty p
contains p (c ∷ s) = starts_with p (c ∷ s) || contains p s

unfoldable pub lstrip : Text → Text
unfolding is_space
lstrip [] = []
lstrip (c ∷ s) = let rest = lstrip s in if is_space c then rest else c ∷ s

unfoldable pub rstrip : Text → Text
unfolding is_space
rstrip [] = []
rstrip (c ∷ s) = let rest = rstrip s in if is_space c && is_empty rest then [] else c ∷ rest

unfoldable pub strip : Text → Text
unfolding lstrip rstrip
strip s = rstrip (lstrip s)

-- The text before the first white space, and what follows from there on.
unfoldable pub span_word : Text → Text × Text
unfolding is_space
span_word [] = ([], [])
span_word (c ∷ s) =
    if is_space c then ([], c ∷ s) else (let (w, rest) = span_word s in (c ∷ w, rest))

-- `s.partition(sep)` for a separator of one character: the part before, and the part after if
-- there is a separator.
unfoldable pub cut : ℕ → Text → Text × Option Text
cut sep [] = ([], none)
cut sep (c ∷ s) =
    if c == sep then ([], some s) else (let (before, after) = cut sep s in (c ∷ before, after))

-- One more character in front of the first part.
unfoldable pub push_char : ℕ → List Text → List Text
push_char c [] = (c ∷ []) ∷ []
push_char c (w ∷ parts) = (c ∷ w) ∷ parts

-- `s.split(sep)` for a separator of one character.
unfoldable pub split_on : ℕ → Text → List Text
unfolding push_char
split_on sep [] = [] ∷ []
split_on sep (c ∷ s) =
    let parts = split_on sep s in if c == sep then [] ∷ parts else push_char c parts

unfoldable pub starts_word : Text → Bool
unfolding is_space
starts_word [] = false
starts_word (c ∷ s) = not (is_space c)

-- `s.split()`: the words between runs of white space.
unfoldable pub words : Text → List Text
unfolding starts_word push_char
words [] = []
words (c ∷ s) =
    let rest = words s in
    if is_space c then rest else if starts_word s then push_char c rest else (c ∷ []) ∷ rest

-- `s.isdigit()` and `int(s)` of ASCII digits.
unfoldable pub is_digits : Text → Bool
is_digits [] = false
is_digits (c ∷ s) = all is_ascii_digit (c ∷ s)

unfoldable pub read_digits : ℕ → Text → ℕ
read_digits n [] = n
read_digits n (c ∷ s) = read_digits (n * 10 + (c - 48)) s

-- `int(s)` for a number without a sign, with white space around it; nothing for any other text.
unfoldable pub parse_nat : Text → Option ℕ
unfolding strip is_digits read_digits
parse_nat s = let t = strip s in if is_digits t then some (read_digits 0 t) else none

unfoldable pub starts_with_digit : Text → Bool
starts_with_digit [] = false
starts_with_digit (c ∷ s) = is_ascii_digit c
