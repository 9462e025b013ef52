-- ===== src/Regex.antt =====
-- Python's `re`, as far as the rules for the kernel log use it: `re.search` with IGNORECASE. A pattern
-- is its syntax tree. Word characters, digits, spaces and the case of letters are those of Latin-1; of
-- the characters above it, none counts as one of these.
pub mod Semantics
use node_debug_dashboard.Prelude.{
  ℕ, zero, suc, Bool, true, false, not, ◌&&◌, ◌||◌, Option, none, some, List, [], ◌∷◌, ◌++◌, ltb,
  leb, ◌==◌, if◌then◌else◌, keep, concat_map, is_empty, length, Text, lit, lower_char, is_space,
  is_ascii_digit,
}

pub data Re : Type 0 where
  empty : Re
  one : (ℕ → Bool) → Re
  boundary : Re
  seq : Re → Re → Re
  alt : Re → Re → Re
  star : Re → Re

-- A place in a text: the character before it, if there is one, and what follows.
pub record Position : Type 0 where
  pub before : Option ℕ
  pub rest : Text

abbrev is_between : ℕ → ℕ → ℕ → Bool
is_between a b c = leb a c && leb c b

-- The letters and numbers of the upper half of Latin-1: ª, ², ³, µ, ¹, º, the fractions, and the
-- letters with accents, without × and ÷.
abbrev is_upper_half_word : ℕ → Bool
is_upper_half_word c =
    c == 170
    || is_between 178 179 c
    || c == 181
    || is_between 185 186 c
    || is_between 188 190 c
    || is_between 192 214 c
    || is_between 216 246 c
    || is_between 248 255 c

-- `\w` of a pattern over `str`.
abbrev pub is_word_char : ℕ → Bool
is_word_char c =
    is_ascii_digit c
    || is_between b'a' b'z' c
    || is_between b'A' b'Z' c
    || c == b'_'
    || is_upper_half_word c

abbrev pub word_before : Option ℕ → Bool
word_before none = false
word_before (some c) = is_word_char c

abbrev pub word_after : Text → Bool
word_after [] = false
word_after (c ∷ s) = is_word_char c

-- `\b`
unfoldable pub at_boundary : Position → Bool
at_boundary p =
    (word_before p.before && not (word_after p.rest))
    || (not (word_before p.before) && word_after p.rest)

abbrev pub step_over : (ℕ → Bool) → Text → List Position
step_over test [] = []
step_over test (c ∷ s) = if test c then record { before = some c; rest = s } ∷ [] else []

-- The ends of the repetitions of a pattern, of which each but the last has to move on.
unfoldable pub repeat : ℕ → (Position → List Position) → Position → List Position
repeat zero f p = p ∷ []
repeat (suc n) f p =
    p ∷ concat_map (repeat n f) (keep (λ q. ltb (length q.rest) (length p.rest)) (f p))

-- The places where a match that starts here can end.
unfoldable pub ends : Re → Position → List Position
unfolding at_boundary repeat
ends empty p = p ∷ []
ends (one test) p = step_over test p.rest
ends boundary p = if at_boundary p then p ∷ [] else []
ends (seq a b) p = concat_map (ends b) (ends a p)
ends (alt a b) p = ends a p ++ ends b p
ends (star a) p = repeat (length p.rest) (ends a) p

unfoldable pub search_from : Re → Option ℕ → Text → Bool
unfolding ends
search_from r prev [] = not (is_empty (ends r (record { before = prev; rest = [] })))
search_from r prev (c ∷ s) =
    not (is_empty (ends r (record { before = prev; rest = c ∷ s }))) || search_from r (some c) s

-- `re.search(r, s) is not None`
unfoldable pub search_text : Re → Text → Bool
unfolding search_from
search_text r s = search_from r none s

-- The pieces of which the patterns are built.
abbrev pub same_letter : ℕ → ℕ → Bool
same_letter c d = lower_char c == lower_char d

unfoldable pub word : Text → Re
word [] = empty
word (c ∷ []) = one (same_letter c)
word (c ∷ d ∷ s) = seq (one (same_letter c)) (word (d ∷ s))

abbrev pub digit : Re
digit = one is_ascii_digit

abbrev pub space : Re
space = one is_space

-- `.`, every character but the end of a line.
abbrev pub dot : Re
dot = one (λ c. not (c == 10))

abbrev pub plus : Re → Re
plus r = seq r (star r)

abbrev pub opt : Re → Re
opt r = alt r empty

-- A sequence of pieces.
unfoldable pub all_of : List Re → Re
all_of [] = empty
all_of (r ∷ []) = r
all_of (r ∷ s ∷ rs) = seq r (all_of (s ∷ rs))
