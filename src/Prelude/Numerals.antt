-- ===== src/Prelude/Numerals.antt =====
-- Python's `int(s)`: white space around it, a sign, and single underscores between digits, which are
-- those of ASCII.
use Prim.Native.Nat.{ℕ, ◌+◌, ◌-◌, ◌*◌}
use mathlib.Core.Bool.{◌&&◌}
use mathlib.Core.Option.{Option, none, some}
use mathlib.Core.List.{[], ◌∷◌}
use node_debug_dashboard.Prelude.Tests.{◌==◌, if◌then◌else◌}
use node_debug_dashboard.Prelude.Int.{ℤ, pos, sub_ℕ}
use node_debug_dashboard.Prelude.Strings.{Text, is_ascii_digit, strip, starts_with_digit}

-- The digits that follow a number `n` that was read so far.
unfoldable pub read_more : ℕ → Text → Option ℕ
unfolding starts_with_digit
read_more n [] = some n
read_more n (c ∷ s) =
    let after = read_more (n * 10 + (c - 48)) s in
    let same = read_more n s in
    if is_ascii_digit c then after else if c == b'_' && starts_with_digit s then same else none

unfoldable pub read_unsigned : Text → Option ℕ
unfolding starts_with_digit read_more
read_unsigned s = if starts_with_digit s then read_more 0 s else none

abbrev negated : Option ℕ → Option ℤ
negated none = none
negated (some n) = some (sub_ℕ 0 n)

abbrev positive : Option ℕ → Option ℤ
positive none = none
positive (some n) = some (pos n)

abbrev read_signed : Text → Option ℤ
read_signed [] = none
read_signed (c ∷ s) =
    if c == b'-'
    then negated (read_unsigned s)
    else if c == b'+'
    then positive (read_unsigned s)
    else positive (read_unsigned (c ∷ s))

unfoldable pub parse_int : Text → Option ℤ
unfolding read_unsigned strip
parse_int s = read_signed (strip s)
