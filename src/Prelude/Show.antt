-- ===== src/Prelude/Show.antt =====
-- How Python prints numbers in an f-string.
use Prim.Native.Nat.{ℕ, zero, suc, ◌+◌, ◌/◌, ◌%◌}
use mathlib.Core.List.{[], ◌∷◌, ◌++◌}
use node_debug_dashboard.Prelude.Tests.{ltb, ◌==◌, if◌then◌else◌}
use node_debug_dashboard.Prelude.Strings.{Text}
use node_debug_dashboard.Prelude.Int.{ℤ, pos, negsuc}

-- The digits of `n` in front of `rest`; a number has fewer digits than the fuel `n + 1`.
unfoldable pub show_from : ℕ → ℕ → Text → Text
show_from zero n rest = rest
show_from (suc fuel) n rest =
    let more = show_from fuel (n / 10) ((48 + n % 10) ∷ rest) in
    if ltb n 10 then (48 + n) ∷ rest else more

unfoldable pub show_nat : ℕ → Text
unfolding show_from
show_nat n = show_from (n + 1) n []

unfoldable pub show_int : ℤ → Text
unfolding show_nat
show_int (pos n) = show_nat n
show_int (negsuc n) = b'-' ∷ show_nat (n + 1)

-- A number of tenths as the float that it is: `12.5`.
unfoldable pub show_tenths : ℕ → Text
unfolding show_nat
show_tenths n = show_nat (n / 10) ++ b'.' ∷ show_nat (n % 10)

-- A number of tenths with `:.0f`: halves go to the even number.
unfoldable pub round_tenths : ℕ → ℕ
round_tenths n =
    if n % 10 == 5 then (if n / 10 % 2 == 0 then n / 10 else n / 10 + 1) else (n + 5) / 10

-- Three decimals without the zeros at their end, but for the first.
decimals : ℕ → Text
unfolding show_nat
decimals n =
    if n % 100 == 0
    then show_nat (n / 100)
    else if n % 10 == 0
    then show_nat (n / 100) ++ show_nat (n / 10 % 10)
    else show_nat (n / 100) ++ show_nat (n / 10 % 10) ++ show_nat (n % 10)

thousandths : ℕ → Text
unfolding show_nat decimals
thousandths n = show_nat (n / 1000) ++ b'.' ∷ decimals (n % 1000)

-- A number of thousandths as the float that it is: `85.0`, `36.125`.
unfoldable pub show_thousandths : ℤ → Text
unfolding thousandths
show_thousandths (pos n) = thousandths n
show_thousandths (negsuc n) = b'-' ∷ thousandths (n + 1)
