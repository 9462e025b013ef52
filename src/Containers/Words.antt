-- ===== src/Containers/Words.antt =====
-- Sizes and uptimes in words, as app/collectors/containers.py writes them.
use node_debug_dashboard.Prelude.{
  ℕ, ◌+◌, ◌-◌, ◌*◌, ◌/◌, ◌%◌, List, [], ◌∷◌, ◌++◌, ltb, leb, ◌==◌, if◌then◌else◌, Text, lit,
  text_eq, ℤ, pos, negsuc, str_eq, show_nat, show_tenths,
}
use node_debug_dashboard.Json.{Fields, get, get_or, is_text}
use node_debug_dashboard.Kubernetes.Etcd.{round_div}

-- The loop of `_human_bytes`: the units that are left, and what one of the next is worth.
unfoldable pub human_from : List Text → ℕ → ℕ → Text
unfolding round_div show_tenths lit
human_from [] power n = show_tenths (round_div (n * 10) power) ++ lit " TB"
human_from (unit ∷ units) power n =
    let later = human_from units (power * 1024) n in
    if ltb n (power * 1024) then show_tenths (round_div (n * 10) power) ++ (b' ' ∷ unit) else later

-- `_human_bytes`
unfoldable pub human_bytes : ℤ → Text
unfolding human_from lit
human_bytes (pos n) = human_from (lit "B" ∷ lit "KB" ∷ lit "MB" ∷ lit "GB" ∷ []) 1 n
human_bytes (negsuc n) = b'-' ∷ human_from (lit "B" ∷ lit "KB" ∷ lit "MB" ∷ lit "GB" ∷ []) 1 (n + 1)

abbrev pub part_of : ℕ → ℕ → Text
part_of n unit = if n == 0 then [] else show_nat n ++ unit ∷ b' ' ∷ []

-- Days, hours and minutes; the first two only if there are any.
unfoldable pub duration : ℕ → Text
unfolding show_nat
duration secs =
    part_of (secs / 86400) b'd'
    ++ (part_of (secs % 86400 / 3600) b'h' ++ (show_nat (secs % 3600 / 60) ++ b'm' ∷ []))

-- `_uptime_from_created`. The difference of the times is cut towards zero.
unfoldable pub uptime_from_created : ℕ → ℤ → Text
unfolding duration
uptime_from_created now (negsuc n) = []
uptime_from_created now (pos created) =
    if created == 0
    then []
    else if leb created now
    then duration ((now - created) / 1_000_000_000)
    else if ltb (created - now) 1_000_000_000
    then duration 0
    else []

-- `_container_uptime`, for the time of creation that was read before.
unfoldable pub container_uptime : ℕ → Fields → ℤ → Text
unfolding get_or lit text_eq uptime_from_created
container_uptime now c created =
    if is_text (lit "CONTAINER_RUNNING") (get (lit "state") c)
    then uptime_from_created now created
    else []
