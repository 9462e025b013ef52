-- ===== src/Storage.antt =====
-- app/collectors/storage.py: the block devices of `lsblk`, the health that `smartctl` reports, and the
-- usage of the mounted filesystems. Here: what the readings of `smartctl`'s JSON share, and the
-- constants of the collector. What a command printed is an argument, and so is the value that
-- `json.loads` made of it.
pub mod Disks
pub mod Smart
pub mod Device
pub mod Mounts
pub mod Usage
mod Tests
use node_debug_dashboard.Prelude.{
  ℕ, ◌/◌, ◌%◌, Bool, not, Option, none, some, List, [], ◌∷◌, ◌==◌, Text, lit, words, ℤ, pos, negsuc,
  parse_int,
}
use node_debug_dashboard.Json.{Json, Fields, int, dict, end}
use node_debug_dashboard.Regex.{Re, alt, boundary, word, all_of}

-- `_SMARTCTL_ISSUES`: the bit by its value, and what it says.
unfoldable pub smartctl_issues : List (ℕ × Text)
unfolding lit
smartctl_issues =
    (16, lit "Prefail attribute at or below threshold")
    ∷ (32, lit "Attribute was at or below threshold in the past")
    ∷ (64, lit "Device error log contains errors")
    ∷ (128, lit "Self-test log contains errors")
    ∷ []

-- `_WEAR_ATTRS`
abbrev pub wear_attrs : List ℤ
wear_attrs = pos 177 ∷ pos 231 ∷ pos 233 ∷ pos 202 ∷ pos 169 ∷ []

-- `_STANDBY_RE`
unfoldable pub standby_re : Re
unfolding all_of word lit
standby_re = all_of (
    boundary
    ∷ word (lit "is in ")
    ∷ alt (word (lit "STANDBY")) (word (lit "SLEEP"))
    ∷ boundary
    ∷ [])

-- `status & (1 << k)`, for the power of two `1 << k`; a negative number has its bits in two's complement.
abbrev pub has_bit : ℕ → ℤ → Bool
has_bit power (pos n) = n / power % 2 == 1
has_bit power (negsuc n) = n / power % 2 == 0

-- `_int`
abbrev pub as_int : Json → Option ℤ
as_int (int n) = some n
as_int _ = none

-- `_dict`
abbrev pub as_dict : Json → Fields
as_dict (dict fs) = fs
as_dict _ = end

abbrev int_of_first : List Text → Option ℤ
int_of_first [] = none
int_of_first (w ∷ ws) = parse_int w

-- `_raw_count`
unfoldable pub raw_count : Text → Option ℤ
unfolding words parse_int
raw_count raw = int_of_first (words raw)
