-- ===== src/Dmesg/Scan.antt =====
-- `scan` and `collect_dmesg_warnings` of app/collectors/dmesg.py: the answers of the two commands and
-- of the file are arguments, and so are the readings of the clock, in microseconds.
use node_debug_dashboard.Prelude.{
  ℕ, ◌+◌, ◌-◌, ◌*◌, Bool, ◌&&◌, ◌||◌, Option, none, some, List, [], ◌∷◌, leb, ◌==◌, if◌then◌else◌,
  Text, words, push_char, starts_with, is_empty, ℤ, is_zero_ℤ,
}
use node_debug_dashboard.Config.{dmesg_window_hours}
use node_debug_dashboard.Models.Warnings.{NodeWarning}
use node_debug_dashboard.Dmesg.{scan_with}
use node_debug_dashboard.Dmesg.Rules.{rules}
use node_debug_dashboard.Dmesg.Stamps.{parse_line, read_digits_1, read_number, micros}

unfoldable pub scan : Option ℕ → Option ℕ → ℕ → List Text → List NodeWarning
unfolding scan_with parse_line rules
scan boot_time cutoff window_hours lines =
    scan_with (parse_line boot_time) cutoff rules window_hours lines

-- The ends of lines of `str.splitlines`.
abbrev pub is_line_end : ℕ → Bool
is_line_end c =
    (leb 10 c && leb c 13) || (leb 28 c && leb c 30) || c == 133 || c == 8232 || c == 8233

-- `str.splitlines`; a carriage return and a line feed are one end.
unfoldable pub splitlines : Text → List Text
unfolding push_char starts_with
splitlines [] = []
splitlines (c ∷ s) =
    let rest = splitlines s in
    if c == 13 && starts_with (10 ∷ []) s
    then rest
    else if is_line_end c
    then [] ∷ rest
    else push_char c rest

-- `float(s)` in microseconds, of digits with a fraction or without one; nothing for another text.
unfoldable pub read_float : Text → Option ℕ
unfolding read_digits_1 read_number micros
read_float s = elim (read_digits_1 s) [
  | none ↦ none
  | some (ds, []) ↦ some (read_number 0 ds * 1_000_000)
  | some (ds, c ∷ rest) ↦
      if c == b'.'
      then (elim (read_digits_1 rest) [
        | none ↦ if is_empty rest then some (read_number 0 ds * 1_000_000) else none
        | some (fs, []) ↦ some (read_number 0 ds * 1_000_000 + micros 6 0 fs)
        | some (fs, d ∷ more) ↦ none
      ])
      else none
]

abbrev pub before : ℕ → Option ℕ → Option ℕ
before now none = none
before now (some t) = some (now - t)

-- What `_boot_time` makes of the words of the file.
abbrev pub boot_of : ℕ → List Text → Option ℕ
boot_of now [] = none
boot_of now (w ∷ ws) = before now (read_float w)

-- `_boot_time`: the file's text, empty if it cannot be read.
unfoldable pub boot_time : ℕ → Text → Option ℕ
unfolding read_float words
boot_time now uptime_raw = if is_empty uptime_raw then none else boot_of now (words uptime_raw)

abbrev pub dmesg_window : ℕ
dmesg_window = dmesg_window_hours * 3600 * 1_000_000

-- What a command printed, and its exit status.
pub record Answer : Type 0 where
  pub stdout : Text
  pub status : ℤ

abbrev pub report : ℕ → ℕ → Text → Text → List NodeWarning
report booted now uptime_raw stdout =
    scan (boot_time booted uptime_raw) (some (now - dmesg_window)) dmesg_window_hours
      (splitlines stdout)

-- `collect_dmesg_warnings`: `dmesg --time-format iso` first, then plain `dmesg`. The clock is read for
-- the boot time and again for the cutoff.
unfoldable pub collect_dmesg_warnings : Answer → Answer → Text → ℕ → ℕ → List NodeWarning
unfolding scan boot_time splitlines
collect_dmesg_warnings iso plain uptime_raw booted now =
    if is_zero_ℤ iso.status
    then report booted now uptime_raw iso.stdout
    else if is_zero_ℤ plain.status
    then report booted now uptime_raw plain.stdout
    else []
