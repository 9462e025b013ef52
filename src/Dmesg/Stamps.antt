-- ===== src/Dmesg/Stamps.antt =====
-- The times in front of a line of the kernel log: the two patterns of app/collectors/dmesg.py, and the
-- times that `datetime.fromisoformat` makes of what the first one takes. A time is a number of
-- microseconds of UTC, from the day before the first one of year 1.
use node_debug_dashboard.Prelude.{
  ℕ, zero, suc, ◌+◌, ◌-◌, ◌*◌, ◌/◌, ◌%◌, Bool, not, ◌&&◌, ◌||◌, Option, none, some, [], ◌∷◌, ltb,
  leb, ◌==◌, if◌then◌else◌, is_empty, Text, is_ascii_digit, lstrip,
}

-- What a piece of a pattern takes from the front of a text, and what is left.
abbrev pub Reader {ℓ} : Type ℓ → Type ℓ
Reader A = Text → Option (A × Text)

infixl 5 ◌>>=◌ ◌>>◌
abbrev pub ◌>>=◌ {ℓ κ} : {A : Type ℓ} {B : Type κ} → Reader A → (A → Reader B) → Reader B
◌>>=◌ m f s = elim (m s) [ none ↦ none | some (a, rest) ↦ f a rest ]

abbrev pub ◌>>◌ {ℓ κ} : {A : Type ℓ} {B : Type κ} → Reader A → Reader B → Reader B
m >> k = m >>= λ _. k

abbrev pub done {ℓ} : {A : Type ℓ} → A → Reader A
done a s = some (a, s)

-- One character that passes a test.
unfoldable pub read_char : (ℕ → Bool) → Reader ℕ
read_char test [] = none
read_char test (c ∷ s) = if test c then some (c, s) else none

abbrev pub digit_value : ℕ → ℕ
digit_value c = c - 48

-- `\d{2}`
unfoldable pub read_two : Reader ℕ
unfolding read_char
read_two = do
  a ← read_char is_ascii_digit
  b ← read_char is_ascii_digit
  done (digit_value a * 10 + digit_value b)

-- `\d*`
unfoldable pub take_digits : Text → Text × Text
take_digits [] = ([], [])
take_digits (c ∷ s) =
    if is_ascii_digit c then (let (ds, rest) = take_digits s in (c ∷ ds, rest)) else ([], c ∷ s)

-- `\d+`
unfoldable pub read_digits_1 : Reader Text
unfolding take_digits
read_digits_1 s = let (ds, rest) = take_digits s in if is_empty ds then none else some (ds, rest)

-- `(?:[,.]\d+)?`
unfoldable pub read_fraction : Reader Text
unfolding read_digits_1 read_char
read_fraction s = elim (((read_char (λ c. c == b',' || c == b'.')) >> read_digits_1) s) [
  | none ↦ some ([], s)
  | some (ds, rest) ↦ some (ds, rest)
]

-- `:?`
unfoldable pub skip_colon : Reader (Unit {0})
skip_colon [] = some (tt, [])
skip_colon (c ∷ s) = if c == b':' then some (tt, s) else some (tt, c ∷ s)

-- `(.*)$`: the rest, if it has no end of a line but for one at its end.
unfoldable pub to_end : Text → Option Text
to_end [] = some []
to_end (c ∷ s) =
    let rest = to_end s in
    if c == 10
    then (if is_empty s then some [] else none)
    else elim rest [ none ↦ none | some t ↦ some (c ∷ t) ]

-- `\s*(.*)$`
unfoldable pub read_message : Text → Option Text
unfolding to_end lstrip
read_message s = to_end (lstrip s)

pub record Stamp : Type 0 where
  pub year : ℕ
  pub month : ℕ
  pub day : ℕ
  pub hour : ℕ
  pub minute : ℕ
  pub second : ℕ
  pub fraction : Text
  pub behind : Bool
  pub offset_hour : ℕ
  pub offset_minute : ℕ

-- The group of `_ISO_RE` that is the time.
unfoldable pub read_iso : Reader Stamp
unfolding read_two read_char read_fraction skip_colon
read_iso = do
  century ← read_two
  years ← read_two
  _ ← read_char (λ c. c == b'-')
  month ← read_two
  _ ← read_char (λ c. c == b'-')
  day ← read_two
  _ ← read_char (λ c. c == b'T')
  hour ← read_two
  _ ← read_char (λ c. c == b':')
  minute ← read_two
  _ ← read_char (λ c. c == b':')
  second ← read_two
  fraction ← read_fraction
  sign ← read_char (λ c. c == b'+' || c == b'-')
  offset_hour ← read_two
  _ ← skip_colon
  offset_minute ← read_two
  done (record {
    year = century * 100 + years;
    month = month;
    day = day;
    hour = hour;
    minute = minute;
    second = second;
    fraction = fraction;
    behind = sign == b'-';
    offset_hour = offset_hour;
    offset_minute = offset_minute;
  })

abbrev pub is_leap : ℕ → Bool
is_leap y = y % 4 == 0 && (not (y % 100 == 0) || y % 400 == 0)

unfoldable pub days_in_month : ℕ → ℕ → ℕ
days_in_month y m =
    if m == 2
    then (if is_leap y then 29 else 28)
    else if m == 4 || m == 6 || m == 9 || m == 11
    then 30
    else 31

-- The days of the year before a month.
unfoldable pub days_before_month : ℕ → ℕ → ℕ
unfolding days_in_month
days_before_month y zero = 0
days_before_month y (suc zero) = 0
days_before_month y (suc (suc m)) = days_before_month y (suc m) + days_in_month y (suc m)

-- The days before a year.
unfoldable pub days_before_year : ℕ → ℕ
days_before_year y = (y - 1) * 365 + (y - 1) / 4 - (y - 1) / 100 + (y - 1) / 400

unfoldable pub read_number : ℕ → Text → ℕ
read_number n [] = n
read_number n (c ∷ s) = read_number (n * 10 + digit_value c) s

-- The first six digits of a fraction, filled up with zeros.
unfoldable pub micros : ℕ → ℕ → Text → ℕ
micros zero n ds = n
micros (suc k) n [] = micros k (n * 10) []
micros (suc k) n (c ∷ ds) = micros k (n * 10 + digit_value c) ds

unfoldable pub is_valid : Stamp → Bool
unfolding days_in_month
is_valid s =
    leb 1 s.year
    && leb 1 s.month
    && leb s.month 12
    && leb 1 s.day
    && leb s.day (days_in_month s.year s.month)
    && ltb s.hour 24
    && ltb s.minute 60
    && ltb s.second 60
    && ltb (s.offset_hour * 60 + s.offset_minute) 1440

-- The seconds of the local time, from the day before the first one of year 1.
unfoldable pub local_seconds : Stamp → ℕ
unfolding days_before_year days_before_month
local_seconds s =
    (days_before_year s.year + days_before_month s.year s.month + s.day) * 86400
    + s.hour * 3600
    + s.minute * 60
    + s.second

abbrev pub offset_seconds : Stamp → ℕ
offset_seconds s = s.offset_hour * 3600 + s.offset_minute * 60

unfoldable pub utc_seconds : Stamp → ℕ
unfolding local_seconds
utc_seconds s =
    if s.behind then local_seconds s + offset_seconds s else local_seconds s - offset_seconds s

-- `datetime.fromisoformat` of what `_ISO_RE` took; nothing for a `ValueError`.
unfoldable pub instant : Stamp → Option ℕ
unfolding is_valid utc_seconds micros
instant s = if is_valid s then some (utc_seconds s * 1_000_000 + micros 6 0 s.fraction) else none

-- `_ISO_RE`: the time and the message.
unfoldable pub match_iso : Text → Option (Stamp × Text)
unfolding read_iso read_message
match_iso raw = elim (read_iso raw) [
  | none ↦ none
  | some (s, rest) ↦ elim (read_message rest) [ none ↦ none | some message ↦ some (s, message) ]
]

-- `\s*\d+`
unfoldable pub read_padded : Reader Text
unfolding read_digits_1
read_padded s = read_digits_1 (lstrip s)

-- `\s*(\d+\.\d+)\]`, in microseconds.
unfoldable pub read_seconds : Reader ℕ
read_seconds = do
  seconds ← read_padded
  _ ← read_char (λ c. c == b'.')
  fraction ← read_digits_1
  _ ← read_char (λ c. c == b']')
  done (read_number 0 seconds * 1_000_000 + micros 6 0 fraction)

-- `^\[` and what follows it.
unfoldable pub read_uptime : Reader ℕ
read_uptime = read_char (λ c. c == b'[') >> read_seconds

-- `_MONOTONIC_RE`. Digits beyond the microseconds are dropped, and no time is too large; dmesg prints six
-- digits, and a kernel's uptime fits a datetime.
unfoldable pub match_monotonic : Text → Option (ℕ × Text)
unfolding read_uptime read_message
match_monotonic raw = elim (read_uptime raw) [
  | none ↦ none
  | some (t, rest) ↦ elim (read_message rest) [ none ↦ none | some message ↦ some (t, message) ]
]

abbrev pub since_boot : Option ℕ → ℕ → Option ℕ
since_boot none t = none
since_boot (some boot) t = some (boot + t)

-- `parse_line`
unfoldable pub parse_line : Option ℕ → Text → Option ℕ × Text
unfolding match_iso match_monotonic instant
parse_line boot_time raw = elim (match_iso raw) [
  | some (s, message) ↦ (instant s, message)
  | none ↦ elim (match_monotonic raw) [
    | some (t, message) ↦ (since_boot boot_time t, message)
    | none ↦ (none, raw)
  ]
]
