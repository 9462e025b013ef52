-- ===== src/Dmesg/Lines.antt =====
-- A line of the kernel log is read back as what the log wrote.
use node_debug_dashboard.Prelude.{
  ℕ, ◌+◌, ◌*◌, ◌/◌, ◌%◌, ◌<◌, ◌≡◌, ◌≢◌, refl, arith, Bool, true, false, ◌||◌, Option, some, [], ◌∷◌,
  ◌++◌, ◌==◌, if◌then◌else◌, All, Text, is_ascii_digit, lstrip, is_space,
}
use node_debug_dashboard.Dmesg.Stamps.{
  Stamp, ◌>>=◌, read_char, read_two, take_digits, read_digits_1, read_fraction, skip_colon, to_end,
  read_message, read_iso, match_iso, match_monotonic, read_uptime, read_padded, read_seconds,
  instant, parse_line, since_boot, micros, read_number,
}

-- Two digits in front of a text.
unfoldable pub put_two : ℕ → Text → Text
put_two n t = (48 + n / 10) ∷ (48 + n % 10) ∷ t

abbrev pub IsDigit : ℕ → Type 0
IsDigit c = is_ascii_digit c ≡ true

-- What `dmesg --time-format iso` prints before a message: a fraction of digits after a comma, and an
-- offset.
unfoldable pub put_stamp : Stamp → Text → Text
put_stamp s t = put_two (s.year / 100) (
    put_two (s.year % 100) (
      b'-'
      ∷ put_two s.month (
          b'-'
          ∷ put_two s.day (
              b'T'
              ∷ put_two s.hour (
                  b':'
                  ∷ put_two s.minute (
                      b':'
                      ∷ put_two s.second (
                          b',' ∷ s.fraction
                          ++ (if s.behind then b'-' else b'+')
                            ∷ put_two s.offset_hour (b':' ∷ put_two s.offset_minute t))))))))

-- The numbers of a stamp fit their places.
pub record Fits (s : Stamp) : Type 0 where
  pub year : s.year < 10000
  pub month : s.month < 100
  pub day : s.day < 100
  pub hour : s.hour < 100
  pub minute : s.minute < 100
  pub second : s.second < 100
  pub fraction : All IsDigit s.fraction
  pub some_fraction : s.fraction ≢ []
  pub offset_hour : s.offset_hour < 100
  pub offset_minute : s.offset_minute < 100

read_two-put_two : (n : ℕ) (t : Text) → n < 100 → read_two (put_two n t) ≡ some (n, t)
unfolding read_two put_two read_char
read_two-put_two n t h = ground arith

take_digits-append :
    (ds : Text) (c : ℕ) (t : Text)
    → All IsDigit ds
    → is_ascii_digit c ≡ false
    → take_digits (ds ++ c ∷ t) ≡ (ds, c ∷ t)
unfolding take_digits
take_digits-append [] c t h stop = rw stop refl
take_digits-append (d ∷ ds) c t h stop = rw (h.0) (rw (take_digits-append ds c t h.1 stop) refl)

read_digits_1-append :
    (ds : Text) (c : ℕ) (t : Text)
    → All IsDigit ds
    → ds ≢ []
    → is_ascii_digit c ≡ false
    → read_digits_1 (ds ++ c ∷ t) ≡ some (ds, c ∷ t)
unfolding read_digits_1
read_digits_1-append [] c t h full stop = absurd (full refl)
read_digits_1-append (d ∷ ds) c t h full stop = rw (take_digits-append (d ∷ ds) c t h stop) refl

read_fraction-comma :
    (ds : Text) (c : ℕ) (t : Text)
    → All IsDigit ds
    → ds ≢ []
    → is_ascii_digit c ≡ false
    → read_fraction (b',' ∷ ds ++ c ∷ t) ≡ some (ds, c ∷ t)
unfolding read_fraction read_char
read_fraction-comma ds c t h full stop =
    rw (read_digits_1-append ds c t h full stop, read_fraction) refl

-- A message without an end of a line that does not start with white space.
pub record IsMessage (m : Text) : Type 0 where
  pub one_line : All (λ c. (c == 10) ≡ false) m
  pub no_space : lstrip m ≡ m

to_end-line : (m : Text) → All (λ c. (c == 10) ≡ false) m → to_end m ≡ some m
unfolding to_end
to_end-line [] h = refl
to_end-line (c ∷ m) h = rw (h.0) (rw (to_end-line m h.1) refl)

read_message-space : (m : Text) → IsMessage m → read_message (b' ' ∷ m) ≡ some m
unfolding read_message lstrip is_space
read_message-space m h = rw (h.no_space) (to_end-line m h.one_line)

no_digit : (b : Bool) → is_ascii_digit (if b then b'-' else b'+') ≡ false
no_digit b = ground arith

is_sign :
    (b : Bool) → ((if b then b'-' else b'+') == b'+' || (if b then b'-' else b'+') == b'-') ≡ true
is_sign b = ground arith

sign_back : (b : Bool) → ((if b then b'-' else b'+') == b'-') ≡ b
sign_back b = ground arith

year_back : (y : ℕ) → y / 100 * 100 + y % 100 ≡ y
year_back y = omega arith

read_iso-put_stamp : (s : Stamp) (t : Text) → Fits s → read_iso (put_stamp s t) ≡ some (s, t)
unfolding read_iso put_stamp read_char skip_colon
read_iso-put_stamp s t f =
    let sign = if s.behind then b'-' else b'+' in
    let t9 = b':' ∷ put_two s.offset_minute t in
    let t8 = s.fraction ++ sign ∷ put_two s.offset_hour t9 in
    let t6 = b':' ∷ put_two s.second (b',' ∷ t8) in
    let t5 = b':' ∷ put_two s.minute t6 in
    let t4 = b'T' ∷ put_two s.hour t5 in
    let t3 = b'-' ∷ put_two s.day t4 in
    let t2 = b'-' ∷ put_two s.month t3 in
    rw
      (
        read_two-put_two (s.year / 100) (put_two (s.year % 100) t2) (omega (arith, f.year)),
        read_iso,
        ◌>>=◌,
      )
      (rw (read_two-put_two (s.year % 100) t2 (omega arith), ◌>>=◌)
        (rw (read_two-put_two s.month t3 f.month, ◌>>=◌)
          (rw (read_two-put_two s.day t4 f.day, ◌>>=◌)
            (rw (read_two-put_two s.hour t5 f.hour, ◌>>=◌)
              (rw (read_two-put_two s.minute t6 f.minute, ◌>>=◌)
                (rw (read_two-put_two s.second (b',' ∷ t8) f.second, ◌>>=◌)
                  (rw
                    (
                      read_fraction-comma s.fraction sign (put_two s.offset_hour t9) f.fraction
                          f.some_fraction (no_digit s.behind),
                      ◌>>=◌,
                    )
                    (rw (is_sign s.behind, ◌>>=◌)
                      (rw (read_two-put_two s.offset_hour t9 f.offset_hour, ◌>>=◌)
                        (rw (read_two-put_two s.offset_minute t f.offset_minute, ◌>>=◌)
                          (rw (year_back s.year) (rw (sign_back s.behind) refl))))))))))))

match_iso-put_stamp :
    (s : Stamp) (m : Text) → Fits s → IsMessage m → match_iso (put_stamp s (b' ' ∷ m)) ≡ some (s, m)
unfolding match_iso
match_iso-put_stamp s m f h =
    rw (read_iso-put_stamp s (b' ' ∷ m) f, match_iso) (rw (read_message-space m h) refl)

-- A line of `dmesg --time-format iso` is read back: its time is the one that the stamp names, or none
-- if there is no such time, and its message is the one that was logged. This holds for a message of
-- one line that does not start with white space.
pub parse_line-iso :
    (boot : Option ℕ) (s : Stamp) (m : Text)
    → Fits s
    → IsMessage m
    → parse_line boot (put_stamp s (b' ' ∷ m)) ≡ (instant s, m)
unfolding parse_line
parse_line-iso boot s m f h = rw (match_iso-put_stamp s m f h, parse_line) refl

-- A stamp of plain `dmesg`, with its padding, in front of a text.
unfoldable pub put_uptime : Text → Text → Text → Text → Text
put_uptime pad seconds fraction t = b'[' ∷ pad ++ seconds ++ b'.' ∷ (fraction ++ b']' ∷ t)

lstrip-pad :
    (pad ds t : Text)
    → All (λ c. c ≡ b' ') pad
    → All IsDigit ds
    → ds ≢ []
    → lstrip (pad ++ ds ++ t) ≡ ds ++ t
unfolding lstrip is_space
lstrip-pad [] [] t p h full = absurd (full refl)
lstrip-pad [] (d ∷ ds) t p h full = ground (arith, h.0)
lstrip-pad (c ∷ pad) ds t p h full = rw (p.0) (lstrip-pad pad ds t p.1 h full)

read_padded-append :
    (pad ds t : Text)
    → All (λ c. c ≡ b' ') pad
    → All IsDigit ds
    → ds ≢ []
    → read_padded (pad ++ ds ++ b'.' ∷ t) ≡ some (ds, b'.' ∷ t)
unfolding read_padded
read_padded-append pad ds t p h full =
    rw (lstrip-pad pad ds (b'.' ∷ t) p h full) (read_digits_1-append ds b'.' t h full refl)

read_seconds-append :
    (pad seconds fraction t : Text)
    → All (λ c. c ≡ b' ') pad
    → All IsDigit seconds
    → seconds ≢ []
    → All IsDigit fraction
    → fraction ≢ []
    → read_seconds (pad ++ seconds ++ b'.' ∷ (fraction ++ b']' ∷ t))
      ≡ some (read_number 0 seconds * 1_000_000 + micros 6 0 fraction, t)
unfolding read_seconds read_char
read_seconds-append pad seconds fraction t p hs fs hf ff =
    rw (read_padded-append pad seconds (fraction ++ b']' ∷ t) p hs fs, read_seconds, ◌>>=◌)
      (rw (read_digits_1-append fraction b']' t hf ff refl, ◌>>=◌) refl)

match_monotonic-put_uptime :
    (pad seconds fraction m : Text)
    → All (λ c. c ≡ b' ') pad
    → All IsDigit seconds
    → seconds ≢ []
    → All IsDigit fraction
    → fraction ≢ []
    → IsMessage m
    → match_monotonic (put_uptime pad seconds fraction (b' ' ∷ m))
      ≡ some (read_number 0 seconds * 1_000_000 + micros 6 0 fraction, m)
unfolding match_monotonic read_uptime read_char put_uptime
match_monotonic-put_uptime pad seconds fraction m p hs fs hf ff h =
    rw (read_seconds-append pad seconds fraction (b' ' ∷ m) p hs fs hf ff, match_monotonic)
      (rw (read_message-space m h) refl)

-- A line of plain `dmesg` is read back: its time is the boot time plus the seconds that it shows, or
-- none if the boot time is not known. This holds for a message of one line that does not start with
-- white space.
pub parse_line-uptime :
    (boot : Option ℕ) (pad seconds fraction m : Text)
    → All (λ c. c ≡ b' ') pad
    → All IsDigit seconds
    → seconds ≢ []
    → All IsDigit fraction
    → fraction ≢ []
    → IsMessage m
    → parse_line boot (put_uptime pad seconds fraction (b' ' ∷ m))
      ≡ (since_boot boot (read_number 0 seconds * 1_000_000 + micros 6 0 fraction), m)
unfolding parse_line match_iso read_iso read_two read_char put_uptime
parse_line-uptime boot pad seconds fraction m p hs fs hf ff h =
    rw (match_monotonic-put_uptime pad seconds fraction m p hs fs hf ff h, parse_line) refl
