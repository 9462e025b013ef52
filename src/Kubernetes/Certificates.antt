-- ===== src/Kubernetes/Certificates.antt =====
-- The certificates of `collect_k8s_certificates`: what `openssl x509` prints of each, and when it expires.
-- The matches of the patterns and the answers of the commands are arguments; the clock is in
-- microseconds, counted like the times of the kernel log.
use node_debug_dashboard.Prelude.{
  ℕ, ◌+◌, ◌-◌, ◌/◌, Bool, true, false, not, ◌&&◌, ◌||◌, Option, none, some, List, [], ◌∷◌, map, leb,
  ◌==◌, if◌then◌else◌, any, length, is_empty, Text, lit, text_eq, contains, strip, words, split_on,
  cut, or_else, is_digits, read_digits, lower, lower_char, ℤ, pos, negsuc, ltb_ℤ, is_zero_ℤ, ◌>>=◌,
  filter_map, concat_map, sort_by,
}
use node_debug_dashboard.Dmesg.Scan.{splitlines}
use node_debug_dashboard.Dmesg.Stamps.{Stamp, instant}
use node_debug_dashboard.Models.Warnings.{Severity, ok, warning, critical}
use node_debug_dashboard.Models.Kubernetes.{CertificateInfo}
use node_debug_dashboard.Storage.Device.{Output}
use node_debug_dashboard.Kubernetes.Cluster.{text_lt}

-- `line[len(prefix):].strip()`, if the line starts with the prefix.
unfoldable pub drop_prefix : Text → Text → Option Text
drop_prefix [] s = some s
drop_prefix (c ∷ p) [] = none
drop_prefix (c ∷ p) (d ∷ s) = let rest = drop_prefix p s in if c == d then rest else none

-- The six texts that the loop over the lines fills.
pub record Printed : Type 0 where
  pub subject : Text
  pub issuer : Text
  pub not_before : Text
  pub not_after : Text
  pub serial_number : Text
  pub sha256_fingerprint : Text

abbrev pub nothing_printed : Printed
nothing_printed = record {
  subject = [];
  issuer = [];
  not_before = [];
  not_after = [];
  serial_number = [];
  sha256_fingerprint = [];
}

-- The fingerprint comes before the serial number in the chain of tests.
unfoldable pub add_plain : Text → Printed → Printed
unfolding drop_prefix strip contains cut lit
add_plain line p =
    if contains (lit "Fingerprint=") line
    then record p { sha256_fingerprint = strip (or_else (cut b'=' line).1 []) }
    else elim (drop_prefix (lit "serial=") line) [
      | some rest ↦ record p { serial_number = strip rest }
      | none ↦ p
    ]

unfoldable pub add_printed : Text → Printed → Printed
unfolding drop_prefix strip add_plain lit
add_printed line p = elim (drop_prefix (lit "subject=") line) [
  | some rest ↦ record p { subject = strip rest }
  | none ↦ elim (drop_prefix (lit "issuer=") line) [
    | some rest ↦ record p { issuer = strip rest }
    | none ↦ elim (drop_prefix (lit "notBefore=") line) [
      | some rest ↦ record p { not_before = strip rest }
      | none ↦ elim (drop_prefix (lit "notAfter=") line) [
        | some rest ↦ record p { not_after = strip rest }
        | none ↦ add_plain line p
      ]
    ]
  ]
]

unfoldable pub read_printed : List Text → Printed → Printed
unfolding add_printed strip
read_printed [] p = p
read_printed (line ∷ lines) p = read_printed lines (add_printed (strip line) p)

-- The place of a month in the year, from 1 on.
abbrev place : ℕ → Text → List Text → Option ℕ
place n w [] = none
place n w (m ∷ ms) = if text_eq (lower w) m then some n else place (n + 1) w ms

unfoldable pub month_of : Text → Option ℕ
unfolding lit text_eq lower_char
month_of w = place 1 w (
    map (λ s. lit s)
      ("jan" ∷ "feb" ∷ "mar" ∷ "apr" ∷ "may" ∷ "jun" ∷ "jul" ∷ "aug" ∷ "sep" ∷ "oct" ∷ "nov" ∷ "dec"
        ∷ []))

-- One or two digits, and four.
abbrev short_number : Text → Option ℕ
short_number w = if is_digits w && leb (length w) 2 then some (read_digits 0 w) else none

abbrev year_number : Text → Option ℕ
year_number w = if is_digits w && length w == 4 then some (read_digits 0 w) else none

abbrev is_utc : Text → Bool
is_utc w = text_eq (lower w) (lit "utc") || text_eq (lower w) (lit "gmt")

unfoldable pub stamp_of : List Text → List Text → Option Stamp
unfolding month_of is_digits read_digits lit text_eq lower_char
stamp_of (month_name ∷ day_digits ∷ time ∷ year_digits ∷ zone ∷ []) (h ∷ m ∷ s ∷ []) = do
  month ← month_of month_name
  day ← short_number day_digits
  hour ← short_number h
  minute ← short_number m
  second ← short_number s
  year ← year_number year_digits
  elim (is_utc zone) [
    | false ↦ none
    | true ↦ some (record {
      year = year;
      month = month;
      day = day;
      hour = hour;
      minute = minute;
      second = second;
      fraction = [];
      behind = false;
      offset_hour = 0;
      offset_minute = 0;
    })
  ]
stamp_of _ _ = none

abbrev time_word : List Text → Text
time_word (a ∷ b ∷ time ∷ rest) = time
time_word _ = []

-- `datetime.strptime(not_after, "%b %d %H:%M:%S %Y %Z")` in UTC; a ValueError is `none`. The zones are
-- those that every platform has.
unfoldable pub expiry_of : Text → Option ℕ
unfolding words split_on stamp_of instant
expiry_of not_after = do
  stamp ← stamp_of (words not_after) (split_on b':' (time_word (words not_after)))
  instant stamp

abbrev pub day_micros : ℕ
day_micros = 86_400_000_000

-- `(expiry - now).days`, which rounds down.
unfoldable pub days_until : ℕ → ℕ → ℤ
days_until expiry now =
    if leb now expiry
    then pos ((expiry - now) / day_micros)
    else negsuc ((now - expiry - 1) / day_micros)

unfoldable pub expiry_severity_of : Option ℤ → Severity
expiry_severity_of none = ok
expiry_severity_of (some days) =
    if ltb_ℤ days (pos 30) then critical else if ltb_ℤ days (pos 90) then warning else ok

unfoldable pub days_left : Text → ℕ → Option ℤ
unfolding expiry_of days_until
days_left not_after now =
    if is_empty not_after
    then none
    else do expiry ← expiry_of not_after; some (days_until expiry now)

unfoldable pub certificate_of : ℕ → Text × Output → Option CertificateInfo
unfolding splitlines read_printed days_left expiry_severity_of
certificate_of now (path, out) =
    let p = read_printed (splitlines out.stdout) nothing_printed in
    let days = days_left p.not_after now in
    if not (is_zero_ℤ out.rc)
    then none
    else some (record {
      file_path = path;
      subject = p.subject;
      issuer = p.issuer;
      not_before = p.not_before;
      not_after = p.not_after;
      serial_number = p.serial_number;
      sha256_fingerprint = p.sha256_fingerprint;
      days_until_expiry = days;
      expiry_severity = expiry_severity_of days;
    })

-- A set of texts, filled in order.
unfoldable pub set_of : List Text → List Text
unfolding text_eq
set_of [] = []
set_of (t ∷ ts) = let rest = set_of ts in if any (text_eq t) rest then rest else t ∷ rest

-- `collect_k8s_certificates`: the files that match each of the patterns, and what `openssl` answers for
-- a file at the time of its own run.
unfoldable pub collect_k8s_certificates :
    List (List Text) → (Text → Output) → (Text → ℕ) → List CertificateInfo
unfolding set_of sort_by text_lt certificate_of
collect_k8s_certificates matches openssl now =
    filter_map (λ path. certificate_of (now path) (path, openssl path))
      (sort_by text_lt (set_of (concat_map (λ paths. paths) matches)))
