-- ===== src/Dmesg/Tests.antt =====
-- Lines of a kernel log under the rules of app/collectors/dmesg.py.
use node_debug_dashboard.Prelude.{
  ◌+◌, ◌*◌, pos, map, words, push_char, starts_with, arith, ℕ, ◌≡◌, ◌↔◌, refl, true, false, Option,
  none, some, List, [], ◌∷◌, Text, lit, strip, lstrip, rstrip, is_space, lower_char, is_empty,
  lookup, put, show_nat, show_from, All,
}
use node_debug_dashboard.Models.Warnings.{Severity, Source, NodeWarning}
use node_debug_dashboard.Warnings.Origins.{IsKernelSource}
use node_debug_dashboard.Regex.{ends, search_text, search_from, at_boundary, repeat, word, all_of}
use node_debug_dashboard.Dmesg.{
  matches, first_match, is_before, rule_of, scan_with, collect_hits, summarize, hit_warning,
  last_two, join,
}
use node_debug_dashboard.Dmesg.Rules.{rules, lockups}
use node_debug_dashboard.Dmesg.Matching.{SomeOccurs, matches_iff}
use node_debug_dashboard.Dmesg.Summary.{IsFirst, reports}
use node_debug_dashboard.Dmesg.Stamps.{
  Stamp, instant, parse_line, read_char, read_two, take_digits, read_digits_1, read_fraction,
  skip_colon, to_end, read_message, read_iso, days_in_month, days_before_month, days_before_year,
  read_number, micros, is_valid, local_seconds, utc_seconds, match_iso, read_padded, read_seconds,
  read_uptime, match_monotonic,
}
use node_debug_dashboard.Dmesg.Scan.{
  scan, splitlines, read_float, boot_time, collect_dmesg_warnings,
}
use node_debug_dashboard.Dmesg.Lines.{
  Fits, IsMessage, put_stamp, put_two, put_uptime, parse_line-iso, parse_line-uptime,
}
use node_debug_dashboard.Dmesg.Report.{
  scan-reports, scan-old_line, collect_dmesg_warnings-IsKernelSource,
}

program : Unit {0}
unfolding ends search_text search_from at_boundary repeat word all_of matches first_match rules
    rule_of scan_with collect_hits summarize hit_warning last_two join lookup put strip lstrip
    rstrip is_space lower_char show_nat show_from lit reports instant parse_line read_char read_two
    take_digits read_digits_1 read_fraction skip_colon to_end read_message read_iso days_in_month
    days_before_month days_before_year read_number micros is_valid local_seconds utc_seconds
    match_iso read_padded read_seconds read_uptime match_monotonic scan splitlines read_float
    boot_time collect_dmesg_warnings put_uptime words push_char starts_with
program = tt

place : Text → Option ℕ
unfolding program
place message = first_match 0 rules message

-- A banner is no fault, and the words of a PCIe error are not taken for one of the memory, unless a µ
-- in front of them makes another word of `AER`.
rule_places :
    (place (lit "mce: CPU0 supports 10 MCE banks") ≡ none)
    × (place (lit "EDAC MC0: 1 CE memory read error") ≡ some 3)
    × (place (lit "EDAC MC0: 0 CE memory read error") ≡ none)
    × (place (lit "I/O error, dev sda, sector 8") ≡ some 6)
    × (place (lit "I/O error, dev sr0, sector 8") ≡ none)
    × (place (lit "pcieport: AER: Uncorrected error") ≡ some 7)
    × (place (181 ∷ lit "AER: Uncorrected error") ≡ some 2)
unfolding program place
rule_places = (refl, refl, refl, refl, refl, refl, refl)

abbrev log : List Text
log = lit "a soft lockup" ∷ lit " " ∷ lit "eth0: up" ∷ lit "a hard lockup " ∷ []

one_report :
    scan none none 24 log
    ≡ record {
      severity = Severity.critical;
      source = Source.cpu;
      message = lit "CPU lockups or RCU stalls: 2 in the last 24h — a soft lockup; a hard lockup";
      device = none;
    }
      ∷ []
unfolding program
one_report = refl

abbrev stamp : Stamp
stamp = record {
  year = 2026;
  month = 9;
  day = 17;
  hour = 6;
  minute = 24;
  second = 36;
  fraction = lit "500000";
  behind = false;
  offset_hour = 2;
  offset_minute = 0;
}

stamp-Fits : Fits stamp
unfolding program
stamp-Fits = record {
  year = omega arith;
  month = omega arith;
  day = omega arith;
  hour = omega arith;
  minute = omega arith;
  second = omega arith;
  fraction = (refl, (refl, (refl, (refl, (refl, (refl, tt))))));
  some_fraction = λ e. cc;
  offset_hour = omega arith;
  offset_minute = omega arith;
}

abbrev message : Text
message = lit "a soft lockup"

message-IsMessage : IsMessage message
unfolding program
message-IsMessage = record {
  one_line = (
    refl,
    (
      refl,
      (refl, (refl, (refl, (refl, (refl, (refl, (refl, (refl, (refl, (refl, (refl, tt))))))))))),
    ),
  );
  no_space = refl;
}

-- The stamp is what `dmesg` prints, and its time is 04:24:36.5 of UTC.
printed : put_stamp stamp (b' ' ∷ message) ≡ lit "2026-09-17T06:24:36,500000+02:00 a soft lockup"
unfolding program put_stamp put_two
printed = refl

utc : instant stamp ≡ instant (record stamp { hour = 4; offset_hour = 0 })
unfolding program
utc = refl

-- The first second of 1970, and a day that there is not.
epoch :
    (instant (record stamp {
      year = 1970;
      month = 1;
      day = 1;
      hour = 0;
      minute = 0;
      second = 0;
      fraction = [];
      offset_hour = 0;
    })
      ≡ some (719163 * 86400 * 1_000_000))
    × (instant (record stamp { month = 2; day = 29 }) ≡ none)
unfolding program
epoch = (refl, refl)

-- Plain `dmesg` pads the seconds; other text has no time.
plain_lines :
    (parse_line (some 1_000_000) (lit "[   12.345678] up") ≡ (some 13_345_678, lit "up"))
    × (parse_line none (lit "[   12.345678] up") ≡ (none, lit "up"))
    × (parse_line (some 5) (lit "eth0: up") ≡ (none, lit "eth0: up"))
unfolding program
plain_lines = (refl, refl, refl)

answers :
    (map
        (λ (w : NodeWarning). w.source)
        (collect_dmesg_warnings
          (record { stdout = []; status = pos 1 })
          (record { stdout = lit "[ 1.5] hard lockup"; status = pos 0 })
          (lit "7.25 3.5")
          9_000_000
          9_000_000)
      ≡ Source.cpu ∷ [])
    × (boot_time 9_000_000 (lit "7.25 3.5") ≡ some 1_750_000)
    × (boot_time 9_000_000 (lit "x") ≡ none)
    × (splitlines (lit "a\r\nb\n") ≡ lit "a" ∷ lit "b" ∷ [])
unfolding program
answers = (refl, refl, refl, refl)

parse_line-iso_example :
    parse_line none (put_stamp stamp (b' ' ∷ message)) ≡ (instant stamp, message)
parse_line-iso_example = parse_line-iso none stamp message stamp-Fits message-IsMessage

parse_line-uptime_example :
    parse_line (some 7) (put_uptime (lit "   ") (lit "12") (lit "345678") (b' ' ∷ message))
    ≡ (some (7 + 12_345_678), message)
unfolding program
parse_line-uptime_example =
    parse_line-uptime (some 7) (lit "   ") (lit "12") (lit "345678") message
      (refl, (refl, (refl, tt))) (refl, (refl, tt)) (λ e. cc)
      (refl, (refl, (refl, (refl, (refl, (refl, tt)))))) (λ e. cc) message-IsMessage

abbrev cutoff : ℕ
cutoff = 63925302276500001

scan-old_line_example :
    scan none (some cutoff) 24 (lit "eth0: up" ∷ put_stamp stamp (b' ' ∷ message) ∷ log)
    ≡ scan none (some cutoff) 24 (lit "eth0: up" ∷ log)
unfolding program
scan-old_line_example =
    scan-old_line none cutoff 63925302276500000 24 stamp message (lit "eth0: up" ∷ []) log
      stamp-Fits message-IsMessage refl (omega arith)

scan-reports_example :
    (scan none none 24 log ≡ reports (parse_line none) none 24 rules 0 rules log)
    × ((raw : Text) (i : ℕ)
        → (rule_of (parse_line none) none rules raw ≡ some i) ↔ (
            (is_empty (strip raw) ≡ false)
            × (is_before none (parse_line none raw).0 ≡ false)
            × IsFirst i rules (parse_line none raw).1))
scan-reports_example = scan-reports none none 24 log

collect_dmesg_warnings-IsKernelSource_example :
    All
      (λ x. IsKernelSource x.source)
      (collect_dmesg_warnings
        (record { stdout = lit "hard lockup"; status = pos 0 })
        (record { stdout = []; status = pos 0 })
        []
        9_000_000
        9_000_000)
collect_dmesg_warnings-IsKernelSource_example =
    collect_dmesg_warnings-IsKernelSource (record { stdout = lit "hard lockup"; status = pos 0 })
      (record { stdout = []; status = pos 0 }) [] 9_000_000 9_000_000

matches_iff_example : (matches lockups (lit "a soft lockup") ≡ true) ↔ (
    SomeOccurs lockups.patterns (lit "a soft lockup")
    × ¬ (SomeOccurs lockups.excludes (lit "a soft lockup")))
matches_iff_example = matches_iff lockups (lit "a soft lockup")
