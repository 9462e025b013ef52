-- ===== src/Dmesg/Report.antt =====
-- What `scan` and `collect_dmesg_warnings` report.
use node_debug_dashboard.Prelude.{
  ℕ, ◌-◌, ◌<◌, ◌≡◌, ◌↔◌, refl, ap, arith, false, Option, none, some, List, [], ◌∷◌, ◌++◌, is_empty,
  All, Text, strip, Dict,
}
use node_debug_dashboard.Config.{dmesg_window_hours}
use node_debug_dashboard.Warnings.Origins.{IsKernelSource}
use node_debug_dashboard.Dmesg.{is_before, record_hit, rule_of, collect_hits, scan_with}
use node_debug_dashboard.Dmesg.Rules.{rules}
use node_debug_dashboard.Dmesg.Stamps.{Stamp, instant, parse_line}
use node_debug_dashboard.Dmesg.Lines.{Fits, IsMessage, put_stamp, parse_line-iso}
use node_debug_dashboard.Dmesg.Scan.{
  scan, report, Answer, boot_time, splitlines, dmesg_window, collect_dmesg_warnings,
}
use node_debug_dashboard.Dmesg.Summary.{
  IsFirst, reports, scan_with-reports, scan_with-IsKernelSource,
}

-- The scan reports, in the order of the rules, one summary for each rule that some line was filed
-- under, made of exactly those lines. A line is filed under a rule exactly if it is not blank, is not
-- older than the cutoff, and the rule is the first that matches its message; a line without a time
-- counts as not older.
pub scan-reports :
    (boot cutoff : Option ℕ) (window : ℕ) (lines : List Text)
    → (scan boot cutoff window lines ≡ reports (parse_line boot) cutoff window rules 0 rules lines)
      × ((raw : Text) (i : ℕ)
          → (rule_of (parse_line boot) cutoff rules raw ≡ some i) ↔ (
              (is_empty (strip raw) ≡ false)
              × (is_before cutoff (parse_line boot raw).0 ≡ false)
              × IsFirst i rules (parse_line boot raw).1))
unfolding scan
scan-reports boot cutoff window lines =
    scan_with-reports (parse_line boot) cutoff window rules lines

-- The warnings from the kernel log name only memory, CPU, disks and PCIe, whatever the commands and
-- the file answered.
pub collect_dmesg_warnings-IsKernelSource :
    (iso plain : Answer) (uptime_raw : Text) (booted now : ℕ)
    → All (λ x. IsKernelSource x.source) (collect_dmesg_warnings iso plain uptime_raw booted now)
unfolding collect_dmesg_warnings scan
collect_dmesg_warnings-IsKernelSource iso plain uptime_raw booted now =
    ground (arith, kernel iso.stdout, kernel plain.stdout)
  where
    kernel : (out : Text) → All (λ x. IsKernelSource x.source) (report booted now uptime_raw out)
    kernel out =
        scan_with-IsKernelSource (parse_line (boot_time booted uptime_raw))
          (some (now - dmesg_window)) dmesg_window_hours (splitlines out)

module _ (parse : Text → Option ℕ × Text) (cutoff : Option ℕ) where
  collect_hits-skip :
      (xs : List Text) (raw : Text) (ys : List Text) (hits : Dict ℕ (List Text))
      → rule_of parse cutoff rules raw ≡ none
      → collect_hits parse cutoff rules (xs ++ raw ∷ ys) hits
        ≡ collect_hits parse cutoff rules (xs ++ ys) hits
  unfolding collect_hits
  collect_hits-skip [] raw ys hits h =
      ap (λ o. collect_hits parse cutoff rules ys (record_hit o (parse raw).1 hits)) h
  collect_hits-skip (x ∷ xs) raw ys hits h = collect_hits-skip xs raw ys _ h

old_line :
    (boot : Option ℕ) (cutoff t : ℕ) (s : Stamp) (m : Text)
    → Fits s
    → IsMessage m
    → instant s ≡ some t
    → t < cutoff
    → rule_of (parse_line boot) (some cutoff) rules (put_stamp s (b' ' ∷ m)) ≡ none
unfolding rule_of
old_line boot cutoff t s m f h at old =
    rw (parse_line-iso boot s m f h, rule_of) (rw at (ground arith))

-- A printed line with a valid time older than the cutoff, and a message of one line that does not
-- start with white space, changes nothing, wherever it stands in the log.
pub scan-old_line :
    (boot : Option ℕ) (cutoff t window : ℕ) (s : Stamp) (m : Text) (xs ys : List Text)
    → Fits s
    → IsMessage m
    → instant s ≡ some t
    → t < cutoff
    → scan boot (some cutoff) window (xs ++ put_stamp s (b' ' ∷ m) ∷ ys)
      ≡ scan boot (some cutoff) window (xs ++ ys)
unfolding scan scan_with
scan-old_line boot cutoff t window s m xs ys f h at old =
    rw
      (collect_hits-skip (parse_line boot) (some cutoff) xs (put_stamp s (b' ' ∷ m)) ys []
        (old_line boot cutoff t s m f h at old))
      refl
