-- ===== src/Warnings/Health.antt =====
-- When a drive or a sensor alerts.
use node_debug_dashboard.Prelude.{
  ◌≡◌, refl, Bool, true, false, not, ◌&&◌, ◌||◌, Option, List, [], ◌∷◌, map, any, any-append,
  is_empty-append, is_empty-map, arith, is_empty, Text, ℤ,
}
use node_debug_dashboard.Models.Warnings.{Severity, NodeWarning}
use node_debug_dashboard.Models.Storage.{SmartHealth}
use node_debug_dashboard.Warnings.{
  warn_if, smart_warnings, issue_warning, is_critical_issue, is_failing, above, error_text, is_worn,
}

abbrev pub is_critical_severity : Severity → Bool
is_critical_severity Severity.critical = true
is_critical_severity _ = false

abbrev pub is_critical : NodeWarning → Bool
is_critical w = is_critical_severity w.severity

any-issue :
    (device : Text) (issues : List Text)
    → any is_critical (map (issue_warning device) issues) ≡ any is_critical_issue issues
unfolding issue_warning
any-issue device [] = refl
any-issue device (i ∷ issues) = rw (any-issue device issues) (ground arith)

above_mono : (o : Option ℤ) → above 70 o ≡ true → above 60 o ≡ true
above_mono o h = ground arith

-- The reasons for which a drive is critical.
unfoldable pub drive_is_critical : SmartHealth → Bool
drive_is_critical s =
    is_failing s.health_passed
    || above 0 s.offline_uncorrectable
    || any is_critical_issue s.smart_issues
    || above 70 s.temperature_celsius

-- A drive raises a critical warning exactly if it reported a failed health check, has offline
-- uncorrectable sectors, lists one of the two critical findings, or is above 70 degrees.
pub smart_warnings-critical :
    (s : SmartHealth) → any is_critical (smart_warnings s) ≡ drive_is_critical s
unfolding smart_warnings drive_is_critical
smart_warnings-critical s =
    simp any-append
      (ground (arith, any-issue s.device s.smart_issues, above_mono s.temperature_celsius))

-- The reasons for which a drive is mentioned at all.
unfoldable pub drive_is_noted : SmartHealth → Bool
drive_is_noted s =
    is_failing s.health_passed
    || (not (is_empty (error_text s.error)) && not s.standby)
    || above 0 s.pending_sectors
    || above 0 s.offline_uncorrectable
    || not (is_empty s.smart_issues)
    || above 0 s.reallocated_sectors
    || is_worn s.wear_leveling_percent
    || above 60 s.temperature_celsius

is_empty-warn_if : (b : Bool) (w : NodeWarning) → is_empty (warn_if b w) ≡ not b
is_empty-warn_if true w = refl
is_empty-warn_if false w = refl

-- A drive raises no warning at all exactly if none of the reasons holds.
pub smart_warnings-empty : (s : SmartHealth) → is_empty (smart_warnings s) ≡ not (drive_is_noted s)
unfolding smart_warnings drive_is_noted
smart_warnings-empty s = simp (is_empty-append, is_empty-map, is_empty-warn_if) (ground arith)
