-- ===== src/Warnings/Devices.antt =====
-- The warnings of drives and sensors of app/routers/warnings.py.
use node_debug_dashboard.Prelude.{
  Bool, false, not, ◌&&◌, ◌||◌, Option, none, some, List, [], ◌++◌, map, if◌then◌else◌, is_empty,
  Text, lit, text_eq, str_eq, ℤ, pos, leb_ℤ, ltb_ℤ, is_zero_ℤ, show_thousandths,
}
use node_debug_dashboard.Models.Warnings.{Severity, Source, NodeWarning}
use node_debug_dashboard.Models.Storage.{SmartHealth}
use node_debug_dashboard.Models.Hardware.{SensorReading}
use node_debug_dashboard.Warnings.Making.{plain, on_device, warn_if, above, show_some}

-- _CRITICAL_SMART_ISSUES
unfoldable pub is_critical_issue : Text → Bool
is_critical_issue issue =
    text_eq issue (lit "Self-test log contains errors")
    || text_eq issue (lit "Prefail attribute at or below threshold")

unfoldable pub issue_warning : Text → Text → NodeWarning
unfolding is_critical_issue
issue_warning device issue =
    on_device (if is_critical_issue issue then Severity.critical else Severity.warning) Source.smart
      issue device

abbrev pub is_failing : Option Bool → Bool
is_failing none = false
is_failing (some passed) = not passed

abbrev pub error_text : Option Text → Text
error_text none = []
error_text (some e) = e

abbrev pub is_worn : Option ℤ → Bool
is_worn none = false
is_worn (some v) = ltb_ℤ v (pos 20)

-- The warnings of one drive.
unfoldable pub smart_warnings : SmartHealth → List NodeWarning
unfolding issue_warning
smart_warnings smart =
    warn_if (is_failing smart.health_passed)
      (on_device Severity.critical Source.smart (lit "SMART health FAILED") smart.device)
    ++ warn_if (not (is_empty (error_text smart.error)) && not smart.standby) (
        on_device Severity.warning Source.smart
          (lit "SMART not readable: " ++ error_text smart.error) smart.device)
    ++ warn_if (above 0 smart.pending_sectors) (
        on_device Severity.warning Source.smart
          (lit "Pending sectors: " ++ show_some smart.pending_sectors) smart.device)
    ++ warn_if (above 0 smart.offline_uncorrectable) (
        on_device Severity.critical Source.smart
          (lit "Offline uncorrectable sectors: " ++ show_some smart.offline_uncorrectable)
          smart.device)
    ++ map (issue_warning smart.device) smart.smart_issues
    ++ warn_if (above 0 smart.reallocated_sectors) (
        on_device Severity.warning Source.smart
          (lit "Reallocated sectors: " ++ show_some smart.reallocated_sectors) smart.device)
    ++ warn_if (is_worn smart.wear_leveling_percent) (
        on_device Severity.warning Source.smart
          (lit "SSD wear level at " ++ show_some smart.wear_leveling_percent ++ lit "%")
          smart.device)
    ++ warn_if (above 60 smart.temperature_celsius) (
        on_device
          (if above 70 smart.temperature_celsius then Severity.critical else Severity.warning)
          Source.smart (lit "Disk temperature: " ++ show_some smart.temperature_celsius ++ lit "°C")
          smart.device)

-- `threshold and value >= threshold`
unfoldable pub reaches : Option ℤ → ℤ → Bool
reaches none value = false
reaches (some threshold) value = not (is_zero_ℤ threshold) && leb_ℤ threshold value

abbrev pub show_threshold : Option ℤ → Text
show_threshold none = lit "None"
show_threshold (some v) = show_thousandths v

unfoldable pub sensor_warnings : SensorReading → List NodeWarning
unfolding reaches
sensor_warnings sensor = warn_if sensor.is_alarm (
    plain (if reaches sensor.critical sensor.value then Severity.critical else Severity.warning)
      Source.temperature
      (sensor.label
        ++ lit ": "
        ++ show_thousandths sensor.value
        ++ sensor.unit
        ++ lit " (crit="
        ++ show_threshold sensor.critical
        ++ lit ", warn="
        ++ show_threshold sensor.warning
        ++ lit ")"))
