-- ===== src/Dmesg/Rules.antt =====
-- RULES: the table of app/collectors/dmesg.py.
use node_debug_dashboard.Prelude.{List, [], ◌∷◌, lit}
use node_debug_dashboard.Models.Warnings.{Severity, Source}
use node_debug_dashboard.Regex.{Re, boundary, alt, star, word, digit, space, dot, plus, all_of}
use node_debug_dashboard.Dmesg.{Rule}
use Prim.Native.String.{String}

abbrev w : String → Re
w s = word (lit s)

abbrev mce_banners : List Re
mce_banners =
    all_of (w "mce:" ∷ star space ∷ w "CPU" ∷ star digit ∷ star space ∷ w "supports" ∷ [])
    ∷ all_of (
        w "mce:"
        ∷ star space
        ∷ w "Machine check"
        ∷ star dot
        ∷ alt (w "enabled") (w "initialized")
        ∷ [])
    ∷ w "no mce"
    ∷ []

abbrev pub machine_check_exceptions : Rule
machine_check_exceptions = record {
  source = Source.memory;
  severity = Severity.critical;
  label = lit "Machine check exceptions";
  patterns =
      w "Machine Check Exception"
      ∷ w "Fatal machine check"
      ∷ w "Processor context corrupt"
      ∷ w "Uncorrected hardware memory error"
      ∷ all_of (boundary ∷ w "mce:" ∷ star dot ∷ w "Action required" ∷ [])
      ∷ all_of (
          boundary
          ∷ w "MCE"
          ∷ boundary
          ∷ star dot
          ∷ boundary
          ∷ alt (w "uncorrected") (w "fatal")
          ∷ boundary
          ∷ [])
      ∷ [];
  excludes = mce_banners;
}

abbrev pub machine_check_events : Rule
machine_check_events = record {
  source = Source.memory;
  severity = Severity.warning;
  label = lit "Machine check events";
  patterns =
      all_of (boundary ∷ w "mce:" ∷ star dot ∷ w "hardware error" ∷ [])
      ∷ w "machine check events logged"
      ∷ all_of (w "CPU" ∷ star space ∷ plus digit ∷ w ": Machine Check" ∷ boundary ∷ [])
      ∷ [];
  excludes = mce_banners;
}

abbrev pub uncorrectable_ecc : Rule
uncorrectable_ecc = record {
  source = Source.memory;
  severity = Severity.critical;
  label = lit "Uncorrectable ECC errors";
  patterns =
      all_of (boundary ∷ plus digit ∷ plus space ∷ w "UE" ∷ boundary ∷ [])
      ∷ w "uncorrected error"
      ∷ w "uncorrectable error"
      ∷ [];
  excludes =
      all_of (boundary ∷ w "0" ∷ plus space ∷ w "UE" ∷ boundary ∷ [])
      ∷ all_of (boundary ∷ w "AER:" ∷ [])
      ∷ w "PCIe Bus Error"
      ∷ [];
}

abbrev pub correctable_ecc : Rule
correctable_ecc = record {
  source = Source.memory;
  severity = Severity.warning;
  label = lit "Correctable ECC errors";
  patterns =
      all_of (
        w "EDAC"
        ∷ plus space
        ∷ w "MC"
        ∷ plus digit
        ∷ w ":"
        ∷ star space
        ∷ plus digit
        ∷ plus space
        ∷ w "CE"
        ∷ boundary
        ∷ [])
      ∷ all_of (boundary ∷ w "corrected error" ∷ boundary ∷ [])
      ∷ [];
  excludes =
      all_of (
        w "EDAC"
        ∷ plus space
        ∷ w "MC"
        ∷ plus digit
        ∷ w ":"
        ∷ star space
        ∷ w "0"
        ∷ plus space
        ∷ w "CE"
        ∷ boundary
        ∷ [])
      ∷ all_of (w "EDAC MC:" ∷ star space ∷ w "Ver" ∷ [])
      ∷ w "no ecc support"
      ∷ all_of (w "EDAC" ∷ star dot ∷ w "giving out device" ∷ [])
      ∷ all_of (boundary ∷ w "AER:" ∷ [])
      ∷ w "PCIe Bus Error"
      ∷ [];
}

abbrev pub lockups : Rule
lockups = record {
  source = Source.cpu;
  severity = Severity.critical;
  label = lit "CPU lockups or RCU stalls";
  patterns =
      w "soft lockup"
      ∷ w "hard LOCKUP"
      ∷ all_of (w "rcu" ∷ star dot ∷ w "detected stall" ∷ [])
      ∷ all_of (w "rcu" ∷ star dot ∷ w "self-detected stall" ∷ [])
      ∷ [];
  excludes = [];
}

abbrev pub throttling : Rule
throttling = record {
  source = Source.cpu;
  severity = Severity.warning;
  label = lit "CPU thermal throttling";
  patterns =
      w "temperature above threshold"
      ∷ w "package temperature above"
      ∷ w "clock throttled"
      ∷ w "thermal throttl"
      ∷ [];
  excludes =
      w "thermal monitoring enabled"
      ∷ w "registered thermal governor"
      ∷ w "registered as thermal_zone"
      ∷ w "interrupt throttling rate"
      ∷ all_of (w "temperature" ∷ star space ∷ w "/" ∷ star space ∷ w "speed normal" ∷ [])
      ∷ [];
}

abbrev pub io_errors : Rule
io_errors = record {
  source = Source.disk;
  severity = Severity.critical;
  label = lit "Disk I/O errors";
  patterns =
      all_of (boundary ∷ w "I/O error" ∷ boundary ∷ [])
      ∷ all_of (w "critical " ∷ alt (w "medium") (w "target") ∷ w " error" ∷ [])
      ∷ w "failed command:"
      ∷ w "exception Emask"
      ∷ all_of (w "SCSI error" ∷ star dot ∷ w "return code" ∷ [])
      ∷ w "rejecting I/O to offline device"
      ∷ [];
  excludes =
      all_of (boundary ∷ w "dev " ∷ alt (w "sr") (alt (w "fd") (w "loop")) ∷ plus digit ∷ []) ∷ [];
}

abbrev pub aer_uncorrected : Rule
aer_uncorrected = record {
  source = Source.pcie;
  severity = Severity.critical;
  label = lit "PCIe uncorrected errors (AER)";
  patterns =
      all_of (boundary ∷ w "AER:" ∷ star dot ∷ w "Uncorrect" ∷ [])
      ∷ all_of (boundary ∷ w "AER:" ∷ star dot ∷ boundary ∷ w "Fatal" ∷ boundary ∷ [])
      ∷ w "PCIe Bus Error: severity=Uncorrect"
      ∷ [];
  excludes = [];
}

abbrev pub aer_corrected : Rule
aer_corrected = record {
  source = Source.pcie;
  severity = Severity.warning;
  label = lit "PCIe corrected errors (AER)";
  patterns =
      all_of (
        boundary
        ∷ w "AER:"
        ∷ star dot
        ∷ boundary
        ∷ w "Correct"
        ∷ alt (w "ed") (w "able")
        ∷ w " error"
        ∷ [])
      ∷ w "PCIe Bus Error: severity=Correct"
      ∷ [];
  excludes = [];
}

unfoldable pub rules : List Rule
rules =
    machine_check_exceptions ∷ machine_check_events ∷ uncorrectable_ecc ∷ correctable_ecc ∷ lockups
    ∷ throttling ∷ io_errors ∷ aer_uncorrected ∷ aer_corrected ∷ []
