-- ===== src/Warnings/Tests.antt =====
-- Calls of the endpoint of app/routers/warnings.py.
use node_debug_dashboard.Prelude.{
  ◌+◌, ◌≡◌, refl, arith, true, false, none, some, List, [], ◌∷◌, ◌++◌, map, any, concat_map, Text,
  lit, text_eq, contains, starts_with, split_on, push_char, lookup, put, pos, All, show_nat,
  show_from, show_int,
}
use node_debug_dashboard.Models.Warnings.{Severity, Source, NodeWarning}
use node_debug_dashboard.Models.Storage.{SmartHealth}
use node_debug_dashboard.Models.Hardware.{NicInfo}
use node_debug_dashboard.Models.Kubernetes.{CertificateInfo}
use node_debug_dashboard.Dmesg.Scan.{Answer, collect_dmesg_warnings}
use node_debug_dashboard.Dmesg.Report.{collect_dmesg_warnings-IsKernelSource}
use node_debug_dashboard.Degrade.{gather_sections, collect}
use node_debug_dashboard.Warnings.{
  talos_owns_pki, counter_eq, Counters, counter_window, counter_severity, last_increase, is_recent,
  counter_warning, Gathered, failed_names, failed_warning, namespace_warnings, smart_warnings,
  issue_warning, is_critical_issue, memory_warnings, nic_warnings, network_warnings, network_key,
  memory_key, forget_gone, k8s_cert_warnings, talos_cert_warnings, condition_warnings, get_warnings,
  early_warnings, later_warnings,
}
use node_debug_dashboard.Warnings.Origins.{of_source}
use node_debug_dashboard.Warnings.Assembly.{get_warnings-by_source, get_warnings-failures}
use node_debug_dashboard.Warnings.Increases.{
  observe, observe-steady, observe-increase, get_warnings-forgets,
}
use node_debug_dashboard.Warnings.Health.{is_critical, drive_is_critical, smart_warnings-critical}

program : Unit {0}
unfolding counter_severity last_increase is_recent counter_warning failed_names talos_owns_pki
    gather_sections collect failed_warning namespace_warnings smart_warnings issue_warning
    is_critical_issue memory_warnings nic_warnings network_warnings forget_gone k8s_cert_warnings
    talos_cert_warnings condition_warnings get_warnings early_warnings later_warnings observe lit
    text_eq contains starts_with split_on push_char lookup put show_nat show_from show_int
program = tt

abbrev drive : SmartHealth
drive = record {
  device = lit "/dev/sda";
  model = none;
  serial = none;
  smart_available = true;
  health_passed = some true;
  temperature_celsius = some (pos 71);
  power_on_hours = none;
  wear_leveling_percent = some (pos 90);
  reallocated_sectors = some (pos 0);
  pending_sectors = some (pos 2);
  offline_uncorrectable = none;
  smart_issues = lit "Error log contains errors" ∷ [];
  standby = false;
  error = none;
  attributes = [];
}

abbrev nic : NicInfo
nic = record {
  name = lit "eth0";
  mac = [];
  driver = [];
  speed = [];
  duplex = [];
  link_detected = true;
  ip_addresses = [];
  rx_errors = 0;
  tx_errors = 0;
  rx_dropped = 0;
  tx_dropped = 0;
  rx_crc_errors = 4;
  tx_carrier_errors = 0;
}

abbrev certificate : Text → CertificateInfo
certificate path = record {
  file_path = path;
  subject = [];
  issuer = [];
  not_before = [];
  not_after = [];
  serial_number = [];
  sha256_fingerprint = [];
  days_until_expiry = some (pos 5);
  expiry_severity = Severity.critical;
}

abbrev certificates : List CertificateInfo
certificates =
    certificate (lit "/system/secrets/kubernetes/api.crt")
    ∷ certificate (lit "/etc/pki/kubelet.crt")
    ∷ []

abbrev answer : Answer
answer = record { stdout = lit "a soft lockup"; status = pos 0 }

abbrev kernel_log : List NodeWarning
kernel_log = collect_dmesg_warnings answer answer [] 0 0

-- The sensors, the memory and the components were not collected.
abbrev gathered : Gathered
gathered = record {
  dmesg = some kernel_log;
  smart = some (drive ∷ []);
  sensors = none;
  memory = none;
  nics = some (nic ∷ []);
  disk_usage = some [];
  k8s_certs = some certificates;
  talos_certs = some [];
  components = none;
  k8s_node = none;
}

-- A counter that was 3 at the last reading, and one of an interface that is gone.
abbrev old_counters : Counters
old_counters =
    (network_key (lit "eth0") (lit "crc"), (3, none))
    ∷ (network_key (lit "eth9") (lit "crc"), (5, none))
    ∷ []

-- The four collectors that failed are named.
names :
    failed_names gathered ≡ lit "sensors" ∷ lit "memory" ∷ lit "components" ∷ lit "k8s_node" ∷ []
unfolding program
names = refl

-- The certificate that Talos lists is left out.
one_certificate :
    concat_map (k8s_cert_warnings true) certificates
    ≡ record {
      severity = Severity.critical;
      source = Source.certificate;
      message = lit "K8s cert expires in 5d: kubelet.crt";
      device = none;
    }
      ∷ []
unfolding program
one_certificate = refl

crc_alert :
    (network_warnings (nic ∷ []) 1000 old_counters).1
    ≡ record {
      severity = Severity.critical;
      source = Source.network;
      message = lit "CRC errors: 4";
      device = some (lit "eth0");
    }
      ∷ []
unfolding program
crc_alert = refl

get_warnings-by_source_example :
    (of_source Source.smart (get_warnings true 1000 gathered old_counters).1
      ≡ smart_warnings drive ++ [])
    × (of_source Source.temperature (get_warnings true 1000 gathered old_counters).1 ≡ [])
    × (of_source Source.network (get_warnings true 1000 gathered old_counters).1
        ≡ (network_warnings (nic ∷ []) 1000 (memory_warnings none 1000 old_counters).0).1)
    × (of_source Source.certificate (get_warnings true 1000 gathered old_counters).1
        ≡ concat_map (k8s_cert_warnings true) certificates ++ [])
    × (of_source Source.etcd (get_warnings true 1000 gathered old_counters).1 ≡ [])
    × (of_source Source.kubernetes (get_warnings true 1000 gathered old_counters).1 ≡ [])
get_warnings-by_source_example =
    get_warnings-by_source true 1000 gathered old_counters
      (collect_dmesg_warnings-IsKernelSource answer answer [] 0 0)

get_warnings-failures_example :
    of_source Source.dashboard (get_warnings false 1000 gathered old_counters).1
    ≡ map failed_warning (failed_names gathered) ++ namespace_warnings false
get_warnings-failures_example =
    get_warnings-failures false 1000 gathered old_counters
      (collect_dmesg_warnings-IsKernelSource answer answer [] 0 0)

observe-increase_example :
    observe
      (network_key (lit "eth0") (lit "crc"))
      Severity.critical
      ((4, 10) ∷ (4, 20) ∷ (4, 10 + counter_window) ∷ [])
      old_counters
    ≡ some Severity.critical ∷ some Severity.critical ∷ some Severity.info ∷ []
unfolding program
observe-increase_example =
    observe-increase (network_key (lit "eth0") (lit "crc")) Severity.critical 3 4 10 none
      (20 ∷ (10 + counter_window) ∷ []) old_counters (omega arith) (omega arith) refl

observe-steady_example :
    All
      (λ s. s ≡ some Severity.info)
      (observe (memory_key (lit "ecc_ce")) Severity.warning ((9, 10) ∷ (9, 20) ∷ []) old_counters)
unfolding program
observe-steady_example =
    observe-steady (memory_key (lit "ecc_ce")) Severity.warning 9 (10 ∷ 20 ∷ []) old_counters
      (omega arith) refl

get_warnings-forgets_example :
    lookup (network_key (lit "eth9") (lit "crc")) (get_warnings true 1000 gathered old_counters).0
    ≡ none
unfolding program
get_warnings-forgets_example =
    get_warnings-forgets true 1000 gathered (nic ∷ []) old_counters
      (network_key (lit "eth9") (lit "crc")) refl

smart_warnings-critical_example : any is_critical (smart_warnings drive) ≡ drive_is_critical drive
smart_warnings-critical_example = smart_warnings-critical drive
