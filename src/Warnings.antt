-- ===== src/Warnings.antt =====
-- app/routers/warnings.py: the warnings of every subsystem, from what the collectors gathered.
-- A source that failed is missing. The counters of errors are a table that the process keeps; its
-- clock is in nanoseconds, and one call of the endpoint reads it once.
mod Making
mod Counting
mod Devices
mod Cluster
pub mod Increases
pub mod Health
pub mod Origins
pub mod Assembly
pub mod Failures
mod Tests
unfoldable pub use Making.*
unfoldable pub use Counting.*
unfoldable pub use Devices.*
unfoldable pub use Cluster.*
use node_debug_dashboard.Prelude.{
  ℕ, zero, suc, ◌+◌, ◌-◌, ◌*◌, Bool, true, false, not, ◌&&◌, ◌||◌, Option, none, some, List, [],
  ◌∷◌, ◌++◌, map, ltb, leb, ◌==◌, if◌then◌else◌, any, keep, concat_map, is_empty, is_some, or_else,
  Text, lit, text_eq, contains, split_on, Eq, str_eq, Dict, lookup, put, ℤ, pos, leb_ℤ, ltb_ℤ,
  is_zero_ℤ, ◌≡◌, ◌↔◌, arith, text_eq_iff, show_nat, show_int, show_tenths, show_thousandths,
  round_tenths,
}
use node_debug_dashboard.Degrade.{Outcome, returned, raised, gather_sections}
use node_debug_dashboard.Config.{counter_window_hours}
use node_debug_dashboard.Models.Warnings.{Severity, Source, NodeWarning, is_ok}
use node_debug_dashboard.Models.Storage.{SmartHealth, DiskUsage}
use node_debug_dashboard.Models.Hardware.{MemoryInfo, NicInfo, SensorReading}
use node_debug_dashboard.Models.Kubernetes.{
  K8sNodeInfo, K8sNodeCondition, CertificateInfo, K8sComponentStatus, EtcdStatus,
}
use node_debug_dashboard.Models.Talos.{TalosCertificateInfo}

-- What the ten collectors returned; a collector that failed left nothing.
pub record Gathered : Type 0 where
  pub dmesg : Option (List NodeWarning)
  pub smart : Option (List SmartHealth)
  pub sensors : Option (List SensorReading)
  pub memory : Option MemoryInfo
  pub nics : Option (List NicInfo)
  pub disk_usage : Option (List DiskUsage)
  pub k8s_certs : Option (List CertificateInfo)
  pub talos_certs : Option (List TalosCertificateInfo)
  pub components : Option (List K8sComponentStatus)
  pub k8s_node : Option K8sNodeInfo

-- How a collector ended, by what it left.
abbrev pub ended : {A : Type 0} → Option A → Outcome (Unit {0})
ended none = raised
ended (some a) = returned tt

-- The keyword arguments of the call of `gather_sections`.
abbrev pub collectors : Gathered → List (Text × Outcome (Unit {0}))
collectors r =
    (lit "dmesg", ended r.dmesg)
    ∷ (lit "smart", ended r.smart)
    ∷ (lit "sensors", ended r.sensors)
    ∷ (lit "memory", ended r.memory)
    ∷ (lit "nics", ended r.nics)
    ∷ (lit "disk_usage", ended r.disk_usage)
    ∷ (lit "k8s_certs", ended r.k8s_certs)
    ∷ (lit "talos_certs", ended r.talos_certs)
    ∷ (lit "components", ended r.components)
    ∷ (lit "k8s_node", ended r.k8s_node)
    ∷ []

-- `failed`, the second part of what `gather_sections` returns. It raises only if a collector is
-- cancelled, and then there is nothing to report.
unfoldable pub failed_names : Gathered → List Text
unfolding gather_sections lit
failed_names r = elim (gather_sections (collectors r)) [ none ↦ [] | some (out, failed) ↦ failed ]

-- `"talos_certs" not in failed`
unfoldable pub talos_owns_pki : Gathered → Bool
unfolding failed_names lit
talos_owns_pki r = not (any (text_eq (lit "talos_certs")) (failed_names r))

unfoldable pub failed_warning : Text → NodeWarning
failed_warning name =
    plain Severity.warning Source.dashboard
      (lit "Could not collect " ++ name ++ lit "; its warnings are missing")

unfoldable pub namespace_warnings : Bool → List NodeWarning
namespace_warnings in_host_network_namespace = warn_if (not in_host_network_namespace) (
    plain Severity.info Source.dashboard (
      lit
        "hostNetwork is off: component health, etcd metrics and the node's DNS resolvers cannot be checked from the pod"))

-- What follows the counters: disks, certificates, etcd and the node's conditions.
unfoldable pub later_warnings : Gathered → List NodeWarning
later_warnings r =
    concat_map disk_warnings (or_else r.disk_usage [])
    ++ concat_map (k8s_cert_warnings (talos_owns_pki r)) (or_else r.k8s_certs [])
    ++ concat_map talos_cert_warnings (or_else r.talos_certs [])
    ++ concat_map component_warnings (or_else r.components [])
    ++ concat_map condition_warnings (conditions_of r.k8s_node)

-- What precedes the counters: the failures, the kernel log, the drives and the sensors.
unfoldable pub early_warnings : Bool → Gathered → List NodeWarning
early_warnings in_host_network_namespace r =
    map failed_warning (failed_names r)
    ++ namespace_warnings in_host_network_namespace
    ++ or_else r.dmesg []
    ++ concat_map smart_warnings (or_else r.smart [])
    ++ concat_map sensor_warnings (or_else r.sensors [])

-- `get_warnings`: the new table of counters, and the warnings.
unfoldable pub get_warnings : Bool → ℕ → Gathered → Counters → Counters × List NodeWarning
get_warnings in_host_network_namespace now r counters =
    let (counters', memory) = memory_warnings r.memory now counters in
    let (counters'', network) = network_warnings (or_else r.nics []) now counters' in
    (
      forget_gone r.nics counters'',
      early_warnings in_host_network_namespace r ++ memory ++ network ++ later_warnings r,
    )
