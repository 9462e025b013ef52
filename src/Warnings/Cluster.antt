-- ===== src/Warnings/Cluster.antt =====
-- The warnings of disks, certificates, etcd and the node's conditions of app/routers/warnings.py.
use node_debug_dashboard.Prelude.{
  Bool, not, ◌&&◌, ◌||◌, Option, none, some, List, [], ◌∷◌, ◌++◌, if◌then◌else◌, Text, lit, text_eq,
  contains, split_on, str_eq, show_nat, show_tenths, round_tenths,
}
use node_debug_dashboard.Models.Warnings.{Severity, Source, NodeWarning, is_ok}
use node_debug_dashboard.Models.Storage.{DiskUsage}
use node_debug_dashboard.Models.Kubernetes.{
  K8sNodeInfo, K8sNodeCondition, CertificateInfo, K8sComponentStatus, EtcdStatus,
}
use node_debug_dashboard.Models.Talos.{TalosCertificateInfo}
use node_debug_dashboard.Warnings.Making.{plain, on_device, warn_if, show_some}

unfoldable pub disk_warnings : DiskUsage → List NodeWarning
disk_warnings usage = warn_if (not (is_ok usage.severity)) (
    on_device usage.severity Source.disk
      (usage.mount
        ++ lit ": "
        ++ show_nat usage.used_percent
        ++ lit "% used ("
        ++ usage.used
        ++ lit "/"
        ++ usage.size
        ++ lit ")")
      usage.filesystem)

abbrev pub last_part : List Text → Text
last_part [] = []
last_part (x ∷ []) = x
last_part (x ∷ y ∷ xs) = last_part (y ∷ xs)

abbrev pub talos_pki : Text
talos_pki = lit "/system/secrets/kubernetes/"

-- A Kubernetes certificate; those that the Talos collector lists too are left to it, if it ran.
unfoldable pub k8s_cert_warnings : Bool → CertificateInfo → List NodeWarning
k8s_cert_warnings talos_owns_pki cert =
    warn_if
      (not (talos_owns_pki && contains talos_pki cert.file_path)
        && not (is_ok cert.expiry_severity))
      (plain cert.expiry_severity Source.certificate (
        lit "K8s cert expires in "
        ++ show_some cert.days_until_expiry
        ++ lit "d: "
        ++ last_part (split_on b'/' cert.file_path)))

unfoldable pub talos_cert_warnings : TalosCertificateInfo → List NodeWarning
talos_cert_warnings cert = warn_if (not (is_ok cert.expiry_severity)) (
    plain cert.expiry_severity Source.certificate
      (lit "Talos cert expires in " ++ show_some cert.days_until_expiry ++ lit "d: " ++ cert.name))

unfoldable pub etcd_message : EtcdStatus → Text
etcd_message etcd =
    lit "etcd at "
    ++ show_tenths etcd.quota_used_percent
    ++ lit "% of its "
    ++ show_nat (round_tenths etcd.db_size_quota_mb)
    ++ lit "MB quota with only "
    ++ show_nat (round_tenths etcd.db_size_in_use_mb)
    ++ lit "MB in use — "
    ++ show_nat (round_tenths etcd.defrag_reclaimable_mb)
    ++ lit "MB reclaimable by defrag"

abbrev pub etcd_warnings_of : Option EtcdStatus → List NodeWarning
etcd_warnings_of none = []
etcd_warnings_of (some etcd) =
    warn_if (not (is_ok etcd.defrag_severity))
      (plain etcd.defrag_severity Source.etcd (etcd_message etcd))

unfoldable pub component_warnings : K8sComponentStatus → List NodeWarning
component_warnings component = etcd_warnings_of component.etcd_status

unfoldable pub is_pressure : Text → Bool
is_pressure type =
    text_eq type (lit "MemoryPressure")
    || text_eq type (lit "DiskPressure")
    || text_eq type (lit "PIDPressure")

unfoldable pub condition_warnings : K8sNodeCondition → List NodeWarning
unfolding is_pressure
condition_warnings cond =
    if text_eq cond.type (lit "Ready") && not (text_eq cond.status (lit "True"))
    then plain Severity.critical Source.kubernetes (lit "Node not Ready: " ++ cond.message) ∷ []
    else if is_pressure cond.type && text_eq cond.status (lit "True")
    then plain Severity.warning Source.kubernetes (cond.type ++ lit ": " ++ cond.message) ∷ []
    else []

abbrev pub conditions_of : Option K8sNodeInfo → List K8sNodeCondition
conditions_of none = []
conditions_of (some node) = node.conditions
