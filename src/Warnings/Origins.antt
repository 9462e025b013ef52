-- ===== src/Warnings/Origins.antt =====
-- Each part of the endpoint's list has warnings of one source only.
use mathlib.Core.Path.{subst}
use node_debug_dashboard.Prelude.{
  ℕ, ◌≡◌, ◌⊎◌, inl, inr, refl, Bool, true, false, Option, none, some, List, [], ◌∷◌, ◌++◌, map,
  ◌==◌, keep, keep-All, keep-none, All, All-append, All-implies, All-concat_map, concat_map, arith,
  Text, Bool-cases, ==_iff, if◌then◌else◌,
}
use node_debug_dashboard.Models.Warnings.{Severity, Source, NodeWarning}
use node_debug_dashboard.Models.Storage.{SmartHealth, DiskUsage}
use node_debug_dashboard.Models.Hardware.{MemoryInfo, NicInfo, SensorReading}
use node_debug_dashboard.Models.Kubernetes.{
  K8sNodeCondition, CertificateInfo, K8sComponentStatus, EtcdStatus,
}
use node_debug_dashboard.Models.Talos.{TalosCertificateInfo}
use node_debug_dashboard.Warnings.{
  warn_if, failed_warning, namespace_warnings, smart_warnings, issue_warning, sensor_warnings,
  CounterKey, Counters, counter_warning, memory_warnings, nic_warnings, network_warnings,
  disk_warnings, k8s_cert_warnings, talos_cert_warnings, component_warnings, etcd_warnings_of,
  condition_warnings, counter_severity,
}

-- The sources are told apart by a number.
abbrev pub source_code : Source → ℕ
source_code Source.smart = 0
source_code Source.temperature = 1
source_code Source.memory = 2
source_code Source.network = 3
source_code Source.disk = 4
source_code Source.cpu = 5
source_code Source.pcie = 6
source_code Source.certificate = 7
source_code Source.etcd = 8
source_code Source.kubernetes = 9
source_code Source.dashboard = 10

abbrev pub has_source : Source → NodeWarning → Bool
has_source s w = source_code w.source == source_code s

-- The warnings of one source.
abbrev pub of_source : Source → List NodeWarning → List NodeWarning
of_source s = keep (has_source s)

abbrev pub From : Source → List NodeWarning → Type 0
From s ws = All (λ w. source_code w.source ≡ source_code s) ws

pub From-warn_if :
    (b : Bool) (w : NodeWarning) (s : Source)
    → source_code w.source ≡ source_code s
    → From s (warn_if b w)
From-warn_if true w s h = (h, tt)
From-warn_if false w s h = tt

pub From-map_issue :
    (device : Text) (issues : List Text) → From Source.smart (map (issue_warning device) issues)
unfolding issue_warning
From-map_issue device [] = tt
From-map_issue device (i ∷ issues) = (refl, From-map_issue device issues)

pub From-map_failed : (names : List Text) → From Source.dashboard (map failed_warning names)
unfolding failed_warning
From-map_failed [] = tt
From-map_failed (n ∷ names) = (refl, From-map_failed names)

ruleset from_rules = (From-warn_if, From-map_issue, All-append)

pub From-smart : (s : SmartHealth) → From Source.smart (smart_warnings s)
unfolding smart_warnings
From-smart s = search from_rules depth 12

pub From-sensor : (s : SensorReading) → From Source.temperature (sensor_warnings s)
unfolding sensor_warnings
From-sensor s = From-warn_if _ _ Source.temperature refl

pub From-namespace : (b : Bool) → From Source.dashboard (namespace_warnings b)
unfolding namespace_warnings
From-namespace b = From-warn_if _ _ Source.dashboard refl

pub From-counter :
    (key : CounterKey) (value : ℕ) (severity : Severity) (warning : Severity → NodeWarning)
    (now : ℕ) (counters : Counters) (s : Source)
    → ((v : Severity) → source_code (warning v).source ≡ source_code s)
    → From s (counter_warning key value severity warning now counters).1
unfolding counter_warning
From-counter key value severity warning now counters s h =
    by_severity (counter_severity key value severity now counters).1
  where
    by_severity : (o : Option Severity) → From s (elim o [ none ↦ [] | some v ↦ warning v ∷ [] ])
    by_severity none = tt
    by_severity (some v) = (h v, tt)

-- `From` of an append, with its parts written.
pub From-append :
    (s : Source) (xs ys : List NodeWarning) → From s xs → From s ys → From s (xs ++ ys)
From-append s = All-append (λ (w : NodeWarning). source_code w.source ≡ source_code s)

pub From-memory :
    (o : Option MemoryInfo) (now : ℕ) (c : Counters)
    → From Source.memory (memory_warnings o now c).1
unfolding memory_warnings
From-memory none now c = tt
From-memory (some mem) now c =
    From-append Source.memory _ _ (From-counter _ _ _ _ now _ Source.memory (λ v. refl))
      (From-counter _ _ _ _ now _ Source.memory (λ v. refl))

pub From-nic :
    (nic : NicInfo) (now : ℕ) (c : Counters) → From Source.network (nic_warnings nic now c).1
unfolding nic_warnings
From-nic nic now c =
    From-append Source.network _ _ (From-counter _ _ _ _ now _ Source.network (λ v. refl))
      (From-counter _ _ _ _ now _ Source.network (λ v. refl))

pub From-network :
    (nics : List NicInfo) (now : ℕ) (c : Counters)
    → From Source.network (network_warnings nics now c).1
unfolding network_warnings
From-network [] now c = tt
From-network (nic ∷ nics) now c =
    From-append Source.network _ _ (From-nic nic now c) (From-network nics now _)

pub From-disk : (u : DiskUsage) → From Source.disk (disk_warnings u)
unfolding disk_warnings
From-disk u = From-warn_if _ _ Source.disk refl

pub From-k8s_cert :
    (b : Bool) (c : CertificateInfo) → From Source.certificate (k8s_cert_warnings b c)
unfolding k8s_cert_warnings
From-k8s_cert b c = From-warn_if _ _ Source.certificate refl

pub From-talos_cert : (c : TalosCertificateInfo) → From Source.certificate (talos_cert_warnings c)
unfolding talos_cert_warnings
From-talos_cert c = From-warn_if _ _ Source.certificate refl

pub From-etcd : (o : Option EtcdStatus) → From Source.etcd (etcd_warnings_of o)
From-etcd none = tt
From-etcd (some etcd) = From-warn_if _ _ Source.etcd refl

pub From-component : (c : K8sComponentStatus) → From Source.etcd (component_warnings c)
unfolding component_warnings
From-component c = From-etcd c.etcd_status

pub From-condition : (c : K8sNodeCondition) → From Source.kubernetes (condition_warnings c)
unfolding condition_warnings
From-condition c = ground arith

pub From-all :
    {A : Type 0} (s : Source) (f : A → List NodeWarning) (xs : List A)
    → ((x : A) → From s (f x))
    → From s (concat_map f xs)
From-all s = All-concat_map (λ (w : NodeWarning). source_code w.source ≡ source_code s)

-- The sources that the rules for the kernel log use.
abbrev pub IsKernelSource : Source → Type 0
IsKernelSource s =
    ((source_code s ≡ 2) ⊎ (source_code s ≡ 5)) ⊎ ((source_code s ≡ 4) ⊎ (source_code s ≡ 6))

pub of_source-kernel :
    (s : Source) (ws : List NodeWarning)
    → All (λ w. IsKernelSource w.source) ws
    → ¬ (IsKernelSource s)
    → of_source s ws ≡ []
of_source-kernel s ws h no_kernel =
    keep-none (has_source s) ws (All-implies ws (λ w e. other w e) h)
  where
    other : (w : NodeWarning) → IsKernelSource w.source → has_source s w ≡ false
    other w e = elim (Bool-cases (has_source s w)) [
      | inl same ↦ absurd (
          no_kernel
            (subst (λ n. ((n ≡ 2) ⊎ (n ≡ 5)) ⊎ ((n ≡ 4) ⊎ (n ≡ 6))) ((==_iff _ _).0 same) e))
      | inr differ ↦ differ
    ]

-- A list of one source, under the filter of another one or of its own.
pub of_source-From :
    (s t : Source) (ws : List NodeWarning)
    → From t ws
    → of_source s ws ≡ (if source_code t == source_code s then ws else [])
of_source-From s t ws h = elim (Bool-cases (source_code t == source_code s)) [
  | inl same ↦ rw same (
      keep-All (has_source s) ws (
        All-implies ws (λ w e. ground (arith, e, (==_iff (source_code t) (source_code s)).0 same))
          h))
  | inr differ ↦
      rw differ (keep-none (has_source s) ws (All-implies ws (λ w e. ground (arith, e)) h))
]
