-- ===== src/Warnings/Assembly.antt =====
-- The list that the endpoint returns, split by source: each subsystem's warnings are there whatever
-- the other subsystems reported, and whether or not they failed.
use mathlib.Core.List.{append-nil, append_assoc}
use node_debug_dashboard.Prelude.{
  ℕ, ◌≡◌, Bool, List, [], ◌++◌, map, keep-append, All, concat_map, or_else, is_some, arith, ◌==◌,
  if◌then◌else◌, ◌∙◌,
}
use node_debug_dashboard.Models.Warnings.{Source, NodeWarning}
use node_debug_dashboard.Warnings.{
  failed_warning, failed_names, namespace_warnings, smart_warnings, sensor_warnings, Counters,
  memory_warnings, network_warnings, disk_warnings, k8s_cert_warnings, talos_cert_warnings,
  component_warnings, condition_warnings, conditions_of, Gathered, get_warnings, early_warnings,
  later_warnings,
}
use node_debug_dashboard.Warnings.Failures.{talos_owns_pki-is_some}
use node_debug_dashboard.Warnings.Origins.{
  source_code, of_source, IsKernelSource, of_source-From, of_source-kernel, From-map_failed,
  From-namespace, From-all, From-append, From-smart, From-sensor, From-memory, From-network,
  From-disk, From-k8s_cert, From-talos_cert, From-component, From-condition,
}

module _ (hostnet : Bool) (now : ℕ) (r : Gathered) (counters : Counters) where
  abbrev smart : List NodeWarning
  smart = concat_map smart_warnings (or_else r.smart [])

  abbrev sensors : List NodeWarning
  sensors = concat_map sensor_warnings (or_else r.sensors [])

  abbrev memory : List NodeWarning
  memory = (memory_warnings r.memory now counters).1

  abbrev network : List NodeWarning
  network = (network_warnings (or_else r.nics []) now (memory_warnings r.memory now counters).0).1

  abbrev disks : List NodeWarning
  disks = concat_map disk_warnings (or_else r.disk_usage [])

  abbrev k8s_certs : List NodeWarning
  k8s_certs = concat_map (k8s_cert_warnings (is_some r.talos_certs)) (or_else r.k8s_certs [])

  abbrev talos_certs : List NodeWarning
  talos_certs = concat_map talos_cert_warnings (or_else r.talos_certs [])

  abbrev etcd : List NodeWarning
  etcd = concat_map component_warnings (or_else r.components [])

  abbrev conditions : List NodeWarning
  conditions = concat_map condition_warnings (conditions_of r.k8s_node)

  abbrev dashboard : List NodeWarning
  dashboard = map failed_warning (failed_names r) ++ namespace_warnings hostnet

  -- The parts of the list, each under the filter.
  split :
      (s : Source)
      → of_source s (get_warnings hostnet now r counters).1
        ≡ of_source s dashboard
          ++ of_source s (or_else r.dmesg [])
          ++ of_source s smart
          ++ of_source s sensors
          ++ of_source s memory
          ++ of_source s network
          ++ of_source s disks
          ++ of_source s k8s_certs
          ++ of_source s talos_certs
          ++ of_source s etcd
          ++ of_source s conditions
  unfolding get_warnings early_warnings later_warnings
  split s = rw (talos_owns_pki-is_some r) (simp (keep-append, append_assoc))

  abbrev when : Source → Source → List NodeWarning → List NodeWarning
  when s t ws = if source_code t == source_code s then ws else []

  filtered :
      (s : Source)
      → of_source s (or_else r.dmesg []) ≡ []
      → of_source s (get_warnings hostnet now r counters).1
        ≡ when s Source.dashboard dashboard
          ++ []
          ++ when s Source.smart smart
          ++ when s Source.temperature sensors
          ++ when s Source.memory memory
          ++ when s Source.network network
          ++ when s Source.disk disks
          ++ when s Source.certificate k8s_certs
          ++ when s Source.certificate talos_certs
          ++ when s Source.etcd etcd
          ++ when s Source.kubernetes conditions
  filtered s log =
      split s
      ∙ cc (
        log,
        of_source-From s Source.dashboard dashboard (
            From-append Source.dashboard _ _ (From-map_failed (failed_names r))
              (From-namespace hostnet)),
        of_source-From s Source.smart smart
            (From-all Source.smart smart_warnings (or_else r.smart []) From-smart),
        of_source-From s Source.temperature sensors
            (From-all Source.temperature sensor_warnings (or_else r.sensors []) From-sensor),
        of_source-From s Source.memory memory (From-memory r.memory now counters),
        of_source-From s Source.network network
            (From-network (or_else r.nics []) now (memory_warnings r.memory now counters).0),
        of_source-From s Source.disk disks
            (From-all Source.disk disk_warnings (or_else r.disk_usage []) From-disk),
        of_source-From s Source.certificate k8s_certs (
            From-all Source.certificate (k8s_cert_warnings (is_some r.talos_certs))
              (or_else r.k8s_certs []) (From-k8s_cert (is_some r.talos_certs))),
        of_source-From s Source.certificate talos_certs (
            From-all Source.certificate talos_cert_warnings (or_else r.talos_certs [])
              From-talos_cert),
        of_source-From s Source.etcd etcd
            (From-all Source.etcd component_warnings (or_else r.components []) From-component),
        of_source-From s Source.kubernetes conditions (
            From-all Source.kubernetes condition_warnings (conditions_of r.k8s_node)
              From-condition),
      )

  -- If the kernel log reports only what its rules name, then the warnings of each of these sources
  -- are exactly those of its own collector, in order: drives, sensors, interfaces, certificates,
  -- etcd and node conditions. The interfaces read the table of counters after the memory, and the
  -- Kubernetes certificates depend on whether the Talos collector failed.
  pub get_warnings-by_source :
      All (λ w. IsKernelSource w.source) (or_else r.dmesg [])
      → (of_source Source.smart (get_warnings hostnet now r counters).1
          ≡ concat_map smart_warnings (or_else r.smart []))
        × (of_source Source.temperature (get_warnings hostnet now r counters).1
            ≡ concat_map sensor_warnings (or_else r.sensors []))
        × (of_source Source.network (get_warnings hostnet now r counters).1
            ≡ (network_warnings
                (or_else r.nics [])
                now
                (memory_warnings r.memory now counters).0).1)
        × (of_source Source.certificate (get_warnings hostnet now r counters).1
            ≡ concat_map (k8s_cert_warnings (is_some r.talos_certs)) (or_else r.k8s_certs [])
              ++ concat_map talos_cert_warnings (or_else r.talos_certs []))
        × (of_source Source.etcd (get_warnings hostnet now r counters).1
            ≡ concat_map component_warnings (or_else r.components []))
        × (of_source Source.kubernetes (get_warnings hostnet now r counters).1
            ≡ concat_map condition_warnings (conditions_of r.k8s_node))
  get_warnings-by_source log = (
    filtered Source.smart (drop Source.smart (omega arith)) ∙ simp append-nil,
    filtered Source.temperature (drop Source.temperature (omega arith)) ∙ simp append-nil,
    filtered Source.network (drop Source.network (omega arith)) ∙ simp append-nil,
    filtered Source.certificate (drop Source.certificate (omega arith)) ∙ simp append-nil,
    filtered Source.etcd (drop Source.etcd (omega arith)) ∙ simp append-nil,
    filtered Source.kubernetes (drop Source.kubernetes (omega arith)),
  )
    where
      drop : (s : Source) → ¬ (IsKernelSource s) → of_source s (or_else r.dmesg []) ≡ []
      drop s other = of_source-kernel s (or_else r.dmesg []) log other

  -- If the kernel log reports only what its rules name, each collector that failed is reported
  -- exactly once, in order, before the remark on the network namespace; nothing else is reported
  -- under the dashboard's own name.
  pub get_warnings-failures :
      All (λ w. IsKernelSource w.source) (or_else r.dmesg [])
      → of_source Source.dashboard (get_warnings hostnet now r counters).1
        ≡ map failed_warning (failed_names r) ++ namespace_warnings hostnet
  get_warnings-failures log =
      filtered Source.dashboard
        (of_source-kernel Source.dashboard (or_else r.dmesg []) log (omega arith))
      ∙ simp append-nil
