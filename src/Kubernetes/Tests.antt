-- ===== src/Kubernetes/Tests.antt =====
-- A control-plane node without a CA file and with one, and etcd close to its quota.
use node_debug_dashboard.Prelude.{
  ◌≡◌, refl, true, false, none, some, List, [], ◌∷◌, Text, lit, text_eq, strip, lstrip, rstrip,
  starts_with, contains, is_space, lower_char, parse_int, read_unsigned, read_more,
  starts_with_digit, show_int, show_nat, show_from, inl, inr, put, lookup, sort_by, insert_by, pos,
  negsuc, ℕ,
}
use node_debug_dashboard.Json.{
  Items, Json, Fields, text, list, dict, nil, cons, end, field, get_or, truthy, iterate, repr,
  repr_text, repr_char,
}
use node_debug_dashboard.Models.Warnings.{critical}
use node_debug_dashboard.Models.Kubernetes.{EtcdStatus, ClusterNode}
use node_debug_dashboard.Http.{
  trusted, call, run_calls, cert_client, shared_client, is_closed, install, open_client, replace,
  unverified,
}
use node_debug_dashboard.Kubernetes.{
  text_field, dict_field, list_field, find, int_of, first_key, first_int,
}
use node_debug_dashboard.Kubernetes.Etcd.{
  round_div, defrag_level, first_nat, id_text, sizes, sized, raft_term_of, with_raft,
  parse_etcd_status,
}
use node_debug_dashboard.Kubernetes.Defrag.{parse_etcd_status-IsDefrag, IsDefrag}
use node_debug_dashboard.Kubernetes.Cluster.{
  internal_ip, is_ready, has_key, cluster_node_of, text_lt, node_lt, collect_cluster_nodes,
}
use node_debug_dashboard.Kubernetes.Requests.{
  bearer, kubernetes_api_base, Clients, Request, Files, clients_after, k8s_request, probe_request,
  endpoint_request,
}
use node_debug_dashboard.Kubernetes.Probes.{
  component_urls, health_of, probe, collect_k8s_components,
}
use node_debug_dashboard.Prelude.{
  words, starts_word, push_char, split_on, cut, is_digits, read_digits,
}
use node_debug_dashboard.Dmesg.Scan.{splitlines}
use node_debug_dashboard.Dmesg.Stamps.{
  days_in_month, days_before_month, days_before_year, micros, is_valid, local_seconds, utc_seconds,
  instant,
}
use node_debug_dashboard.Kubernetes.Certificates.{
  drop_prefix, add_plain, add_printed, read_printed, month_of, stamp_of, expiry_of, days_until,
  expiry_severity_of, days_left, certificate_of, set_of, collect_k8s_certificates,
}
use node_debug_dashboard.Kubernetes.Secrecy.{token-verified}

program : Unit {0}
unfolding lit text_eq strip lstrip rstrip starts_with contains is_space lower_char parse_int
    read_unsigned read_more starts_with_digit show_int show_nat show_from put lookup sort_by
    insert_by get_or truthy iterate repr repr_text repr_char call run_calls cert_client
    shared_client is_closed install open_client replace text_field dict_field list_field find int_of
    first_key first_int round_div defrag_level first_nat id_text sizes sized raft_term_of with_raft
    parse_etcd_status internal_ip is_ready has_key cluster_node_of text_lt node_lt
    collect_cluster_nodes bearer kubernetes_api_base clients_after k8s_request probe_request
    endpoint_request component_urls health_of probe collect_k8s_components splitlines days_in_month
    days_before_month days_before_year micros is_valid local_seconds utc_seconds instant drop_prefix
    add_plain add_printed read_printed month_of stamp_of expiry_of days_until expiry_severity_of
    days_left certificate_of set_of collect_k8s_certificates words starts_word push_char split_on
    cut is_digits read_digits
program = tt

abbrev obj : List (Text × Json) → Fields
obj [] = end
obj ((k, v) ∷ rest) = field k v (obj rest)

-- Numbers as texts, and no quota: 1.7 GB of the default 2 GiB are used.
abbrev status : Json
status = dict (
    obj (
      (lit "header", dict (obj ((lit "member_id", text (lit "42")) ∷ [])))
      ∷ (lit "dbSize", text (lit "1717986919"))
      ∷ (lit "dbSizeInUse", text (lit "104857600"))
      ∷ (lit "leader", text (lit "42"))
      ∷ (lit "raftTerm", text (lit "7"))
      ∷ []))

abbrev parsed : EtcdStatus
parsed = record {
  healthy = true;
  db_size_mb = 16384;
  db_size_in_use_mb = 1000;
  db_size_quota_mb = 20480;
  quota_assumed = true;
  quota_used_percent = 800;
  defrag_reclaimable_mb = 15384;
  defrag_severity = critical;
  version = [];
  leader_id = lit "42";
  member_id = lit "42";
  is_leader = true;
  raft_index = 0;
  raft_term = 7;
  raft_applied_index = 0;
  members = [];
}

near_quota : parse_etcd_status status ≡ some parsed
unfolding program
near_quota = refl

parse_etcd_status-IsDefrag_example : IsDefrag parsed (1_717_986_919, 104_857_600, 0)
unfolding program
parse_etcd_status-IsDefrag_example =
    parse_etcd_status-IsDefrag status parsed (1_717_986_919, 104_857_600, 0) near_quota refl

-- The certificate file was changed at time 3; the context is a number.
abbrev files : Files ℕ
files = record {
  ca = some (3 ∷ []);
  context = some 5;
  local_context = some 6;
  etcd_certs = none;
  etcd_context = none;
}

abbrev clients : Clients ℕ
clients = clients_after (λ key. []) files

abbrev api_probe : Request ℕ
api_probe = record {
  client = record { id = 0; verify = trusted 6 };
  url = lit "https://localhost:6443/healthz";
  headers = bearer (lit "t0");
}

token-verified_example : (context : ℕ) × (api_probe.client.verify ≡ trusted context)
unfolding program
token-verified_example =
    token-verified (λ key. []) files (lit "https://10.0.0.1:443") (lit "t0") (lit "/api/v1/nodes")
      (lit "kube-apiserver") (lit "https://localhost:6443/healthz") api_probe (inr (inl refl))
      (λ e. cc)

-- Without a CA the API server is probed without the token.
no_ca :
    probe_request
      (clients_after (λ key. []) (record files { ca = none }))
      (lit "t0")
      (lit "kube-apiserver")
      (lit "https://localhost:6443/healthz")
    ≡ some (record {
      client = record { id = 0; verify = unverified };
      url = lit "https://localhost:6443/healthz";
      headers = [];
    })
unfolding program
no_ca = refl

address : kubernetes_api_base (lit "fd00::1") [] ≡ lit "https://[fd00::1]:443"
unfolding program
address = refl

answers :
    (health_of (lit " OK\n") ≡ (lit "Healthy", true))
    × (health_of (lit "[+]ping ok") ≡ (lit "Unhealthy", false))
    × (health_of (lit " ") ≡ (lit "Unknown", false))
unfolding program
answers = (refl, refl, refl)

abbrev node : Text → List (Text × Json) → Json
node name labels = dict (
    obj (
      (
        lit "metadata",
        dict (obj ((lit "name", text name) ∷ (lit "labels", dict (obj labels)) ∷ [])),
      )
      ∷ []))

abbrev bare : Text → Text → ClusterNode
bare name role = record { name = name; ip = []; role = role; ready = false; current = false }

-- Two workers and a node of the control plane.
abbrev node_items : Items
node_items = cons (node (lit "c") []) (
    cons (node (lit "b") [])
      (cons (node (lit "z") ((lit "node-role.kubernetes.io/control-plane", text []) ∷ [])) nil))

abbrev node_list : Json
node_list = dict (obj ((lit "items", list node_items) ∷ []))

abbrev cluster : List ClusterNode
cluster =
    bare (lit "z") (lit "control-plane")
    ∷ record (bare (lit "b") (lit "worker")) { current = true }
    ∷ bare (lit "c") (lit "worker")
    ∷ []

-- Thirty days and a second before the expiry, and a day later.
epoch :
    (expiry_of (lit "Jan  1 00:00:00 1970 GMT") ≡ some 62_135_683_200_000_000)
    × (days_left (lit "Jan  1 00:00:00 1970 GMT") 62_133_091_199_000_000 ≡ some (pos 30))
    × (days_left (lit "Jan  1 00:00:00 1970 GMT") 62_135_683_200_000_001 ≡ some (negsuc 0))
    × (days_left (lit "Feb 30 00:00:00 2026 GMT") 5 ≡ none)
unfolding program
epoch = (refl, refl, refl, refl)

expiring :
    collect_k8s_certificates
      ((lit "/pki/a.crt" ∷ []) ∷ (lit "/pki/a.crt" ∷ []) ∷ [])
      (λ path. record {
        stdout =
            lit
              "subject=CN = a\nnotAfter=Jan  1 00:00:00 1970 GMT\nsha256 Fingerprint=AB:CD\nserial=07\n";
        stderr = [];
        rc = pos 0;
      })
      (λ path. 62_133_177_600_000_000)
    ≡ record {
      file_path = lit "/pki/a.crt";
      subject = lit "CN = a";
      issuer = [];
      not_before = [];
      not_after = lit "Jan  1 00:00:00 1970 GMT";
      serial_number = lit "07";
      sha256_fingerprint = lit "AB:CD";
      days_until_expiry = some (pos 29);
      expiry_severity = critical;
    }
      ∷ []
unfolding program
expiring = refl
