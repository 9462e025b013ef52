-- ===== src/Kubernetes/Probes.antt =====
-- What the answers of the API server, of the components and of etcd say. What a client answers is an
-- argument: a response or its body, or nothing where httpx raises.
use node_debug_dashboard.Prelude.{
  ℕ, Bool, true, false, not, ◌&&◌, ◌||◌, Option, none, some, List, [], ◌∷◌, map, ltb, leb, ◌==◌,
  if◌then◌else◌, is_empty, Text, lit, text_eq, strip, lower, lower_char, contains, ◌>>=◌, traverse,
}
use node_debug_dashboard.Json.{Json, text, list, nil, get_or, fields_of, truthy, str_of, repr}
use node_debug_dashboard.Models.Warnings.{ok}
use node_debug_dashboard.Models.Kubernetes.{
  EtcdMember, EtcdStatus, K8sComponentStatus, K8sApiEndpoint,
}
use node_debug_dashboard.Kubernetes.{list_field}
use node_debug_dashboard.Kubernetes.Etcd.{parse_etcd_status}
use node_debug_dashboard.Kubernetes.Requests.{
  kubernetes_api_base, Clients, Request, k8s_request, probe_request, endpoint_request,
}

-- The components and where they answer.
unfoldable pub component_urls : List (Text × Text)
unfolding lit
component_urls =
    (lit "kubelet", lit "http://localhost:10248/healthz")
    ∷ (lit "kube-apiserver", lit "https://localhost:6443/healthz")
    ∷ (lit "kube-scheduler", lit "https://localhost:10259/healthz")
    ∷ (lit "kube-controller-manager", lit "https://localhost:10257/healthz")
    ∷ (lit "etcd", lit "https://localhost:2379/health")
    ∷ (lit "kube-proxy", lit "http://localhost:10249/healthz")
    ∷ []

-- What the body of an answer says of a component, and whether it runs.
unfoldable pub health_of : Text → Text × Bool
unfolding strip lit text_eq lower_char contains
health_of answer =
    if is_empty (strip answer)
    then (lit "Unknown", false)
    else if text_eq (lower (strip answer)) (lit "ok")
        || contains (lit "\"health\":\"true\"") (lower answer)
    then (lit "Healthy", true)
    else (lit "Unhealthy", false)

abbrev pub component : Text → Bool → Text → Option EtcdStatus → K8sComponentStatus
component name running health_status etcd_status = record {
  name = name;
  running = running;
  health_status = health_status;
  container_id = [];
  uptime = [];
  etcd_status = etcd_status;
}

abbrev body_of : {C : Type 0} → (Request C → Option Text) → Option (Request C) → Text
body_of respond none = []
body_of respond (some request) = elim (respond request) [ none ↦ [] | some answer ↦ answer ]

-- `probe`; etcd's status is asked for only while it runs.
unfoldable pub probe :
    {C : Type 0}
    → Clients C
    → (Request C → Option Text)
    → EtcdStatus
    → Text
    → Text × Text
    → K8sComponentStatus
unfolding probe_request health_of lit text_eq
probe clients respond etcd token (name, url) =
    let (health_status, running) =
      health_of (body_of respond (probe_request clients token name url)) in
    component name running health_status
      (if text_eq name (lit "etcd") && running then some etcd else none)

-- `collect_k8s_components`
unfoldable pub collect_k8s_components :
    {C : Type 0}
    → Bool
    → Clients C
    → (Request C → Option Text)
    → EtcdStatus
    → Text
    → List K8sComponentStatus
unfolding component_urls probe lit
collect_k8s_components in_host_network clients respond etcd token =
    if not in_host_network
    then map (λ (name, url). component name false (lit "Unavailable") none) component_urls
    else map (probe clients respond etcd token) component_urls

-- A response by its status code and its body.
pub record HttpAnswer : Type 0 where
  pub status_code : ℕ
  pub answer : Text

-- What the answer of `/healthz` says of the API server.
unfoldable pub is_healthy : Option HttpAnswer → Bool
unfolding strip lit text_eq lower_char
is_healthy none = false
is_healthy (some r) = r.status_code == 200 && text_eq (lower (strip r.answer)) (lit "ok")

abbrev ask : {C : Type 0} → (Request C → Option HttpAnswer) → Option (Request C) → Option HttpAnswer
ask respond none = none
ask respond (some request) = respond request

-- `collect_k8s_api_endpoint`, from the settings of the environment.
unfoldable pub collect_k8s_api_endpoint :
    {C : Type 0} → Text → Text → Clients C → Text → (Request C → Option HttpAnswer) → K8sApiEndpoint
unfolding kubernetes_api_base endpoint_request is_healthy
collect_k8s_api_endpoint host port clients token respond =
    if is_empty host then record { url = []; healthy = false } else record {
      url = kubernetes_api_base host port;
      healthy =
          is_healthy (ask respond (endpoint_request clients (kubernetes_api_base host port) token));
    }

-- `_k8s_get`: the JSON of an answer that is no error.
unfoldable pub k8s_get :
    {C : Type 0}
    → Clients C
    → Text
    → Text
    → Text
    → (Request C → Option HttpAnswer)
    → (Text → Option Json)
    → Option Json
unfolding k8s_request
k8s_get clients base token path respond loads = do
  request ← k8s_request clients base token path
  response ← respond request
  elim (leb 200 response.status_code && ltb response.status_code 300) [
    | true ↦ loads response.answer
    | false ↦ none
  ]

abbrev no_etcd : EtcdStatus
no_etcd = record {
  healthy = false;
  db_size_mb = 0;
  db_size_in_use_mb = 0;
  db_size_quota_mb = 0;
  quota_assumed = false;
  quota_used_percent = 0;
  defrag_reclaimable_mb = 0;
  defrag_severity = ok;
  version = [];
  leader_id = [];
  member_id = [];
  is_leader = false;
  raft_index = 0;
  raft_term = 0;
  raft_applied_index = 0;
  members = [];
}

unfoldable pub member_of : Json → Option EtcdMember
unfolding get_or lit repr
member_of v = do
  fs ← fields_of v
  some (record {
    id = str_of (get_or (text []) (lit "ID") fs);
    name = get_or (text []) (lit "name") fs;
    peer_urls = get_or (list nil) (lit "peerURLs") fs;
    client_urls = get_or (list nil) (lit "clientURLs") fs;
  })

abbrev status_from : Option Json → Option EtcdStatus
status_from none = some no_etcd
status_from (some v) = if truthy v then parse_etcd_status v else some no_etcd

unfoldable pub members_from : Option Json → Option (List EtcdMember)
unfolding list_field lit truthy member_of
members_from none = some []
members_from (some v) = elim (truthy v) [
  | false ↦ some []
  | true ↦ do fs ← fields_of v; values ← list_field (lit "members") fs; traverse member_of values
]

-- `_collect_etcd_status`, from the answers of the two endpoints. The exceptions that come up in
-- `_parse_etcd_status` are not those that it catches.
unfoldable pub collect_etcd_status : Option Json → Option Json → Option EtcdStatus
unfolding parse_etcd_status truthy members_from
collect_etcd_status status_data members_data = do
  status ← status_from status_data
  members ← members_from members_data
  some (record status { members = members })
