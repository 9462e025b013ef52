-- ===== src/Kubernetes/Cluster.antt =====
-- The node's own object and the nodes of the cluster, from the API server's JSON.
use node_debug_dashboard.Prelude.{
  ℕ, Bool, true, false, not, ◌&&◌, ◌||◌, Option, none, some, List, [], ◌∷◌, ◌++◌, ltb, ◌==◌,
  if◌then◌else◌, any, length, is_some, is_empty, Text, lit, text_eq, contains, Dict, str_eq, ◌>>=◌,
  traverse, sort_by, ◌≡◌, refl, arith,
}
use node_debug_dashboard.Json.{
  Json, Fields, text, list, dict, end, field, get, get_or, fields_of, is_text, items, keys,
  required_text,
}
use node_debug_dashboard.Models.Kubernetes.{
  K8sNodeCondition, K8sNodeAddress, K8sNodeResources, K8sNodeInfo, ClusterNode,
}
use node_debug_dashboard.Kubernetes.{text_field, dict_field, list_field, find}

-- `_parse_resources`
unfoldable pub parse_resources : Fields → Option K8sNodeResources
unfolding text_field lit
parse_resources fs = do
  cpu ← text_field (lit "cpu") fs
  memory ← text_field (lit "memory") fs
  ephemeral_storage ← text_field (lit "ephemeral-storage") fs
  pods ← text_field (lit "pods") fs
  gpu_nvidia ← text_field (lit "nvidia.com/gpu") fs
  some (record {
    cpu = cpu;
    memory = memory;
    ephemeral_storage = ephemeral_storage;
    pods = pods;
    gpu_nvidia = gpu_nvidia;
  })

unfoldable pub condition_of : Json → Option K8sNodeCondition
unfolding text_field lit
condition_of v = do
  fs ← fields_of v
  type ← text_field (lit "type") fs
  status ← text_field (lit "status") fs
  reason ← text_field (lit "reason") fs
  message ← text_field (lit "message") fs
  last_transition ← text_field (lit "lastTransitionTime") fs
  some (record {
    type = type;
    status = status;
    reason = reason;
    message = message;
    last_transition = last_transition;
  })

unfoldable pub address_of : Json → Option K8sNodeAddress
unfolding text_field lit
address_of v = do
  fs ← fields_of v
  type ← text_field (lit "type") fs
  address ← text_field (lit "address") fs
  some (record { type = type; address = address })

-- A field `dict[str, str]` of a model.
unfoldable pub labels_of : Fields → Option (Dict Text Text)
labels_of end = some []
labels_of (field k v fs) = do t ← required_text v; rest ← labels_of fs; some ((k, t) ∷ rest)

-- `len(v)`
abbrev len_of : Json → Option ℕ
len_of (text t) = some (length t)
len_of (list xs) = some (length (items xs))
len_of (dict fs) = some (length (keys fs))
len_of _ = none

abbrev pub no_resources : K8sNodeResources
no_resources = record { cpu = []; memory = []; ephemeral_storage = []; pods = []; gpu_nvidia = [] }

abbrev pub no_node_info : K8sNodeInfo
no_node_info = record {
  labels = [];
  annotations_count = 0;
  conditions = [];
  addresses = [];
  capacity = no_resources;
  allocatable = no_resources;
  kubelet_version = [];
  container_runtime = [];
  os_image = [];
  architecture = [];
}

unfoldable pub node_info_of : Json → Option K8sNodeInfo
unfolding dict_field list_field text_field get_or lit parse_resources condition_of address_of
    labels_of
node_info_of data_ = do
  fs ← fields_of data_
  metadata ← dict_field (lit "metadata") fs
  status ← dict_field (lit "status") fs
  node_info ← dict_field (lit "nodeInfo") status
  condition_items ← list_field (lit "conditions") status
  conditions ← traverse condition_of condition_items
  address_items ← list_field (lit "addresses") status
  addresses ← traverse address_of address_items
  capacity_fields ← dict_field (lit "capacity") status
  capacity ← parse_resources capacity_fields
  allocatable_fields ← dict_field (lit "allocatable") status
  allocatable ← parse_resources allocatable_fields
  label_fields ← dict_field (lit "labels") metadata
  labels ← labels_of label_fields
  annotations_count ← len_of (get_or (dict end) (lit "annotations") metadata)
  kubelet_version ← text_field (lit "kubeletVersion") node_info
  container_runtime ← text_field (lit "containerRuntimeVersion") node_info
  os_image ← text_field (lit "osImage") node_info
  architecture ← text_field (lit "architecture") node_info
  some (record {
    labels = labels;
    annotations_count = annotations_count;
    conditions = conditions;
    addresses = addresses;
    capacity = capacity;
    allocatable = allocatable;
    kubelet_version = kubelet_version;
    container_runtime = container_runtime;
    os_image = os_image;
    architecture = architecture;
  })

-- `collect_k8s_node_info`, with what the API server answered for the node's name.
unfoldable pub collect_k8s_node_info : Text → (Text → Option Json) → Option K8sNodeInfo
unfolding node_info_of lit
collect_k8s_node_info node_name k8s_get =
    if is_empty node_name
    then some no_node_info
    else elim (k8s_get (lit "/api/v1/nodes/" ++ node_name)) [
      | none ↦ some no_node_info
      | some data_ ↦ node_info_of data_
    ]

-- The first address of this type.
unfoldable pub internal_ip : List Json → Option Json
unfolding get_or lit text_eq
internal_ip [] = some (text [])
internal_ip (v ∷ vs) =
    let rest = internal_ip vs in
    do
      fs ← fields_of v
      elim (is_text (lit "InternalIP") (get (lit "type") fs)) [
        | true ↦ some (get_or (text []) (lit "address") fs)
        | false ↦ rest
      ]

abbrev says_ready : Fields → Bool
says_ready fs =
    is_text (lit "Ready") (get (lit "type") fs) && is_text (lit "True") (get (lit "status") fs)

unfoldable pub is_ready : List Json → Option Bool
unfolding get_or lit text_eq
is_ready [] = some false
is_ready (v ∷ vs) =
    let rest = is_ready vs in
    do fs ← fields_of v; elim (says_ready fs) [ true ↦ some true | false ↦ rest ]

-- `key in labels`
unfoldable pub has_key : Text → Json → Option Bool
unfolding find contains text_eq
has_key key (dict fs) = some (is_some (find key fs))
has_key key (list xs) = some (any (is_text key) (items xs))
has_key key (text t) = some (contains key t)
has_key key _ = none

abbrev role_of : Bool → Text
role_of true = lit "control-plane"
role_of false = lit "worker"

unfoldable pub cluster_node_of : Text → Json → Option ClusterNode
unfolding dict_field list_field text_field get_or lit internal_ip is_ready has_key text_eq
cluster_node_of current_node item = do
  fs ← fields_of item
  metadata ← dict_field (lit "metadata") fs
  status ← dict_field (lit "status") fs
  name ← text_field (lit "name") metadata
  address_items ← list_field (lit "addresses") status
  found ← internal_ip address_items
  ip ← required_text found
  control ←
      has_key (lit "node-role.kubernetes.io/control-plane")
        (get_or (dict end) (lit "labels") metadata)
  condition_items ← list_field (lit "conditions") status
  ready ← is_ready condition_items
  some (record {
    name = name;
    ip = ip;
    role = role_of control;
    ready = ready;
    current = text_eq name current_node;
  })

-- `a < b` of texts, by code points.
unfoldable pub text_lt : Text → Text → Bool
text_lt [] [] = false
text_lt [] (d ∷ t) = true
text_lt (c ∷ s) [] = false
text_lt (c ∷ s) (d ∷ t) = ltb c d || (c == d && text_lt s t)

-- The order of texts is strict, and being no smaller is transitive.
pub text_lt_asym : (s t : Text) → text_lt s t ≡ true → text_lt t s ≡ false
unfolding text_lt
text_lt_asym [] [] h = refl
text_lt_asym [] (d ∷ t) h = refl
text_lt_asym (c ∷ s) [] h = cc
text_lt_asym (c ∷ s) (d ∷ t) h = ground (arith, h, text_lt_asym s t)

pub text_lt_connected :
    (s t u : Text) → text_lt t s ≡ false → text_lt u t ≡ false → text_lt u s ≡ false
unfolding text_lt
text_lt_connected [] t [] h k = refl
text_lt_connected [] t (e ∷ u) h k = refl
text_lt_connected (c ∷ s) [] u h k = cc
text_lt_connected (c ∷ s) (d ∷ t) [] h k = cc
text_lt_connected (c ∷ s) (d ∷ t) (e ∷ u) h k = ground (arith, h, k, text_lt_connected s t u)

-- `(n.role != "control-plane", n.name)`
unfoldable pub node_lt : ClusterNode → ClusterNode → Bool
unfolding text_lt text_eq lit
node_lt a b =
    let first = text_eq a.role (lit "control-plane") in
    let second = text_eq b.role (lit "control-plane") in
    (first && not second) || ((first && second || not first && not second) && text_lt a.name b.name)

-- `collect_cluster_nodes`, with what the API server answered.
unfoldable pub collect_cluster_nodes : Text → Option Json → Option (List ClusterNode)
unfolding list_field cluster_node_of node_lt sort_by lit
collect_cluster_nodes current_node none = some []
collect_cluster_nodes current_node (some data_) = do
  fs ← fields_of data_
  values ← list_field (lit "items") fs
  nodes ← traverse (cluster_node_of current_node) values
  some (sort_by node_lt nodes)
