-- ===== src/Containers.antt =====
-- app/collectors/containers.py: the containers of the node, as `crictl` lists them, in two lists. What
-- the commands printed is an argument, as the value that `json.loads` made of it, and so is the clock, in
-- nanoseconds. Ids that are no texts are outside the model: they give no result.
pub mod Partition
pub mod Logs
mod Tests
mod Words
unfoldable pub use Words.*
use node_debug_dashboard.Prelude.{
  ℕ, ◌+◌, ◌-◌, ◌*◌, ◌/◌, ◌%◌, Bool, true, false, not, ◌&&◌, ◌||◌, Option, none, some, List, [], ◌∷◌,
  ◌++◌, map, ltb, leb, ◌==◌, if◌then◌else◌, any, is_empty, Text, lit, text_eq, ℤ, pos, negsuc, Dict,
  str_eq, lookup, put, show_nat, show_int, show_tenths, or_else, ◌>>=◌, traverse, filter_map,
  split_on, sort_by, keep,
}
use node_debug_dashboard.Json.{
  Json, Fields, Items, null, int, text, list, dict, nil, end, get, get_or, fields_of, iterate,
  is_text, truthy, or_value, required_text,
}
use node_debug_dashboard.Models.Containers.{ContainerStats, SystemContainer, WorkloadContainer}
use node_debug_dashboard.Kubernetes.{int_of, text_field, dict_field, list_field}
use node_debug_dashboard.Kubernetes.Etcd.{round_div}
use node_debug_dashboard.Kubernetes.Cluster.{text_lt}

-- `SYSTEM_NAMESPACES` and `SYSTEM_CONTAINER_NAMES`
unfoldable pub system_namespaces : List Text
unfolding lit
system_namespaces = lit "kube-system" ∷ []

unfoldable pub system_container_names : List Text
unfolding lit
system_container_names =
    lit "etcd"
    ∷ lit "kube-apiserver"
    ∷ lit "kube-scheduler"
    ∷ lit "kube-controller-manager"
    ∷ lit "kube-proxy"
    ∷ []

-- The metadata of a pod; its state is not read again.
pub record Pod : Type 0 where
  pub name : Json
  pub namespace : Json

abbrev some_pod : Json → Option (Text × Pod)
some_pod v = do
  item ← fields_of v
  id ← text_field (lit "id") item
  metadata ← dict_field (lit "metadata") item
  some (
    id,
    record {
      name = get_or (text []) (lit "name") metadata;
      namespace = get_or (text []) (lit "namespace") metadata;
    },
  )

-- A dictionary filled pair by pair: the last value of a key counts.
unfoldable pub dict_of : {A : Type 0} → List (Text × A) → Dict Text A → Dict Text A
unfolding put
dict_of [] d = d
dict_of ((k, v) ∷ pairs) d = dict_of pairs (put k v d)

-- The values under a key of the output, if the command worked and printed JSON.
abbrev values_of : Text → Option Json → Option (List Json)
values_of key none = some []
values_of key (some data_) = do fs ← fields_of data_; list_field key fs

-- `_get_pods`
unfoldable pub get_pods : Option Json → Option (Dict Text Pod)
unfolding list_field text_field dict_field get_or dict_of lit
get_pods output = do
  values ← values_of (lit "items") output
  pods ← traverse some_pod values
  some (dict_of pods [])

-- `_get_containers`
unfoldable pub get_containers : Option Json → Option (List Json)
unfolding list_field lit
get_containers output = values_of (lit "containers") output

-- The memory of one container, as it stands in the statistics.
abbrev some_stat : Json → Option (Text × Json)
some_stat v = do
  item ← fields_of v
  attributes ← dict_field (lit "attributes") item
  id ← text_field (lit "id") attributes
  cpu ← dict_field (lit "cpu") item
  usage ← dict_field (lit "usageCoreNanoSeconds") cpu
  memory ← dict_field (lit "memory") item
  working_set ← dict_field (lit "workingSetBytes") memory
  some (id, get_or (int (pos 0)) (lit "value") working_set)

-- `_get_stats`; the time of the CPU is not read again.
unfoldable pub get_stats : Option Json → Option (Dict Text Json)
unfolding list_field text_field dict_field get_or dict_of lit
get_stats output = do
  values ← values_of (lit "stats") output
  stats ← traverse some_stat values
  some (dict_of stats [])

-- `_build_stats`
unfoldable pub build_stats : Dict Text Json → Text → Option ContainerStats
unfolding lookup int_of human_bytes
build_stats stats_map container_id = do
  mem_bytes ← int_of (or_else (lookup container_id stats_map) (int (pos 0)))
  some (record { memory_bytes = mem_bytes; memory_human = human_bytes mem_bytes })

-- `v in names`, of a value that can be hashed.
unfoldable pub is_one_of : List Text → Json → Option Bool
unfolding text_eq
is_one_of names (list xs) = none
is_one_of names (dict fs) = none
is_one_of names v = some (any (λ t. is_text t v) names)

-- What the loops of both collectors take from a container.
pub record Item : Type 0 where
  pub fields : Fields
  pub cid : Text
  pub name : Json
  pub pod : Pod
  pub is_system : Bool

abbrev no_pod : Pod
no_pod = record { name = text []; namespace = text [] }

unfoldable pub item_of : Dict Text Pod → Json → Option Item
unfolding text_field dict_field get_or lit lookup is_one_of system_namespaces system_container_names
item_of pods v = do
  c ← fields_of v
  cid ← text_field (lit "id") c
  metadata ← dict_field (lit "metadata") c
  pod_id ← text_field (lit "podSandboxId") c
  let pod = or_else (lookup pod_id pods) no_pod
  let name = get_or (text []) (lit "name") metadata
  by_namespace ← is_one_of system_namespaces pod.namespace
  system ← elim by_namespace [ true ↦ some true | false ↦ is_one_of system_container_names name ]
  some (record { fields = c; cid = cid; name = name; pod = pod; is_system = system })

-- `image_ref.split("@")[0]`
abbrev before_at : List Text → Text
before_at [] = []
before_at (part ∷ parts) = part

unfoldable pub image_of : Fields → Option Text
unfolding text_field dict_field get_or lit truthy split_on
image_of c = elim (truthy (get_or (text []) (lit "imageRef") c)) [
  | true ↦ do
    t ← required_text (get_or (text []) (lit "imageRef") c)
    some (before_at (split_on b'@' t))
  | false ↦ do
    image ← dict_field (lit "image") c
    t ← text_field (lit "image") image
    some (before_at (split_on b'@' t))
]

-- The fields that the models of both lists have.
pub record Common : Type 0 where
  pub image : Text
  pub state : Text
  pub uptime : Text
  pub created_at : Text
  pub stats : ContainerStats

unfoldable pub common_of : ℕ → Dict Text Json → Item → Option Common
unfolding get_or lit int_of image_of text_field container_uptime build_stats show_int
common_of now stats_map i = do
  created_ns ← int_of (get_or (int (pos 0)) (lit "createdAt") i.fields)
  image ← image_of i.fields
  state ← text_field (lit "state") i.fields
  stats ← build_stats stats_map i.cid
  some (record {
    image = image;
    state = state;
    uptime = container_uptime now i.fields created_ns;
    created_at = show_int created_ns;
    stats = stats;
  })

unfoldable pub system_of : ℕ → Dict Text Json → Item → Option SystemContainer
unfolding common_of
system_of now stats_map i = do
  common ← common_of now stats_map i
  name ← required_text i.name
  some (record {
    name = name;
    container_id = i.cid;
    state = common.state;
    image = common.image;
    uptime = common.uptime;
    created_at = common.created_at;
    stats = common.stats;
  })

unfoldable pub workload_of : ℕ → Dict Text Json → Item → Option WorkloadContainer
unfolding common_of
workload_of now stats_map i = do
  common ← common_of now stats_map i
  pod_name ← required_text i.pod.name
  namespace ← required_text i.pod.namespace
  container_name ← required_text i.name
  some (record {
    pod_name = pod_name;
    namespace = namespace;
    container_name = container_name;
    container_id = i.cid;
    image = common.image;
    state = common.state;
    uptime = common.uptime;
    created_at = common.created_at;
    stats = common.stats;
  })

abbrev pub by_name_lt : SystemContainer → SystemContainer → Bool
by_name_lt a b = text_lt a.name b.name

-- `(x.namespace, x.pod_name, x.container_name)`
unfoldable pub workload_lt : WorkloadContainer → WorkloadContainer → Bool
unfolding text_lt text_eq
workload_lt a b =
    text_lt a.namespace b.namespace
    || (text_eq a.namespace b.namespace
        && (text_lt a.pod_name b.pod_name
            || (text_eq a.pod_name b.pod_name && text_lt a.container_name b.container_name)))

-- What the three commands of a collector answered.
pub record Listing : Type 0 where
  pub containers : Option Json
  pub pods : Option Json
  pub stats : Option Json

unfoldable pub items_of : Listing → Option (List Item)
unfolding get_containers get_pods item_of
items_of l = do
  values ← get_containers l.containers
  pods ← get_pods l.pods
  traverse (item_of pods) values

-- `collect_system_containers`
unfoldable pub collect_system_containers : ℕ → Listing → Option (List SystemContainer)
unfolding items_of get_stats system_of sort_by text_lt
collect_system_containers now l = do
  all_items ← items_of l
  stats ← get_stats l.stats
  result ← traverse (system_of now stats) (keep (λ i. i.is_system) all_items)
  some (sort_by by_name_lt result)

-- `collect_workload_containers`
unfoldable pub collect_workload_containers : ℕ → Listing → Option (List WorkloadContainer)
unfolding items_of get_stats workload_of sort_by workload_lt
collect_workload_containers now l = do
  all_items ← items_of l
  stats ← get_stats l.stats
  result ← traverse (workload_of now stats) (keep (λ i. not i.is_system) all_items)
  some (sort_by workload_lt result)
