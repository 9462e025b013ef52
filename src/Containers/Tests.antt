-- ===== src/Containers/Tests.antt =====
-- The containers of a small cluster's node, and the log stream of one of them.
use node_debug_dashboard.Prelude.{
  ℕ, zero, suc, ◌+◌, ◌≡◌, refl, Bool, true, false, Option, none, some, List, [], ◌∷◌, length, all,
  any, not, ◌++◌, All, In, Text, lit, text_eq, strip, lstrip, rstrip, starts_with, lower_char,
  split_on, push_char, is_space, parse_int, read_unsigned, read_more, starts_with_digit, show_int,
  show_nat, show_from, show_tenths, pos, put, lookup, str_eq, sort_by, insert_by, IsSorted,
}
use node_debug_dashboard.Json.{
  Json, Fields, Items, text, list, dict, nil, cons, end, field, get_or, truthy, iterate, repr,
  repr_text, repr_char,
}
use node_debug_dashboard.Models.Containers.{SystemContainer, WorkloadContainer}
use node_debug_dashboard.Kubernetes.{text_field, dict_field, list_field, int_of}
use node_debug_dashboard.Kubernetes.Etcd.{round_div}
use node_debug_dashboard.Kubernetes.Cluster.{text_lt}
use node_debug_dashboard.Containers.{
  system_namespaces, system_container_names, human_from, human_bytes, duration, uptime_from_created,
  container_uptime, dict_of, get_pods, get_containers, get_stats, build_stats, is_one_of, Item,
  item_of, image_of, common_of, system_of, workload_of, workload_lt, Listing, items_of,
  collect_system_containers, collect_workload_containers, by_name_lt,
}
use node_debug_dashboard.Containers.Partition.{collect_containers-listed}
use node_debug_dashboard.Containers.Logs.{
  after_colon, after_scheme, until_slash, netloc, is_container_id, container_log_path, log_path_of,
  pod_logs, Node, refused, reported, crashed, stream_of, is_allowed, open_stream, container_logs,
  is_hex,
}
use node_debug_dashboard.Containers.Logs.Guards.{container_logs-guards, IsSameOrigin, IsPodLog}
use node_debug_dashboard.Containers.Logs.Stream.{
  line, pumped, received, StreamEvent, opened, run_stream, stream_step, release_stream, lines_of,
  is_exit, after_item, on_event, pump, until_disconnect, GoesOn, a_line, a_message, a_disconnection,
  run_stream-releases,
}

program : Unit {0}
unfolding lit text_eq strip lstrip rstrip starts_with lower_char split_on push_char is_space
    parse_int read_unsigned read_more starts_with_digit show_int show_nat show_from show_tenths put
    lookup sort_by insert_by get_or truthy iterate repr repr_text repr_char text_field dict_field
    list_field int_of round_div text_lt system_namespaces system_container_names human_from
    human_bytes duration uptime_from_created container_uptime dict_of get_pods get_containers
    get_stats build_stats is_one_of item_of image_of common_of system_of workload_of workload_lt
    items_of collect_system_containers collect_workload_containers after_colon after_scheme
    until_slash netloc is_container_id container_log_path log_path_of pod_logs stream_of is_allowed
    open_stream container_logs run_stream stream_step release_stream after_item on_event pump
    until_disconnect
program = tt

words_for_sizes :
    (human_bytes (pos 512) ≡ lit "512.0 B")
    × (human_bytes (pos 1536) ≡ lit "1.5 KB")
    × (human_bytes (pos 1048524) ≡ lit "1023.9 KB")
    × (duration 93780 ≡ lit "1d 2h 3m")
    × (uptime_from_created 61_000_000_000 (pos 1_000_000_000) ≡ lit "1m")
unfolding program
words_for_sizes = (refl, refl, refl, refl, refl)

-- A number of the next unit, less one: the test of the unit comes before the rounding.
rounded_up : human_bytes (pos 1048575) ≡ lit "1024.0 KB"
unfolding program
rounded_up = refl

abbrev obj : List (Text × Json) → Fields
obj [] = end
obj ((k, v) ∷ rest) = field k v (obj rest)

abbrev container : Text → Text → Text → Json
container id name pod = dict (
    obj (
      (lit "id", text id)
      ∷ (lit "metadata", dict (obj ((lit "name", text name) ∷ [])))
      ∷ (lit "podSandboxId", text pod)
      ∷ (lit "imageRef", text (lit "web@sha256:00"))
      ∷ []))

abbrev pod_of : Text → Text → Json
pod_of id namespace = dict (
    obj (
      (lit "id", text id)
      ∷ (lit "metadata", dict (obj ((lit "namespace", text namespace) ∷ [])))
      ∷ []))

abbrev output : Text → Items → Option Json
output key xs = some (dict (obj ((key, list xs) ∷ [])))

-- One container by its namespace and one by its name are the system's.
abbrev listing : Listing
listing = record {
  containers = output (lit "containers") (
      cons (container (lit "c1") (lit "proxy") (lit "p1")) (
        cons (container (lit "c2") (lit "shop") (lit "p2"))
          (cons (container (lit "c3") (lit "etcd") (lit "p3")) nil)));
  pods =
      output (lit "items")
        (cons (pod_of (lit "p1") (lit "kube-system")) (cons (pod_of (lit "p2") (lit "web")) nil));
  stats = none;
}

abbrev shared : Text → Text → Text → Text → Bool → Item
shared id name pod namespace system = record {
  fields = obj (
      (lit "id", text id)
      ∷ (lit "metadata", dict (obj ((lit "name", text name) ∷ [])))
      ∷ (lit "podSandboxId", text pod)
      ∷ (lit "imageRef", text (lit "web@sha256:00"))
      ∷ []);
  cid = id;
  name = text name;
  pod = record { name = text []; namespace = text namespace };
  is_system = system;
}

abbrev all_items : List Item
all_items =
    shared (lit "c1") (lit "proxy") (lit "p1") (lit "kube-system") true
    ∷ shared (lit "c2") (lit "shop") (lit "p2") (lit "web") false
    ∷ shared (lit "c3") (lit "etcd") (lit "p3") [] true
    ∷ []

abbrev system_row : Text → Text → SystemContainer
system_row id name = record {
  name = name;
  container_id = id;
  state = [];
  image = lit "web";
  uptime = [];
  created_at = lit "0";
  stats = record { memory_bytes = pos 0; memory_human = lit "0.0 B" };
}

abbrev shop : WorkloadContainer
shop = record {
  pod_name = [];
  namespace = lit "web";
  container_name = lit "shop";
  container_id = lit "c2";
  image = lit "web";
  state = [];
  uptime = [];
  created_at = lit "0";
  stats = record { memory_bytes = pos 0; memory_human = lit "0.0 B" };
}

abbrev systems_found : List SystemContainer
systems_found = system_row (lit "c3") (lit "etcd") ∷ system_row (lit "c1") (lit "proxy") ∷ []

collect_containers-listed_example :
    (length systems_found + length (shop ∷ []) ≡ length all_items)
    × ((i : Item)
        → In i all_items
        → i.is_system ≡ true
        → (c : SystemContainer) × In c systems_found × (c.container_id ≡ i.cid))
    × ((i : Item)
        → In i all_items
        → i.is_system ≡ false
        → (c : WorkloadContainer) × In c (shop ∷ []) × (c.container_id ≡ i.cid))
    × IsSorted by_name_lt systems_found
unfolding program
collect_containers-listed_example =
    collect_containers-listed 5 listing all_items systems_found (shop ∷ []) refl refl refl

abbrev repeated : ℕ → Text
repeated zero = []
repeated (suc n) = b'7' ∷ repeated n

-- 64 times the digit 7.
abbrev id : Text
id = repeated 64

abbrev node_with : Text → Node
node_with log_path = record {
  host_root = lit "/host";
  inspect_status = λ i. pos 0;
  inspect_output = λ i. lit "{}";
  loads = λ t.
      some (dict (obj ((lit "status", dict (obj ((lit "logPath", text log_path) ∷ []))) ∷ [])));
  realpath = λ p. some p;
}

abbrev node : Node
node = node_with (lit "/var/log/pods/x/0.log")

handshakes :
    (container_logs node (some (lit "https://evil.example/")) (lit "node:8080") id
      ≡ refused (lit "Cross-origin request refused"))
    × (container_logs node none (lit "node:8080") (lit "77") ≡ refused (lit "Invalid container ID"))
    × (container_logs (node_with (lit "/var/log/pods-x/0.log")) none [] id
        ≡ reported (lit "[Error: log path outside allowed pod log tree]\n"))
    × (container_logs (node_with []) none [] id
        ≡ reported (lit "[Error: could not find log path for container]\n"))
    × (container_logs (record node { realpath = λ p. none }) none [] id ≡ crashed)
unfolding program
handshakes = (refl, refl, refl, refl, refl)

container_logs-guards_example :
    IsSameOrigin (some (lit "http://Node:8080")) (lit "node:8080")
    × (length id ≡ 64)
    × (all is_hex id ≡ true)
    × IsPodLog node id (lit "/host/var/log/pods/x/0.log")
unfolding program
container_logs-guards_example =
    container_logs-guards node (some (lit "http://Node:8080")) (lit "node:8080") id
      (lit "/host/var/log/pods/x/0.log") refl

abbrev before_end : List StreamEvent
before_end = pumped (line (lit "a")) ∷ received (lit "websocket.receive") ∷ []

going : All GoesOn before_end
unfolding program
going = (a_line (lit "a"), (a_message (lit "websocket.receive") refl, tt))

abbrev events : List StreamEvent
events = before_end ++ received (lit "websocket.disconnect") ∷ pumped (line (lit "b")) ∷ []

run_stream-releases_example :
    ((run_stream events opened).is_open ≡ false)
    × ((run_stream events opened).sent ≡ lines_of before_end)
    × ((run_stream events opened).killed ≡ not (any is_exit before_end))
run_stream-releases_example =
    run_stream-releases before_end (received (lit "websocket.disconnect"))
      (pumped (line (lit "b")) ∷ []) going a_disconnection
